-- ===== src/Json.antt =====
-- The parts of RapidJSON's Document and Value that the sources use, as an interface. The library
-- itself is third-party code, so its values and calls are parameters, with the documented
-- behaviour that the clients rely on as laws. A call outside its documented precondition
-- (`operator[]` on a missing member, `GetInt` on what is no int) may return anything.
pub mod Tree
pub mod Data
use Prim.Native.String.{String}
use text.Mathlib.Text.{◌==◌}
use ldcp_sdk.Prelude.{◌≡◌, Bool, true, false, if◌then◌else◌}
use ldcp_sdk.Prelude.Int.{ℤ}

pub record Json : Type 1 where
  pub Value : Type 0
  -- A default-constructed document, or one that was moved from.
  pub null : Value
  pub text : String → Value
  pub number : ℤ → Value
  pub boolean : Bool → Value
  -- SetObject
  pub empty_object : Value
  -- AddMember puts a member behind those that are there.
  pub add_member : Value → String → Value → Value
  -- Assignment through operator[], which finds the first member of the name.
  pub set_member : Value → String → Value → Value
  -- HasMember
  pub has_member : Value → String → Bool
  -- operator[]
  pub member : Value → String → Value
  pub is_null : Value → Bool
  pub is_object : Value → Bool
  pub is_int : Value → Bool
  pub get_int : Value → ℤ
  pub get_int64 : Value → ℤ
  pub get_bool : Value → Bool
  pub get_text : Value → String
  -- double, and GetDouble
  pub Double : Type 0
  pub get_double : Value → Double
  -- operator== with an int and with a string
  pub equals_int : Value → ℤ → Bool
  pub equals_text : Value → String → Bool
  pub is_null-null : is_null null ≡ true
  pub is_object-empty_object : is_object empty_object ≡ true
  pub is_object-add_member :
      (v : Value) (k : String) (x : Value)
      → is_object v ≡ true
      → is_object (add_member v k x) ≡ true
  pub is_object-set_member :
      (v : Value) (k : String) (x : Value)
      → is_object v ≡ true
      → is_object (set_member v k x) ≡ true
  pub has_member-empty_object : (k : String) → has_member empty_object k ≡ false
  pub has_member-add_member :
      (v : Value) (k : String) (x : Value) (j : String)
      → is_object v ≡ true
      → has_member (add_member v k x) j ≡ (if k == j then true else has_member v j)
  -- The first member of a name is the one that is found.
  pub member-add_member :
      (v : Value) (k : String) (x : Value) (j : String)
      → is_object v ≡ true
      → member (add_member v k x) j
        ≡ (if has_member v j then member v j else if k == j then x else member v j)
  pub has_member-set_member :
      (v : Value) (k : String) (x : Value) (j : String)
      → is_object v ≡ true
      → has_member (set_member v k x) j ≡ has_member v j
  pub member-set_member :
      (v : Value) (k : String) (x : Value) (j : String)
      → is_object v ≡ true
      → has_member v k ≡ true
      → member (set_member v k x) j ≡ (if k == j then x else member v j)
  pub equals_int-number : (z : ℤ) → equals_int (number z) z ≡ true
  -- A value equals at most one int.
  pub equals_int_unique :
      (v : Value) (a b : ℤ) → equals_int v a ≡ true → equals_int v b ≡ true → a ≡ b
  pub equals_text-text : (s t : String) → equals_text (text s) t ≡ (s == t)
  pub get_int-number : (z : ℤ) → get_int (number z) ≡ z
  pub get_bool-boolean : (b : Bool) → get_bool (boolean b) ≡ b
  pub get_text-text : (s : String) → get_text (text s) ≡ s
