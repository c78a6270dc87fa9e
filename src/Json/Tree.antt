-- ===== src/Json/Tree.antt =====
-- A concrete value of the interface: JSON trees.
use Prim.Native.String.{String}
use text.Mathlib.Text.{◌==◌}
use text.Mathlib.TextEquality.{eq_iff}
use mathlib.Core.Option.{some-injective}
use ldcp_sdk.Json.Data.{JsonData, item}
use ldcp_sdk.Prelude.{
  ℕ, zero, suc, List, [], ◌∷◌, length, ap, some, ◌≡◌, refl, sym, ◌∙◌, Bool, true, false, arith,
  if◌then◌else◌,
}
use ldcp_sdk.Prelude.Int.{ℤ, pos, eq_ℤ, eq_ℤ_iff}
use ldcp_sdk.Json.{Json}

mutual
  pub data Tree : Type 0 where
    null : Tree
    string : String → Tree
    number : ℤ → Tree
    boolean : Bool → Tree
    object : Fields → Tree
    -- A string that is given by its bytes, and an array.
    encoded : List ℕ → Tree
    array : Items → Tree

  pub data Fields : Type 0 where
    end : Fields
    field : String → Tree → Fields → Fields

  pub data Items : Type 0 where
    stop : Items
    more : Tree → Items → Items

abbrev pub has_field : String → Fields → Bool
has_field k end = false
has_field k (field i x fs) = if i == k then true else has_field k fs

abbrev pub get_field : String → Fields → Tree
get_field k end = null
get_field k (field i x fs) = if i == k then x else get_field k fs

abbrev pub append_field : Fields → String → Tree → Fields
append_field end k x = field k x end
append_field (field i y fs) k x = field i y (append_field fs k x)

abbrev pub set_field : Fields → String → Tree → Fields
set_field end k x = end
set_field (field i y fs) k x = if i == k then field i x fs else field i y (set_field fs k x)

abbrev pub fields : Tree → Fields
fields (object fs) = fs
fields _ = end

abbrev pub is_object : Tree → Bool
is_object (object fs) = true
is_object _ = false

abbrev pub is_null : Tree → Bool
is_null null = true
is_null _ = false

abbrev pub is_int : Tree → Bool
is_int (number z) = true
is_int _ = false

abbrev pub get_int : Tree → ℤ
get_int (number z) = z
get_int _ = pos 0

abbrev pub get_text : Tree → String
get_text (string s) = s
get_text _ = ""

abbrev pub get_bool : Tree → Bool
get_bool (boolean b) = b
get_bool _ = false

abbrev pub equals_int : Tree → ℤ → Bool
equals_int (number z) w = eq_ℤ z w
equals_int _ w = false

abbrev pub equals_text : Tree → String → Bool
equals_text (string s) t = s == t
equals_text _ t = false

abbrev pub add_member : Tree → String → Tree → Tree
add_member v k x = object (append_field (fields v) k x)

abbrev pub set_member : Tree → String → Tree → Tree
set_member v k x = object (set_field (fields v) k x)

pub has_field-append :
    (fs : Fields) (k : String) (x : Tree) (i : String)
    → has_field i (append_field fs k x) ≡ (if k == i then true else has_field i fs)
has_field-append end k x i = refl
has_field-append (field n y fs) k x i = ground (arith, has_field-append fs k x i)

pub get_field-append :
    (fs : Fields) (k : String) (x : Tree) (i : String)
    → get_field i (append_field fs k x)
      ≡ (if has_field i fs then get_field i fs else if k == i then x else get_field i fs)
get_field-append end k x i = refl
get_field-append (field n y fs) k x i = ground (arith, get_field-append fs k x i)

pub has_field-set :
    (fs : Fields) (k : String) (x : Tree) (i : String)
    → has_field i (set_field fs k x) ≡ has_field i fs
has_field-set end k x i = refl
has_field-set (field n y fs) k x i = ground (arith, has_field-set fs k x i)

pub get_field-set :
    (fs : Fields) (k : String) (x : Tree) (i : String)
    → has_field k fs ≡ true
    → get_field i (set_field fs k x) ≡ (if k == i then x else get_field i fs)
get_field-set end k x i h = cc
get_field-set (field n y fs) k x i h =
    ground (arith, eq_iff n k, eq_iff n i, eq_iff k i, get_field-set fs k x i)

eq_ℤ_unique : (z a b : ℤ) → eq_ℤ z a ≡ true → eq_ℤ z b ≡ true → a ≡ b
eq_ℤ_unique z a b p q = sym ((eq_ℤ_iff z a).0 p) ∙ (eq_ℤ_iff z b).0 q

pub equals_int_unique : (v : Tree) (a b : ℤ) → equals_int v a ≡ true → equals_int v b ≡ true → a ≡ b
equals_int_unique (number z) a b p q = eq_ℤ_unique z a b p q
equals_int_unique _ a b p q = cc

abbrev pub tree_json : Json
tree_json = record {
  Value = Tree;
  null = null;
  text = string;
  number = number;
  boolean = boolean;
  empty_object = object end;
  add_member = add_member;
  set_member = set_member;
  has_member = λ v k. has_field k (fields v);
  member = λ v k. get_field k (fields v);
  is_null = is_null;
  is_object = is_object;
  is_int = is_int;
  get_int = get_int;
  get_int64 = get_int;
  get_bool = get_bool;
  get_text = get_text;
  Double = ℤ;
  get_double = get_int;
  equals_int = equals_int;
  equals_text = equals_text;
  is_null-null = refl;
  is_object-empty_object = refl;
  is_object-add_member = λ v k x h. refl;
  is_object-set_member = λ v k x h. refl;
  has_member-empty_object = λ k. refl;
  has_member-add_member = λ v k x i h. has_field-append (fields v) k x i;
  member-add_member = λ v k x i h. get_field-append (fields v) k x i;
  has_member-set_member = λ v k x i h. has_field-set (fields v) k x i;
  member-set_member = λ v k x i h. get_field-set (fields v) k x i;
  equals_int-number = λ z. (eq_ℤ_iff z z).1 refl;
  equals_int_unique = equals_int_unique;
  equals_text-text = λ s t. refl;
  get_int-number = λ z. refl;
  get_bool-boolean = λ b. refl;
  get_text-text = λ s. refl;
}

abbrev pub array_of : List Tree → Items
array_of [] = stop
array_of (v ∷ vs) = more v (array_of vs)

abbrev pub items : Tree → Items
items (array vs) = vs
items _ = stop

abbrev pub size : Items → ℕ
size stop = 0
size (more v vs) = suc (size vs)

abbrev pub element : Items → ℕ → Tree
element stop n = null
element (more v vs) zero = v
element (more v vs) (suc n) = element vs n

abbrev pub get_bytes : Tree → List ℕ
get_bytes (encoded bytes) = bytes
get_bytes _ = []

pub size-array_of : (vs : List Tree) → size (array_of vs) ≡ length vs
size-array_of [] = refl
size-array_of (v ∷ vs) = ap (λ (n : ℕ). suc n) (size-array_of vs)

pub element-array_of :
    (vs : List Tree) (n : ℕ) (v : Tree) → item vs n ≡ some v → element (array_of vs) n ≡ v
unfolding item
element-array_of [] n v h = cc
element-array_of (x ∷ vs) zero v h = some-injective _ _ h
element-array_of (x ∷ vs) (suc n) v h = element-array_of vs n v h

pub is_null-object : (v : Tree) → is_object v ≡ true → is_null v ≡ false
is_null-object null h = cc
is_null-object _ h = refl

abbrev pub tree_data : JsonData tree_json
tree_data = record {
  array = λ vs. array (array_of vs);
  bytes_text = encoded;
  size = λ v. size (items v);
  element = λ v. element (items v);
  get_bytes = get_bytes;
  size-array = size-array_of;
  element-array = element-array_of;
  get_bytes-bytes_text = λ bytes. refl;
  is_null-bytes_text = λ bytes. refl;
  is_null-object = is_null-object;
}
