-- ===== src/Json/Data.antt =====
-- What the scan data and the firmware commands use of RapidJSON besides: arrays, and strings as
-- their bytes (GetString with GetStringLength).
use mathlib.Core.Option.{Option, none, some}
use ldcp_sdk.Prelude.{ℕ, zero, suc, ◌≡◌, true, false, List, [], ◌∷◌, length}
use ldcp_sdk.Json.{Json}

unfoldable pub item {ℓ} : {A : Type ℓ} → List A → ℕ → Option A
item [] n = none
item (x ∷ xs) zero = some x
item (x ∷ xs) (suc n) = item xs n

pub record JsonData (j : Json) : Type 0 where
  pub array : List j.Value → j.Value
  pub bytes_text : List ℕ → j.Value
  -- Size, and operator[] with an index
  pub size : j.Value → ℕ
  pub element : j.Value → ℕ → j.Value
  pub get_bytes : j.Value → List ℕ
  pub size-array : (vs : List j.Value) → size (array vs) ≡ length vs
  pub element-array :
      (vs : List j.Value) (n : ℕ) (v : j.Value) → item vs n ≡ some v → element (array vs) n ≡ v
  pub get_bytes-bytes_text : (bytes : List ℕ) → get_bytes (bytes_text bytes) ≡ bytes
  pub is_null-bytes_text : (bytes : List ℕ) → j.is_null (bytes_text bytes) ≡ false
  pub is_null-object : (v : j.Value) → j.is_object v ≡ true → j.is_null v ≡ false
