-- ===== src/Notifier/Linux/Records.antt =====
-- The metadata that NetworkDeviceNotifierLinux::serviceResolverCallback reads out of TXT records
-- (src/device_notifier.cpp).
use ldcp_sdk.Prelude.{
  ℕ, zero, suc, ◌+◌, ◌-◌, ◌≤◌, ◌≡◌, refl, ap, ◌∙◌, List, [], ◌∷◌, Option, none, some, arith, length,
  take, eq_bytes, eq_bytes_iff, if◌then◌else◌, Option-cases, inl, inr,
}
use ldcp_sdk.Framing.Stream.{split_at_char}
use ldcp_sdk.Notifier.{set_metadata}
use ldcp_sdk.Notifier.Linux.{c_string, add_record, add_records}

-- The value of a key.
unfoldable pub lookup : List ℕ → List (List ℕ × List ℕ) → Option (List ℕ)
lookup key [] = none
lookup key ((k, v) ∷ entries) =
    let rest = lookup key entries in if eq_bytes k key then some v else rest

-- What one record says of a key: what stands behind its first equals sign, if the key stands
-- before it.
unfoldable pub value_in : List ℕ → List ℕ → Option (List ℕ)
value_in key txt = elim (split_at_char b'=' (c_string txt)) [
  | none ↦ none
  | some parts ↦ if eq_bytes parts.0 key then some parts.1 else none
]

-- What the last record that names a key says of it.
unfoldable pub last_value : List ℕ → List (List ℕ) → Option (List ℕ)
last_value key [] = none
last_value key (txt ∷ txts) = elim (last_value key txts) [
  | some v ↦ some v
  | none ↦ value_in key txt
]

lookup-set_metadata :
    (key k v : List ℕ) (entries : List (List ℕ × List ℕ))
    → lookup key (set_metadata k v entries)
      ≡ (if eq_bytes k key then some v else lookup key entries)
unfolding lookup set_metadata
lookup-set_metadata key k v [] = refl
lookup-set_metadata key k v ((i, w) ∷ entries) = ground (
  arith,
  eq_bytes_iff k key,
  eq_bytes_iff i k,
  eq_bytes_iff i key,
  lookup-set_metadata key k v entries,
)

c_string-le : (cs : List ℕ) → length (c_string cs) ≤ length cs
unfolding c_string
c_string-le [] = omega arith
c_string-le (c ∷ cs) = ground (arith, c_string-le cs)

split_at_char-length :
    (c : ℕ) (xs a b : List ℕ)
    → split_at_char c xs ≡ some (a, b)
    → length xs ≡ suc (length a + length b)
unfolding split_at_char
split_at_char-length c [] a b h = cc
split_at_char-length c (x ∷ xs) a b h = elim (Option-cases (split_at_char c xs)) [
  | inl missing ↦ ground (arith, missing, h)
  | inr ((a', b'), found) ↦ ground (arith, found, h, split_at_char-length c xs a' b' found)
]

take-all : (n : ℕ) (xs : List ℕ) → length xs ≤ n → take n xs ≡ xs
take-all zero [] h = refl
take-all zero (x ∷ xs) h = absurd (omega arith)
take-all (suc n) [] h = refl
take-all (suc n) (x ∷ xs) h = ap (λ (t : List ℕ). x ∷ t) (take-all n xs (omega arith))

lookup-add_record :
    (key : List ℕ) (entries : List (List ℕ × List ℕ)) (txt : List ℕ)
    → lookup key (add_record entries txt)
      ≡ elim (value_in key txt) [ some v ↦ some v | none ↦ lookup key entries ]
unfolding add_record value_in
lookup-add_record key entries txt = elim (Option-cases (split_at_char b'=' (c_string txt))) [
  | inl missing ↦ ground (arith, missing)
  | inr ((a, b), found) ↦
      let whole : take (length txt - length a) b ≡ b =
        take-all _ b
          (omega (arith, split_at_char-length b'=' (c_string txt) a b found, c_string-le txt)) in
      ground (arith, found, whole, lookup-set_metadata key a b entries)
]

lookup-add_records_from :
    (key : List ℕ) (entries : List (List ℕ × List ℕ)) (txts : List (List ℕ))
    → lookup key (add_records entries txts)
      ≡ elim (last_value key txts) [ some v ↦ some v | none ↦ lookup key entries ]
unfolding add_records last_value
lookup-add_records_from key entries [] = refl
lookup-add_records_from key entries (txt ∷ txts) = ground (
  arith,
  lookup-add_records_from key (add_record entries txt) txts,
  lookup-add_record key entries txt,
)

-- The metadata that are read out of TXT records give each key what the last record that names it
-- says behind its first equals sign, and nothing where no record names it.
pub lookup-add_records :
    (key : List ℕ) (txts : List (List ℕ)) → lookup key (add_records [] txts) ≡ last_value key txts
unfolding lookup
lookup-add_records key txts = lookup-add_records_from key [] txts ∙ ground arith
