-- ===== src/Base64/Length.antt =====
-- The lengths that callers compute before they encode or decode.
use mathlib.Core.List.{reverse, reverse-append}
use ldcp_sdk.Prelude.{
  ℕ, ◌+◌, ◌-◌, ◌*◌, ◌/◌, ◌%◌, ◌^◌, ◌≤◌, bit_and, bit_or, ◌≡◌, ◌≢◌, refl, List, [], ◌∷◌, ◌++◌, some,
  All, arith, Option-cases, inl, inr, length,
}
use ldcp_sdk.Prelude.Int.{pos, sub_ℕ}
use ldcp_sdk.Base64.{
  basis_64, base64_encode, trailing_padding, calculate_base64_encoded_length,
  calculate_base64_decoded_length,
}
use ldcp_sdk.Base64.Digits.{lut-basis_64, digit_3, digit_1_last, digit_2_last}
use ldcp_sdk.Base64.RoundTrip.{IsByte}

pub length-encode_upto :
    (bytes : List ℕ) → length (base64_encode bytes) ≡ (length bytes + 2) / 3 * 4
unfolding base64_encode
length-encode_upto [] = refl
length-encode_upto (a ∷ []) = refl
length-encode_upto (a ∷ b ∷ []) = refl
length-encode_upto (a ∷ b ∷ c ∷ rest) = omega (arith, length-encode_upto rest)

-- The encoder writes exactly as many characters as the caller has made room for.
pub length-base64_encode :
    (bytes : List ℕ) → length (base64_encode bytes) ≡ calculate_base64_encoded_length (length bytes)
unfolding calculate_base64_encoded_length
length-base64_encode bytes = length-encode_upto bytes

-- Characters before the padding do not matter once a character has ended it.
trailing_padding-append :
    (xs ys : List ℕ) (n : ℕ) → trailing_padding xs ≡ some n → trailing_padding (xs ++ ys) ≡ some n
unfolding trailing_padding
trailing_padding-append [] ys n e = cc
trailing_padding-append (x ∷ xs) ys n e = elim (Option-cases (trailing_padding xs)) [
  | inl nothing ↦ ground (arith, nothing)
  | inr (m, found) ↦ rw (trailing_padding-append xs ys m found) (rw found at e)
]

-- Padding is counted from the end.
trailing_padding-behind :
    (xs ys : List ℕ) (n : ℕ)
    → trailing_padding (reverse ys) ≡ some n
    → trailing_padding (reverse (xs ++ ys)) ≡ some n
trailing_padding-behind xs ys n e =
    rw reverse-append (trailing_padding-append (reverse ys) (reverse xs) n e)

abbrev pub padding : List ℕ → ℕ
padding [] = 0
padding (a ∷ []) = 2
padding (a ∷ b ∷ []) = 1
padding (a ∷ b ∷ c ∷ rest) = padding rest

padding_lem : (bytes : List ℕ) → padding bytes + length bytes ≡ (length bytes + 2) / 3 * 3
padding_lem [] = refl
padding_lem (a ∷ []) = refl
padding_lem (a ∷ b ∷ []) = refl
padding_lem (a ∷ b ∷ c ∷ rest) = omega (arith, padding_lem rest)

pub trailing_padding-encode :
    (bytes : List ℕ)
    → All IsByte bytes
    → bytes ≢ []
    → trailing_padding (reverse (base64_encode bytes)) ≡ some (padding bytes)
unfolding base64_encode trailing_padding
trailing_padding-encode [] h ne = absurd (ne refl)
trailing_padding-encode (a ∷ []) h ne =
    rw (digit_1_last a, (lut-basis_64 (a % 4 * 16) (omega arith)).1)
trailing_padding-encode (a ∷ b ∷ []) h ne =
    rw (digit_2_last b, (lut-basis_64 (b % 16 * 4) (omega arith)).1)
trailing_padding-encode (a ∷ b ∷ c ∷ []) h ne =
    rw (digit_3 c, (lut-basis_64 (c % 64) (omega arith)).1)
trailing_padding-encode (a ∷ b ∷ c ∷ d ∷ rest) h ne =
    trailing_padding-behind
      (basis_64 (bit_and (a / 2 ^ 2) 0x3F)
        ∷ basis_64 (bit_or (bit_and a 0x3 * 2 ^ 4) (bit_and b 0xF0 / 2 ^ 4))
        ∷ basis_64 (bit_or (bit_and b 0xF * 2 ^ 2) (bit_and c 0xC0 / 2 ^ 6))
        ∷ basis_64 (bit_and c 0x3F)
        ∷ [])
      (base64_encode (d ∷ rest)) (padding (d ∷ rest))
      (trailing_padding-encode (d ∷ rest) h.1.1.1 (λ e. cc))

sub_ℕ-add : (a b : ℕ) → b ≤ a → sub_ℕ a b ≡ pos (a - b)
sub_ℕ-add a b h = ground arith

-- The length that the decoder's caller computes from an encoding of at least one byte is the
-- number of bytes that decoding it gives.
pub decoded_length-encode :
    (bytes : List ℕ)
    → All IsByte bytes
    → bytes ≢ []
    → calculate_base64_decoded_length (base64_encode bytes) ≡ some (pos (length bytes))
unfolding calculate_base64_decoded_length
decoded_length-encode bytes h ne =
    let total = length-encode_upto bytes in
    let room : length (base64_encode bytes) * 3 / 4 ≡ padding bytes + length bytes =
      omega (arith, total, padding_lem bytes) in
    let rest : padding bytes + length bytes - padding bytes ≡ length bytes = omega arith in
    rw (
      trailing_padding-encode bytes h ne,
      room,
      sub_ℕ-add (padding bytes + length bytes) (padding bytes) (omega arith),
      rest,
    )
