-- ===== src/Base64/Digits.antt =====
-- The four six-bit digits of three bytes, and the two tables on them.
use ldcp_sdk.Prelude.{
  ℕ, ◌+◌, ◌*◌, ◌/◌, ◌%◌, ◌^◌, ◌<◌, bit_and, bit_or, ◌≡◌, refl, true, false, ◌&&◌, not, arith, leb,
  ◌==◌, ==_iff, all_below, all_below_sound,
}
use ldcp_sdk.Prelude.Xor.{and_3, and_15, and_63, or_shifted}
use ldcp_sdk.Base64.{basis_64, lut}

basis_table :
    all_below 64
      (λ d. lut (basis_64 d) == d && (not (basis_64 d == b'=') && not (leb 128 (basis_64 d))))
    ≡ true
unfolding all_below lut basis_64
basis_table = refl

-- A digit's character is ASCII, is not the padding, and is read back as the digit.
pub lut-basis_64 :
    (d : ℕ)
    → d < 64
    → (lut (basis_64 d) ≡ d) × ((basis_64 d == b'=') ≡ false) × (leb 128 (basis_64 d) ≡ false)
lut-basis_64 d h = ground (arith, all_below_sound 64 _ d basis_table h)

high_nibble : (b : ℕ) → b < 256 → bit_and b 0xF0 / 2 ^ 4 ≡ b / 16
high_nibble b h =
    (==_iff _ _).0 (all_below_sound 256 (λ b. bit_and b 0xF0 / 2 ^ 4 == b / 16) b table h)
  where
    table : all_below 256 (λ b. bit_and b 0xF0 / 2 ^ 4 == b / 16) ≡ true
    table = unfold all_below in refl

high_pair : (c : ℕ) → c < 256 → bit_and c 0xC0 / 2 ^ 6 ≡ c / 64
high_pair c h =
    (==_iff _ _).0 (all_below_sound 256 (λ b. bit_and b 0xC0 / 2 ^ 6 == b / 64) c table h)
  where
    table : all_below 256 (λ b. bit_and b 0xC0 / 2 ^ 6 == b / 64) ≡ true
    table = unfold all_below in refl

pub digit_0 : (a : ℕ) → a < 256 → bit_and (a / 2 ^ 2) 0x3F ≡ a / 4
digit_0 a h = omega (arith, and_63 (a / 2 ^ 2))

pub digit_1 :
    (a b : ℕ)
    → a < 256
    → b < 256
    → bit_or (bit_and a 0x3 * 2 ^ 4) (bit_and b 0xF0 / 2 ^ 4) ≡ a % 4 * 16 + b / 16
digit_1 a b ha hb = rw (and_3 a, high_nibble b hb) (or_shifted 4 (a % 4) (b / 16) (omega arith))

pub digit_2 :
    (b c : ℕ)
    → b < 256
    → c < 256
    → bit_or (bit_and b 0xF * 2 ^ 2) (bit_and c 0xC0 / 2 ^ 6) ≡ b % 16 * 4 + c / 64
digit_2 b c hb hc = rw (and_15 b, high_pair c hc) (or_shifted 2 (b % 16) (c / 64) (omega arith))

pub digit_3 : (c : ℕ) → bit_and c 0x3F ≡ c % 64
digit_3 c = and_63 c

pub digit_1_last : (a : ℕ) → bit_and a 0x3 * 2 ^ 4 ≡ a % 4 * 16
digit_1_last a = rw (and_3 a)

pub digit_2_last : (b : ℕ) → bit_and b 0xF * 2 ^ 2 ≡ b % 16 * 4
digit_2_last b = rw (and_15 b)
