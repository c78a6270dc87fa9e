-- ===== src/Base64/Safety.antt =====
-- The decoder on any text: its arithmetic fits an int, its output is bounded, and it fails only on
-- characters from 128 on.
use ldcp_sdk.Prelude.{
  ℕ, zero, suc, ◌+◌, ◌*◌, ◌/◌, ◌^◌, ◌≤◌, ◌<◌, bit_and, bit_or, ◌≡◌, refl, true, false, List, [],
  ◌∷◌, some, All, arith, leb, ◌==◌, length, length-append, Bool-cases, inl, inr, all_below,
  all_below_sound,
}
use ldcp_sdk.Prelude.Bits.{bit_or_step}
use ldcp_sdk.Base64.{Decoder, lut, base64_decode, decode_loop, decode_step, decode_finish}

bit_or-le_upto : (n a b : ℕ) → a ≤ n → b ≤ n → bit_or a b ≤ a + b
bit_or-le_upto zero zero zero p q = omega arith
bit_or-le_upto zero (suc a) b p q = absurd (omega arith)
bit_or-le_upto zero zero (suc b) p q = absurd (omega arith)
bit_or-le_upto (suc n) a b p q =
    omega (arith, bit_or_step a b, bit_or-le_upto n (a / 2) (b / 2) (omega arith) (omega arith))

bit_or-le : (a b : ℕ) → bit_or a b ≤ a + b
bit_or-le a b = bit_or-le_upto (a + b) a b (omega arith) (omega arith)

lut_table_le : all_below 256 (λ c. leb (lut c) 64) ≡ true
unfolding all_below lut
lut_table_le = refl

lut-le : (c : ℕ) → c < 128 → lut c ≤ 64
lut-le c h = ground (arith, all_below_sound 256 _ c lut_table_le)

-- `value` is bounded by the number of digits that it holds.
pub record IsSane (d : Decoder) : Type 0 where
  pub count_lt : d.count < 4
  pub value_0 : d.count ≡ 0 → d.value ≡ 0
  pub value_1 : d.count ≡ 1 → d.value ≤ 64
  pub value_2 : d.count ≡ 2 → d.value ≤ 4160
  pub value_3 : d.count ≡ 3 → d.value ≤ 266304

-- Reading a character keeps the decoder sane, and the value computed for it is below 2^25.
pub decode_step-IsSane :
    (d : Decoder) (c : ℕ)
    → c < 128
    → IsSane d
    → IsSane (decode_step d c) × (bit_or (d.value * 2 ^ 6) (lut c) < 2 ^ 25)
unfolding decode_step
decode_step-IsSane d c hc s = ground (arith, lut-le c, bit_or-le (d.value * 2 ^ 6) (lut c))

finish_room : (d : Decoder) → length (decode_finish d) * 4 ≤ length d.dest * 4 + d.count * 3
unfolding decode_finish
finish_room d = ground (
  arith,
  length-append d.dest (bit_and (d.value / 2 ^ 10) 0xFF ∷ bit_and (d.value / 2 ^ 2) 0xFF ∷ []),
  length-append d.dest (bit_and (d.value / 2 ^ 4) 0xFF ∷ []),
)

step_room :
    (d : Decoder) (c : ℕ)
    → length (decode_step d c).dest * 4 + (decode_step d c).count * 3
      ≤ length d.dest * 4 + d.count * 3 + 3
unfolding decode_step
step_room d c =
    let v : ℕ = bit_or (d.value * 2 ^ 6) (lut c) in
    ground (
      arith,
      length-append d.dest
          (bit_and (v / 2 ^ 16) 0xFF ∷ bit_and (v / 2 ^ 8) 0xFF ∷ bit_and v 0xFF ∷ []),
    )

decode_loop_bounded :
    (d : Decoder) (src : List ℕ)
    → All (λ c. c < 128) src
    → (out : List ℕ) × (decode_loop d src ≡ some out)
      × (length out * 4 ≤ length d.dest * 4 + d.count * 3 + length src * 3)
unfolding decode_loop
decode_loop_bounded d [] h = (decode_finish d, refl, omega (arith, finish_room d))
decode_loop_bounded d (c ∷ rest) h =
    let (out, found, room) = decode_loop_bounded (decode_step d c) rest h.1 in
    elim (Bool-cases (c == b'=')) [
      | inl stop ↦ (decode_finish d, rw stop, omega (arith, finish_room d))
      | inr digit ↦ (out, rw (digit, ascii c h.0) found, omega (arith, room, step_room d c))
    ]
  where
    ascii : (x : ℕ) → x < 128 → leb 128 x ≡ false
    ascii x hx = ground arith

-- On any ASCII text the decoder succeeds, and writes at most three bytes for four characters.
pub base64_decode_bounded :
    (src : List ℕ)
    → All (λ c. c < 128) src
    → (out : List ℕ) × (base64_decode src ≡ some out) × (length out ≤ length src * 3 / 4)
unfolding base64_decode
base64_decode_bounded src h =
    let (out, found, room) =
      decode_loop_bounded (record { value = 0; count = 0; dest = [] }) src h in
    (out, found, omega (arith, room))
