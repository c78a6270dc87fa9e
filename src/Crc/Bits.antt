-- ===== src/Crc/Bits.antt =====
-- One step of the checksum taken apart: the low byte is shifted up and mixed with a table entry
-- chosen by the high byte and the input.
use ldcp_sdk.Prelude.{
  ℕ, ◌+◌, ◌*◌, ◌/◌, ◌%◌, ◌^◌, ◌<◌, bit_xor, ◌≡◌, refl, sym, ap, ◌∙◌, true, arith, ◌==◌, ==_iff,
  all_below, all_below_sound,
}
use ldcp_sdk.Prelude.Xor.{
  xor_assoc, xor_shifted, zero-xor, xor-lt, xor_cancel_left, xor_cancel_right,
}
use ldcp_sdk.Crc.{crc_step}

-- The mixing of the eight bits that leave the register, as one table entry.
abbrev pub mix : ℕ → ℕ
mix value = bit_xor value (value / 2 ^ 4) % 2 ^ 8

unfoldable pub entry : ℕ → ℕ
entry value =
    bit_xor (bit_xor (mix value * 2 ^ 12 % 2 ^ 16) (mix value * 2 ^ 5 % 2 ^ 16)) (mix value)

entry_lt : (v : ℕ) → entry v < 2 ^ 16
unfolding entry
entry_lt v = xor-lt 16 _ _ (xor-lt 16 _ _ (omega arith) (omega arith)) (omega arith)

pub byte-xor : (a b : ℕ) → a < 256 → b < 256 → bit_xor a b % 2 ^ 8 ≡ bit_xor a b
byte-xor a b ha hb = omega (arith, xor-lt 8 a b ha hb)

-- What is shifted past sixteen bits is lost.
xor_drop_high :
    (h l e : ℕ) → l < 2 ^ 16 → e < 2 ^ 16 → bit_xor (h * 2 ^ 16 + l) e % 2 ^ 16 ≡ bit_xor l e
xor_drop_high h l e hl he =
    let low : 0 * 2 ^ 16 + e ≡ e = omega arith in
    omega (
      arith,
      ap (λ (t : ℕ). bit_xor (h * 2 ^ 16 + l) t) low,
      xor_shifted 16 h l 0 e hl he,
      xor-lt 16 l e hl he,
    )

-- The source's expression, its three terms gathered into the table entry.
gather :
    (c w : ℕ)
    → bit_xor
        (bit_xor (bit_xor (c * 2 ^ 8) (mix w * 2 ^ 12 % 2 ^ 16)) (mix w * 2 ^ 5 % 2 ^ 16))
        (mix w)
      ≡ bit_xor (c * 2 ^ 8) (entry w)
unfolding entry
gather c w =
    ap (λ (t : ℕ). bit_xor t (mix w)) (xor_assoc (c * 2 ^ 8) _ _) ∙ xor_assoc (c * 2 ^ 8) _ (mix w)

pub crc_step-entry :
    (c b : ℕ)
    → c < 65536
    → b < 256
    → crc_step c b ≡ bit_xor (c % 256 * 256) (entry (bit_xor (c / 256) b))
unfolding crc_step
crc_step-entry c b hc hb =
    let w : ℕ = bit_xor (c / 256) b in
    let split : c * 2 ^ 8 ≡ c / 256 * 2 ^ 16 + c % 256 * 256 = omega arith in
    rw (byte-xor (c / 256) b (omega arith) hb, gather c w, split)
      (xor_drop_high (c / 256) (c % 256 * 256) (entry w) (omega arith) (entry_lt w))

pub crc_step-lt : (c b : ℕ) → crc_step c b < 65536
unfolding crc_step
crc_step-lt c b = omega arith

-- Reading an entry back: its low byte determines the byte that chose it.
abbrev low_inverse : ℕ → ℕ
low_inverse x = let m : ℕ = bit_xor x (x * 2 ^ 5 % 2 ^ 8) in bit_xor m (m / 2 ^ 4)

entry_table : all_below 256 (λ v. low_inverse (entry v % 256) == v) ≡ true
unfolding all_below entry
entry_table = refl

low_inverse-entry : (v : ℕ) → v < 256 → low_inverse (entry v % 256) ≡ v
low_inverse-entry v h = (==_iff _ v).0 (all_below_sound 256 _ v entry_table h)

entry_injective : (v w : ℕ) → v < 256 → w < 256 → entry v % 256 ≡ entry w % 256 → v ≡ w
entry_injective v w hv hw e =
    sym (low_inverse-entry v hv) ∙ ap low_inverse e ∙ low_inverse-entry w hw

step_digits :
    (l v : ℕ)
    → l < 256
    → (bit_xor (l * 256) (entry v) ≡ bit_xor l (entry v / 256) * 256 + entry v % 256)
step_digits l v hl =
    let whole : entry v ≡ entry v / 256 * 2 ^ 8 + entry v % 256 = omega arith in
    omega (
      arith,
      ap (λ (t : ℕ). bit_xor (l * 256) t) whole,
      xor_shifted 8 l 0 (entry v / 256) (entry v % 256) (omega arith) (omega arith),
      zero-xor (entry v % 256),
      ap (λ (t : ℕ). bit_xor t (entry v / 256 * 2 ^ 8 + entry v % 256)) (l256 l),
    )
  where
    l256 : (x : ℕ) → x * 256 ≡ x * 2 ^ 8 + 0
    l256 x = omega arith

-- Equal results of one step come from equal low bytes and equal mixtures of high byte and input.
pub crc_step_injective :
    (c d b e : ℕ)
    → c < 65536
    → d < 65536
    → b < 256
    → e < 256
    → crc_step c b ≡ crc_step d e
    → (c % 256 ≡ d % 256) × (bit_xor (c / 256) b ≡ bit_xor (d / 256) e)
crc_step_injective c d b e hc hd hb he eq =
    let v : ℕ = bit_xor (c / 256) b in
    let w : ℕ = bit_xor (d / 256) e in
    let both : bit_xor (c % 256) (entry v / 256) * 256 + entry v % 256
        ≡ bit_xor (d % 256) (entry w / 256) * 256 + entry w % 256 =
      sym (step_digits (c % 256) v (omega arith))
      ∙ sym (crc_step-entry c b hc hb)
      ∙ eq
      ∙ crc_step-entry d e hd he
      ∙ step_digits (d % 256) w (omega arith) in
    let chosen : v ≡ w =
      entry_injective v w (xor-lt 8 _ b (omega arith) hb) (xor-lt 8 _ e (omega arith) he)
        (omega (arith, both)) in
    let highs : bit_xor (c % 256) (entry v / 256) ≡ bit_xor (d % 256) (entry v / 256) =
      omega (arith, both, ap (λ (t : ℕ). entry t % 256) chosen)
      ∙ ap (λ (t : ℕ). bit_xor (d % 256) (entry t / 256)) (sym chosen) in
    (xor_cancel_right (c % 256) (d % 256) (entry v / 256) highs, chosen)

crc_step-low :
    (c b : ℕ) → c < 65536 → b < 256 → crc_step c b % 256 ≡ entry (bit_xor (c / 256) b) % 256
crc_step-low c b hc hb =
    omega
      (arith, crc_step-entry c b hc hb, step_digits (c % 256) (bit_xor (c / 256) b) (omega arith))

-- From one register, the low byte of the result determines the input.
pub crc_step_low_injective :
    (c a b : ℕ) → c < 65536 → a < 256 → b < 256 → crc_step c a % 256 ≡ crc_step c b % 256 → a ≡ b
crc_step_low_injective c a b hc ha hb e = xor_cancel_left (c / 256) a b (
    entry_injective _ _ (xor-lt 8 _ a (omega arith) ha) (xor-lt 8 _ b (omega arith) hb)
      (sym (crc_step-low c a hc ha) ∙ e ∙ crc_step-low c b hc hb))
