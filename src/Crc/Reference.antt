-- ===== src/Crc/Reference.antt =====
-- The checksum is CRC-16 with the polynomial 0x1021, the register starting at 0xFFFF, most
-- significant bit first: an independent description by single bits.
use ldcp_sdk.Prelude.{
  ℕ, zero, suc, ◌+◌, ◌*◌, ◌/◌, ◌%◌, ◌^◌, ◌≤◌, ◌<◌, bit_xor, ◌≡◌, refl, sym, ap, ◌∙◌, true, inl, inr,
  List, [], ◌∷◌, All, arith, leb, ◌==◌, ==_iff, all_below, all_below_sound, if◌then◌else◌,
  Bool-cases,
}
use native.Mathlib.Nat.{pow-suc}
use ldcp_sdk.Prelude.Xor.{xor_assoc, xor_comm, xor_shifted, zero-xor, xor-zero, xor-lt}
use ldcp_sdk.Crc.{crc_step, crc_loop, calculate_crc16}
use ldcp_sdk.Crc.Bits.{entry, crc_step-entry, crc_step-lt}

-- One bit: shift the register up; if a bit falls out, mix in the polynomial.
pub crc_bit : ℕ → ℕ
crc_bit c = if leb 0x8000 c then bit_xor (c * 2 % 65536) 0x1021 else c * 2 % 65536

pub crc_bits : ℕ → ℕ → ℕ
crc_bits zero c = c
crc_bits (suc n) c = crc_bits n (crc_bit c)

-- One byte: mix it into the high end of the register and shift eight times.
pub reference_step : ℕ → ℕ → ℕ
reference_step c byte = crc_bits 8 (bit_xor c (byte * 256))

pub reference_loop : ℕ → List ℕ → ℕ
reference_loop c [] = c
reference_loop c (byte ∷ rest) = reference_loop (reference_step c byte) rest

top_bit_kept : (x y : ℕ) → y < 32768 → bit_xor x y ≡ x / 32768 * 2 ^ 15 + bit_xor (x % 32768) y
top_bit_kept x y hy =
    let ex : x / 32768 * 2 ^ 15 + x % 32768 ≡ x = omega arith in
    let ey : 0 * 2 ^ 15 + y ≡ y = omega arith in
    rw (xor-zero, ex, ey) at (xor_shifted 15 (x / 32768) (x % 32768) 0 y (omega arith) hy)

xor_double : (a b : ℕ) → bit_xor (a * 2) (b * 2) ≡ bit_xor a b * 2
xor_double a b =
    let ea : a * 2 ^ 1 + 0 ≡ a * 2 = omega arith in
    let eb : b * 2 ^ 1 + 0 ≡ b * 2 = omega arith in
    omega (arith, rw (ea, eb) at (xor_shifted 1 a 0 b 0 (omega arith) (omega arith)), zero-xor 0)

shifted_up : (x y : ℕ) → y < 32768 → bit_xor x y * 2 % 65536 ≡ bit_xor (x * 2 % 65536) (y * 2)
shifted_up x y hy =
    let ex : x * 2 % 65536 ≡ x % 32768 * 2 = omega arith in
    omega (
      arith,
      ap (λ (t : ℕ). bit_xor t (y * 2)) ex,
      xor_double (x % 32768) y,
      top_bit_kept x y hy,
      xor-lt 15 (x % 32768) y (omega arith) hy,
    )

same_test : (x y : ℕ) → y < 32768 → leb 0x8000 (bit_xor x y) ≡ leb 0x8000 x
same_test x y hy = ground (arith, top_bit_kept x y hy, xor-lt 15 (x % 32768) y (omega arith) hy)

xor_swap : (a b c : ℕ) → bit_xor (bit_xor a b) c ≡ bit_xor (bit_xor a c) b
xor_swap a b c =
    xor_assoc a b c ∙ ap (λ (t : ℕ). bit_xor a t) (xor_comm b c) ∙ sym (xor_assoc a c b)

-- A low part that reaches no further than bit 14 is only shifted.
crc_bit-low : (x y : ℕ) → y < 32768 → crc_bit (bit_xor x y) ≡ bit_xor (crc_bit x) (y * 2)
unfolding crc_bit
crc_bit-low x y hy =
    rw (same_test x y hy, shifted_up x y hy)
      (elim (Bool-cases (leb 0x8000 x)) [
        | inl top ↦ rw top (xor_swap (x * 2 % 65536) (y * 2) 0x1021)
        | inr low ↦ rw low
      ])

crc_bits-low :
    (n x y : ℕ) → y * 2 ^ n < 65536 → crc_bits n (bit_xor x y) ≡ bit_xor (crc_bits n x) (y * 2 ^ n)
unfolding crc_bits
crc_bits-low zero x y hy = let e : y * 2 ^ 0 ≡ y = omega arith in rw e
crc_bits-low (suc n) x y hy =
    let double : y * 2 * 2 ^ n ≡ y * 2 ^ suc n =
      omega (arith, ap (λ (t : ℕ). y * t) (pow-suc 2 n)) in
    let small : y < 32768 =
      omega (arith, double, ap (λ (t : ℕ). y * t) (pow-suc 2 n), grows y (2 ^ n) (pow-pos n)) in
    rw (crc_bit-low x y small)
      (crc_bits-low n (crc_bit x) (y * 2) (omega (arith, double)) ∙ rw double)
  where
    pow-pos : (k : ℕ) → 0 < 2 ^ k
    pow-pos zero = omega arith
    pow-pos (suc k) = omega (arith, pow-suc 2 k, pow-pos k)

    grows : (a p : ℕ) → 0 < p → a ≤ a * p
    grows a (suc p) h = omega arith
    grows a zero h = absurd (omega arith)

entry_bits : all_below 256 (λ v. crc_bits 8 (v * 256) == entry v) ≡ true
unfolding all_below entry crc_bits crc_bit
entry_bits = refl

crc_bits-entry : (v : ℕ) → v < 256 → crc_bits 8 (v * 256) ≡ entry v
crc_bits-entry v h = (==_iff _ _).0 (all_below_sound 256 _ v entry_bits h)

apart : (c b : ℕ) → c < 65536 → bit_xor c (b * 256) ≡ bit_xor (bit_xor (c / 256) b * 256) (c % 256)
apart c b hc =
    let v : ℕ = bit_xor (c / 256) b in
    let ec : c / 256 * 2 ^ 8 + c % 256 ≡ c = omega arith in
    let eb : b * 2 ^ 8 + 0 ≡ b * 256 = omega arith in
    let ev : v * 2 ^ 8 + 0 ≡ v * 256 = omega arith in
    let el : 0 * 2 ^ 8 + c % 256 ≡ c % 256 = omega arith in
    let left = rw (ec, eb) at (xor_shifted 8 (c / 256) (c % 256) b 0 (omega arith) (omega arith)) in
    let right = rw (ev, el) at (xor_shifted 8 v 0 0 (c % 256) (omega arith) (omega arith)) in
    omega (arith, left, right, xor-zero (c % 256), xor-zero v, zero-xor (c % 256))

-- The byte-wise step of the source is eight single-bit steps.
pub crc_step-reference : (c b : ℕ) → c < 65536 → b < 256 → crc_step c b ≡ reference_step c b
unfolding reference_step
crc_step-reference c b hc hb =
    let v : ℕ = bit_xor (c / 256) b in
    crc_step-entry c b hc hb
    ∙ xor_comm (c % 256 * 256) (entry v)
    ∙ ap (λ (t : ℕ). bit_xor t (c % 256 * 256))
        (sym (crc_bits-entry v (xor-lt 8 _ b (omega arith) hb)))
    ∙ sym (crc_bits-low 8 (v * 256) (c % 256) (omega arith))
    ∙ ap (crc_bits 8) (sym (apart c b hc))

crc_loop-reference :
    (c : ℕ) (bytes : List ℕ)
    → c < 65536
    → All (λ b. b < 256) bytes
    → crc_loop c bytes ≡ reference_loop c bytes
unfolding crc_loop reference_loop
crc_loop-reference c [] hc h = refl
crc_loop-reference c (b ∷ bs) hc h =
    crc_loop-reference (crc_step c b) bs (crc_step-lt c b) h.1
    ∙ ap (λ (t : ℕ). reference_loop t bs) (crc_step-reference c b hc h.0)

-- On every sequence of bytes the source's checksum is the CRC-16 with polynomial 0x1021 and start
-- value 0xFFFF, computed bit by bit.
pub calculate_crc16-reference :
    (bytes : List ℕ)
    → All (λ b. b < 256) bytes
    → calculate_crc16 bytes ≡ reference_loop 0xFFFF bytes
unfolding calculate_crc16
calculate_crc16-reference bytes h = crc_loop-reference 0xFFFF bytes (omega arith) h
