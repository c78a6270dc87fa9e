-- ===== src/Prelude/Bits.antt =====
-- One step of the native bit operations, on the lowest binary digit, and what follows for shifts.
use Prim.Native.Nat.{ℕ, zero, suc, ◌+◌, ◌-◌, ◌*◌, ◌/◌, ◌%◌, ◌≤◌, ◌<◌, max, min, bit_and, bit_or}
use Prim.Native.Nat.{bit_xor, bitwise, digits, differ, bit_or-bitwise, bit_and-bitwise}
use Prim.Native.Nat.{bit_xor-bitwise}
use mathlib.Core.Path.{◌≡◌, refl, ap, ◌∙◌}
use native.Mathlib.Omega.{arith}

abbrev later : ℕ → ℕ → ℕ
later zero n = n
later (suc d) n = suc (later d n)

later-add : (d n : ℕ) → later d n ≡ d + n
later-add zero n = omega arith
later-add (suc d) n = omega (arith, later-add d n)

module _ (z : ℕ → ℕ) (f : ℕ → ℕ → ℕ) where
  -- Once the count of digits covers the first number, one more makes no difference.
  one_more : (n a b : ℕ) → a ≤ n → digits z f (suc n) a b ≡ digits z f n a b
  one_more zero zero b h = refl
  one_more zero (suc a) b h = absurd (omega arith)
  one_more (suc n) zero b h = refl
  one_more (suc n) (suc a) b h = rw (one_more n (suc a / 2) (b / 2) (omega arith))

  many_more : (d n a b : ℕ) → a ≤ n → digits z f (later d n) a b ≡ digits z f n a b
  many_more zero n a b h = refl
  many_more (suc d) n a b h =
      one_more (later d n) a b (omega (arith, later-add d n)) ∙ many_more d n a b h

  -- The lowest digits are combined by themselves, if that is so where the first number has run out.
  bitwise-halves :
      ((y : ℕ) → z y ≡ z (y / 2) * 2 + f 0 (y % 2))
      → (a b : ℕ) → bitwise z f a b ≡ bitwise z f (a / 2) (b / 2) * 2 + f (a % 2) (b % 2)
  bitwise-halves ends zero b = ends b
  bitwise-halves ends (suc a) b =
      let half : ℕ = suc a / 2 in
      let count : later (a - half) half ≡ a = omega (arith, later-add (a - half) half) in
      omega (
        arith,
        ap (λ (n : ℕ). digits z f n half (b / 2)) count,
        many_more (a - half) half half (b / 2) (omega arith),
      )

differ_mod : (a b : ℕ) → a < 2 → b < 2 → differ a b ≡ (a + b) % 2
differ_mod zero zero h k = refl
differ_mod zero (suc zero) h k = refl
differ_mod zero (suc (suc b)) h k = absurd (omega arith)
differ_mod (suc zero) zero h k = refl
differ_mod (suc zero) (suc zero) h k = refl
differ_mod (suc zero) (suc (suc b)) h k = absurd (omega arith)
differ_mod (suc (suc a)) b h k = absurd (omega arith)

pub bit_or_step : (a b : ℕ) → bit_or a b ≡ bit_or (a / 2) (b / 2) * 2 + max (a % 2) (b % 2)
bit_or_step a b = simp bit_or-bitwise (bitwise-halves (λ y. y) max (λ y. omega arith) a b)

pub bit_and_step : (a b : ℕ) → bit_and a b ≡ bit_and (a / 2) (b / 2) * 2 + min (a % 2) (b % 2)
bit_and_step a b = simp bit_and-bitwise (bitwise-halves (λ y. 0) min (λ y. omega arith) a b)

pub bit_xor_step : (a b : ℕ) → bit_xor a b ≡ bit_xor (a / 2) (b / 2) * 2 + (a % 2 + b % 2) % 2
bit_xor_step a b =
    rw (← differ_mod (a % 2) (b % 2) (omega arith) (omega arith))
      (simp bit_xor-bitwise (bitwise-halves (λ y. y) differ (λ y. omega arith) a b))
