-- ===== src/Prelude/Xor.antt =====
-- The algebra of exclusive or, and of bit operations on shifted operands, at every width.
use Prim.Native.Nat.{
  ℕ, zero, suc, ◌+◌, ◌*◌, ◌-◌, ◌/◌, ◌%◌, ◌^◌, ◌≤◌, ◌<◌, min, bit_or, bit_and, bit_xor,
}
use mathlib.Core.Path.{◌≡◌, refl, sym, ap, ◌∙◌}
use native.Mathlib.Omega.{arith}
use native.Mathlib.Nat.{le_refl, pow-suc}
use ldcp_sdk.Prelude.Bits.{bit_or_step, bit_and_step, bit_xor_step}

xor_comm_upto : (n a b : ℕ) → a ≤ n → b ≤ n → bit_xor a b ≡ bit_xor b a
xor_comm_upto zero zero zero p q = refl
xor_comm_upto zero (suc a) b p q = absurd (omega arith)
xor_comm_upto zero zero (suc b) p q = absurd (omega arith)
xor_comm_upto (suc n) a b p q = omega (
  arith,
  bit_xor_step a b,
  bit_xor_step b a,
  xor_comm_upto n (a / 2) (b / 2) (omega arith) (omega arith),
)

pub xor_comm : (a b : ℕ) → bit_xor a b ≡ bit_xor b a
xor_comm a b = xor_comm_upto (a + b) a b (omega arith) (omega arith)

xor_assoc_upto :
    (n a b c : ℕ) → a ≤ n → b ≤ n → c ≤ n → bit_xor (bit_xor a b) c ≡ bit_xor a (bit_xor b c)
xor_assoc_upto zero zero zero zero p q r = refl
xor_assoc_upto zero (suc a) b c p q r = absurd (omega arith)
xor_assoc_upto zero zero (suc b) c p q r = absurd (omega arith)
xor_assoc_upto zero zero zero (suc c) p q r = absurd (omega arith)
xor_assoc_upto (suc n) a b c p q r =
    let ab : bit_xor a b / 2 ≡ bit_xor (a / 2) (b / 2) = omega (arith, bit_xor_step a b) in
    let bc : bit_xor b c / 2 ≡ bit_xor (b / 2) (c / 2) = omega (arith, bit_xor_step b c) in
    let left : bit_xor (bit_xor a b) c
        ≡ bit_xor (bit_xor (a / 2) (b / 2)) (c / 2) * 2 + (bit_xor a b % 2 + c % 2) % 2 =
      rw (← ab) (bit_xor_step (bit_xor a b) c) in
    let right : bit_xor a (bit_xor b c)
        ≡ bit_xor (a / 2) (bit_xor (b / 2) (c / 2)) * 2 + (a % 2 + bit_xor b c % 2) % 2 =
      rw (← bc) (bit_xor_step a (bit_xor b c)) in
    omega (
      arith,
      bit_xor_step a b,
      bit_xor_step b c,
      xor_assoc_upto n (a / 2) (b / 2) (c / 2) (omega arith) (omega arith) (omega arith),
    )

pub xor_assoc : (a b c : ℕ) → bit_xor (bit_xor a b) c ≡ bit_xor a (bit_xor b c)
xor_assoc a b c = xor_assoc_upto (a + b + c) a b c (omega arith) (omega arith) (omega arith)

xor_self_upto : (n a : ℕ) → a ≤ n → bit_xor a a ≡ 0
xor_self_upto zero zero p = refl
xor_self_upto zero (suc a) p = absurd (omega arith)
xor_self_upto (suc n) a p = omega (arith, bit_xor_step a a, xor_self_upto n (a / 2) (omega arith))

pub xor_self : (a : ℕ) → bit_xor a a ≡ 0
xor_self a = xor_self_upto a a (le_refl a)

zero-xor_upto : (n b : ℕ) → b ≤ n → bit_xor 0 b ≡ b
zero-xor_upto zero zero p = refl
zero-xor_upto zero (suc b) p = absurd (omega arith)
zero-xor_upto (suc n) b p = omega (arith, bit_xor_step 0 b, zero-xor_upto n (b / 2) (omega arith))

pub zero-xor : (b : ℕ) → bit_xor 0 b ≡ b
zero-xor b = zero-xor_upto b b (le_refl b)

pub xor-zero : (a : ℕ) → bit_xor a 0 ≡ a
xor-zero a = xor_comm a 0 ∙ zero-xor a

-- What was mixed in by exclusive or comes out by mixing it in again.
pub xor_twice : (a b : ℕ) → bit_xor a (bit_xor a b) ≡ b
xor_twice a b = sym (xor_assoc a a b) ∙ ap (λ (t : ℕ). bit_xor t b) (xor_self a) ∙ zero-xor b

pub xor_cancel_left : (a b c : ℕ) → bit_xor a b ≡ bit_xor a c → b ≡ c
xor_cancel_left a b c e = sym (xor_twice a b) ∙ ap (λ (t : ℕ). bit_xor a t) e ∙ xor_twice a c

pub xor_cancel_right : (a b c : ℕ) → bit_xor a c ≡ bit_xor b c → a ≡ b
xor_cancel_right a b c e = xor_cancel_left c a b (xor_comm c a ∙ e ∙ xor_comm b c)

shifted_half : (k a b : ℕ) → (a * 2 ^ suc k + b) / 2 ≡ a * 2 ^ k + b / 2
shifted_half k a b = omega (arith, ap (λ (t : ℕ). a * t) (pow-suc 2 k))

shifted_digit : (k a b : ℕ) → (a * 2 ^ suc k + b) % 2 ≡ b % 2
shifted_digit k a b = omega (arith, ap (λ (t : ℕ). a * t) (pow-suc 2 k))

-- A number of k bits laid beside one that is shifted past them.
pub xor_shifted :
    (k a b c d : ℕ)
    → b < 2 ^ k
    → d < 2 ^ k
    → bit_xor (a * 2 ^ k + b) (c * 2 ^ k + d) ≡ bit_xor a c * 2 ^ k + bit_xor b d
xor_shifted zero a b c d hb hd =
    let ea : a * 2 ^ 0 + b ≡ a = omega arith in
    let ec : c * 2 ^ 0 + d ≡ c = omega arith in
    let eb : b ≡ 0 = omega arith in
    let ed : d ≡ 0 = omega arith in rw (ea, ec, eb, ed) (omega (arith, zero-xor 0))
xor_shifted (suc k) a b c d hb hd =
    let ih =
      xor_shifted k a (b / 2) c (d / 2) (omega (arith, pow-suc 2 k)) (omega (arith, pow-suc 2 k)) in
    let step : bit_xor (a * 2 ^ suc k + b) (c * 2 ^ suc k + d)
        ≡ bit_xor (a * 2 ^ k + b / 2) (c * 2 ^ k + d / 2) * 2 + (b % 2 + d % 2) % 2 =
      bit_xor_step (a * 2 ^ suc k + b) (c * 2 ^ suc k + d)
      ∙ rw (shifted_half k a b, shifted_half k c d, shifted_digit k a b, shifted_digit k c d) in
    omega (arith, step, ih, bit_xor_step b d, ap (λ (t : ℕ). bit_xor a c * t) (pow-suc 2 k))

or-zero_upto : (n a : ℕ) → a ≤ n → bit_or a 0 ≡ a
or-zero_upto zero zero p = refl
or-zero_upto zero (suc a) p = absurd (omega arith)
or-zero_upto (suc n) a p = omega (arith, bit_or_step a 0, or-zero_upto n (a / 2) (omega arith))

pub or_shifted : (k v d : ℕ) → d < 2 ^ k → bit_or (v * 2 ^ k) d ≡ v * 2 ^ k + d
or_shifted zero v d h =
    let ev : v * 2 ^ 0 ≡ v = omega arith in
    let ed : d ≡ 0 = omega arith in rw (ev, ed) (omega (arith, or-zero_upto v v (le_refl v)))
or_shifted (suc k) v d h =
    let ih = or_shifted k v (d / 2) (omega (arith, pow-suc 2 k)) in
    let half : v * 2 ^ suc k / 2 ≡ v * 2 ^ k = omega (arith, shifted_half k v 0) in
    let digit : v * 2 ^ suc k % 2 ≡ 0 = omega (arith, shifted_digit k v 0) in
    let step : bit_or (v * 2 ^ suc k) d ≡ bit_or (v * 2 ^ k) (d / 2) * 2 + d % 2 =
      bit_or_step (v * 2 ^ suc k) d ∙ rw (half, digit) (omega arith) in
    omega (arith, step, ih, ap (λ (t : ℕ). v * t) (pow-suc 2 k))

-- Exclusive or of two numbers below 2 ^ k stays below 2 ^ k.
pub xor-lt : (k a b : ℕ) → a < 2 ^ k → b < 2 ^ k → bit_xor a b < 2 ^ k
xor-lt zero a b ha hb =
    let ea : a ≡ 0 = omega arith in
    let eb : b ≡ 0 = omega arith in rw (ea, eb) (omega (arith, zero-xor 0))
xor-lt (suc k) a b ha hb = omega (
  arith,
  bit_xor_step a b,
  pow-suc 2 k,
  xor-lt k (a / 2) (b / 2) (omega (arith, pow-suc 2 k)) (omega (arith, pow-suc 2 k)),
)

two_pow_pos : (k : ℕ) → 0 < 2 ^ k
two_pow_pos zero = omega arith
two_pow_pos (suc k) = omega (arith, pow-suc 2 k, two_pow_pos k)

and-zero_upto : (n a : ℕ) → a ≤ n → bit_and a 0 ≡ 0
and-zero_upto zero zero p = refl
and-zero_upto zero (suc a) p = absurd (omega arith)
and-zero_upto (suc n) a p = omega (arith, bit_and_step a 0, and-zero_upto n (a / 2) (omega arith))

-- A mask of k ones keeps the low k bits.
pub and_mask : (k a d : ℕ) → d < 2 ^ k → bit_and (a * 2 ^ k + d) (2 ^ k - 1) ≡ d
and_mask zero a d h = omega (arith, and-zero_upto (a * 2 ^ 0 + d) (a * 2 ^ 0 + d) (le_refl _))
and_mask (suc k) a d h =
    let half : (2 ^ suc k - 1) / 2 ≡ 2 ^ k - 1 = omega (arith, pow-suc 2 k, two_pow_pos k) in
    let digit : (2 ^ suc k - 1) % 2 ≡ 1 = omega (arith, pow-suc 2 k, two_pow_pos k) in
    let step : bit_and (a * 2 ^ suc k + d) (2 ^ suc k - 1)
        ≡ bit_and (a * 2 ^ k + d / 2) (2 ^ k - 1) * 2 + min (d % 2) 1 =
      bit_and_step (a * 2 ^ suc k + d) (2 ^ suc k - 1)
      ∙ rw (half, digit, shifted_half k a d, shifted_digit k a d) in
    omega (arith, step, and_mask k a (d / 2) (omega (arith, pow-suc 2 k)))

-- The masks that the sources use, of two, four, six and eight ones.
pub and_3 : (x : ℕ) → bit_and x 0x3 ≡ x % 4
and_3 x =
    let e : x / 4 * 2 ^ 2 + x % 4 ≡ x = omega arith in
    rw e at (and_mask 2 (x / 4) (x % 4) (omega arith))

pub and_15 : (x : ℕ) → bit_and x 0xF ≡ x % 16
and_15 x =
    let e : x / 16 * 2 ^ 4 + x % 16 ≡ x = omega arith in
    rw e at (and_mask 4 (x / 16) (x % 16) (omega arith))

pub and_63 : (x : ℕ) → bit_and x 0x3F ≡ x % 64
and_63 x =
    let e : x / 64 * 2 ^ 6 + x % 64 ≡ x = omega arith in
    rw e at (and_mask 6 (x / 64) (x % 64) (omega arith))

pub and_255 : (x : ℕ) → bit_and x 0xFF ≡ x % 256
and_255 x =
    let e : x / 256 * 2 ^ 8 + x % 256 ≡ x = omega arith in
    rw e at (and_mask 8 (x / 256) (x % 256) (omega arith))
