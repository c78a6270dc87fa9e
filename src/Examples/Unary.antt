-- ===== src/Examples/Unary.antt =====
-- A text form of addresses, in unary.
use Prim.Native.Nat.{ℕ, zero, suc}
use Prim.Native.String.{String, [], ◌∷◌}
use mathlib.Core.Path.{◌≡◌, refl, ap}

pub to_unary : ℕ → String
to_unary zero = ""
to_unary (suc n) = "1" ∷ to_unary n

pub from_unary : String → ℕ
from_unary [] = 0
from_unary (c ∷ s) = suc (from_unary s)

pub from-to : (n : ℕ) → from_unary (to_unary n) ≡ n
unfolding from_unary to_unary
from-to zero = refl
from-to (suc n) = ap suc (from-to n)
