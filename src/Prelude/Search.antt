-- ===== src/Prelude/Search.antt =====
-- std::find_if and erase.
use mathlib.Core.Path.{◌≡◌, refl, ap}
use mathlib.Core.Logic.{◌⊎◌, inl, inr}
use mathlib.Core.Bool.{Bool, true, false}
use mathlib.Core.List.{List, [], ◌∷◌, ◌++◌}
use mathlib.Core.Option.{Option, none, some}
use ldcp_sdk.Prelude.Tests.{if◌then◌else◌, Bool-cases}
use ldcp_sdk.Prelude.Lists.{All}

module _ {ℓ} {A : Type ℓ} (p : A → Bool) where
  -- The first element that passes, and the others.
  unfoldable pub take_first : List A → Option (A × List A)
  take_first [] = none
  take_first (x ∷ xs) =
      let later = take_first xs in
      if p x
      then some (x, xs)
      else elim later [ none ↦ none | some (found, others) ↦ some (found, x ∷ others) ]

  -- Either none passes, or the list splits at the first one.
  pub take_first-found :
      (xs : List A)
      → ((take_first xs ≡ none) × All (λ x. p x ≡ false) xs)
        ⊎ ((before after : List A) × (e : A) × (take_first xs ≡ some (e, before ++ after))
            × (xs ≡ before ++ (e ∷ after))
            × (p e ≡ true)
            × All (λ x. p x ≡ false) before)
  unfolding take_first
  take_first-found [] = inl (refl, tt)
  take_first-found (x ∷ xs) = elim (Bool-cases (p x)) [
    | inl same ↦ inr ([], xs, x, rw same refl, refl, same, tt)
    | inr other ↦ elim (take_first-found xs) [
      | inl (missing, rest) ↦ inl (rw (other, missing) refl, (other, rest))
      | inr (before, after, e, found, split, same, rest) ↦ inr (
        x ∷ before,
        after,
        e,
        rw (other, found) refl,
        ap (λ (l : List A). x ∷ l) split,
        same,
        (other, rest),
      )
    ]
  ]
