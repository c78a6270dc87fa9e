-- ===== src/Session/Queues.antt =====
-- The bounded queues: each holds the newest elements that arrived, oldest first.
use ldcp_sdk.Prelude.{
  ℕ, ◌+◌, ◌-◌, ◌≤◌, ◌<◌, ◌≡◌, refl, sym, ◌∙◌, false, List, [], ◌∷◌, ◌++◌, append-nil, Bool, arith,
  ◌==◌, length, length-append, drop, drop-append_le, drop-drop, length-drop, Bool-cases, inl, inr,
  ==_iff,
}
use ldcp_sdk.Session.{push_bounded, remove_if}

module _ {A : Type 0} where
  -- The last n elements.
  abbrev pub newest : ℕ → List A → List A
  newest n xs = drop (length xs - n) xs

  pub length-newest : (n : ℕ) (xs : List A) → length (newest n xs) ≤ n
  length-newest n xs = omega (arith, length-drop (length xs - n) xs)

  pub newest_all : (n : ℕ) (xs : List A) → length xs ≤ n → newest n (xs ++ []) ≡ xs
  newest_all n xs h = let e : length xs - n ≡ 0 = omega arith in rw (append-nil, e)

  pub push_bounded-newest :
      (n : ℕ) (xs : List A) (a : A)
      → 0 < n
      → length xs ≤ n
      → push_bounded n xs a ≡ newest n (xs ++ (a ∷ []))
  unfolding push_bounded
  push_bounded-newest n xs a h k = elim (Bool-cases (length xs == n)) [
    | inl full ↦
        let e : length (xs ++ (a ∷ [])) - n ≡ 1 =
          omega (arith, length-append xs (a ∷ []), (==_iff (length xs) n).0 full) in
        rw (full, e)
          (sym (drop-append_le 1 xs (a ∷ []) (omega (arith, (==_iff (length xs) n).0 full))))
    | inr room ↦
        let e : length (xs ++ (a ∷ [])) - n ≡ 0 =
          omega (arith, length-append xs (a ∷ []), less room) in
        rw (room, e)
  ]
    where
      less : (length xs == n) ≡ false → length xs < n
      less e = ground arith

  pub newest-newest_append :
      (n : ℕ) (xs ys : List A) → newest n (newest n xs ++ ys) ≡ newest n (xs ++ ys)
  newest-newest_append n xs ys =
      let d : ℕ = length xs - n in
      let front : drop d xs ++ ys ≡ drop d (xs ++ ys) =
        sym (drop-append_le d xs ys (omega arith)) in
      let total : d + (length (drop d (xs ++ ys)) - n) ≡ length (xs ++ ys) - n =
        omega (arith, length-drop d (xs ++ ys), length-append xs ys) in
      rw front (drop-drop d _ (xs ++ ys) ∙ rw total)

  -- A queue of at most one element is left alone by remove_if, whatever its predicate says.
  pub remove_if_single :
      (moved : A → A) (p : A → Bool) (xs : List A) → length xs ≤ 1 → remove_if moved p xs ≡ xs
  unfolding remove_if
  remove_if_single moved p [] h = refl
  remove_if_single moved p (x ∷ []) h = ground arith
  remove_if_single moved p (x ∷ y ∷ xs) h = absurd (omega arith)
