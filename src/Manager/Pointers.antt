-- ===== src/Manager/Pointers.antt =====
-- The notifiers that a manager has pointers to (src/device_manager.cpp).
use ldcp_sdk.Prelude.{
  ℕ, ◌≡◌, refl, ap, ◌∙◌, subst, Bool, false, ◌||◌, List, [], ◌∷◌, ◌++◌, arith, ◌==◌, ==_iff,
  ==_refl, if◌then◌else◌, if_cases,
}
use ldcp_sdk.Manager.{changed, each}

unfoldable pub contains : ℕ → List ℕ → Bool
contains p [] = false
contains p (q ∷ qs) = q == p || contains p qs

-- No pointer is there twice.
abbrev pub Distinct : List ℕ → Type 0
Distinct [] = Unit
Distinct (p ∷ ps) = (contains p ps ≡ false) × Distinct ps

contains-snoc : (p q : ℕ) (ps : List ℕ) → contains q (ps ++ (p ∷ [])) ≡ (contains q ps || p == q)
unfolding contains
contains-snoc p q [] = ground arith
contains-snoc p q (r ∷ ps) = ground (arith, contains-snoc p q ps)

pub Distinct-snoc :
    (p : ℕ) (ps : List ℕ) → Distinct ps → contains p ps ≡ false → Distinct (ps ++ (p ∷ []))
unfolding contains
Distinct-snoc p [] d h = (refl, tt)
Distinct-snoc p (q ∷ ps) (c, d) h =
    (ground (arith, contains-snoc p q ps, c, h), Distinct-snoc p ps d (ground arith))

module _ {A : Type 0} (f : A → A) where
  pub changed-same : (p : ℕ) (o : ℕ → A) → changed p f o p ≡ f (o p)
  unfolding changed
  changed-same p o = rw (==_refl p) refl

  pub changed-other : (p q : ℕ) (o : ℕ → A) → (p == q) ≡ false → changed p f o q ≡ o q
  unfolding changed
  changed-other p q o h = rw h refl

  pub each-snoc :
      (ps : List ℕ) (p : ℕ) (o : ℕ → A) → each f (ps ++ (p ∷ [])) o ≡ changed p f (each f ps o)
  unfolding each
  each-snoc [] p o = refl
  each-snoc (q ∷ ps) p o = each-snoc ps p (changed q f o)

  -- Each object that a pointer of a list without duplicates points to is changed once.
  pub each-contains :
      (ps : List ℕ) (o : ℕ → A) (p : ℕ)
      → Distinct ps
      → each f ps o p ≡ (if contains p ps then f (o p) else o p)
  unfolding each contains changed
  each-contains [] o p d = refl
  each-contains (q ∷ ps) o p (c, d) =
      each-contains ps (changed q f o) p d
      ∙ if_cases
          (λ (x : A).
            (if contains p ps then f x else x) ≡ (if q == p || contains p ps then f (o p) else o p))
          (q == p)
          (λ same.
            let e : q ≡ p = (==_iff q p).0 same in
            rw (same, subst (λ r. contains r ps ≡ false) e c) refl)
          (λ other. rw other refl)

  -- What one object is changed to depends on it alone.
  pub each-agrees :
      (ps : List ℕ) (o o' : ℕ → A) (p : ℕ) → o p ≡ o' p → each f ps o p ≡ each f ps o' p
  unfolding each changed
  each-agrees [] o o' p e = e
  each-agrees (q ∷ ps) o o' p e =
      each-agrees ps (changed q f o) (changed q f o') p (ap (λ x. if q == p then f x else x) e)
