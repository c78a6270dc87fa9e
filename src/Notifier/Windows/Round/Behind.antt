-- ===== src/Notifier/Windows/Round/Behind.antt =====
-- The elements of the list behind the iterator, which no callback changes (src/device_notifier.cpp).
use mathlib.Core.Option.{some-injective}
use ldcp_sdk.Prelude.{
  ℕ, ◌≡◌, refl, ap, ◌∙◌, sym, subst, Bool, true, false, List, [], ◌∷◌, ◌++◌, Option, none, some,
  arith, ◌==◌, if_keeps, ==_refl, All, append_assoc, bind-eq-some, map-eq-some,
}
use ldcp_sdk.Framing.Stream.{split_at_char}
use ldcp_sdk.Notifier.Windows.{
  Sockets, Windows, push_request, remove, drop_request, service_browse_callback, kept_record,
  MdnsRecord, resolved, service_resolve_callback, take_record, announced,
  service_get_addr_info_callback,
}
use ldcp_sdk.Notifier.Windows.Requests.{Event, browses, resolves, gets_address, step, run}
use ldcp_sdk.Notifier.Windows.Round.{holds, begin, next, is_valid}

holds-append : (x : ℕ) (xs ys : List ℕ) → holds x xs ≡ false → holds x (xs ++ ys) ≡ holds x ys
unfolding holds
holds-append x [] ys h = refl
holds-append x (y ∷ xs) ys h = ground (arith, h, holds-append x xs ys)

next-append : (x : ℕ) (xs ys : List ℕ) → holds x xs ≡ false → next x (xs ++ (x ∷ ys)) ≡ begin ys
unfolding holds next
next-append x [] ys h = ground (arith, ==_refl x)
next-append x (y ∷ xs) ys h = ground (arith, h, next-append x xs ys)

holds-remove :
    (w : Sockets) (x r : ℕ) (xs : List ℕ) → holds x xs ≡ false → holds x (remove w r xs) ≡ false
unfolding holds remove
holds-remove w x r [] h = refl
holds-remove w x r (y ∷ xs) h =
    if_keeps (λ ys. holds x ys ≡ false) (y == r) (ground (arith, h, holds-remove w x r xs))
      (ground (arith, h, holds-remove w x r xs))

remove-append :
    (w : Sockets) (r : ℕ) (xs ys : List ℕ)
    → holds r ys ≡ false
    → remove w r (xs ++ ys) ≡ remove w r xs ++ ys
unfolding holds remove
remove-append w r [] [] h = refl
remove-append w r [] (y ∷ ys) h = ground (arith, h, remove-append w r [] ys)
remove-append w r (x ∷ xs) ys h = ground (arith, remove-append w r xs ys h)

-- `rs` are the last elements of the list, and stand there once.
pub record Behind (rs xs : List ℕ) : Type 0 where
  pub front : List ℕ
  pub split : xs ≡ front ++ rs
  pub apart : All (λ x. holds x front ≡ false) rs

All-holds : (xs : List ℕ) → All (λ x. holds x [] ≡ false) xs
unfolding holds
All-holds [] = tt
All-holds (x ∷ xs) = (refl, All-holds xs)

pub Behind-all : (xs : List ℕ) → Behind xs xs
Behind-all xs = record { front = []; split = refl; apart = All-holds xs }

Behind-push :
    (r : ℕ) (rs xs : List ℕ) → All (λ x. (r == x) ≡ false) rs → Behind rs xs → Behind rs (r ∷ xs)
unfolding holds
Behind-push r rs xs new b = record {
  front = r ∷ b.front;
  split = ap (λ ys. r ∷ ys) b.split;
  apart = holds-push rs new b.apart;
}
  where
    holds-push :
        (ys : List ℕ)
        → All (λ x. (r == x) ≡ false) ys
        → All (λ x. holds x b.front ≡ false) ys
        → All (λ x. holds x (r ∷ b.front) ≡ false) ys
    holds-push [] a c = tt
    holds-push (y ∷ ys) (n, a) (m, c) = (ground (arith, n, m), holds-push ys a c)

Behind-remove :
    (w : Sockets) (r : ℕ) (rs xs : List ℕ)
    → holds r rs ≡ false
    → Behind rs xs
    → Behind rs (remove w r xs)
Behind-remove w r rs xs other b = record {
  front = remove w r b.front;
  split = ap (remove w r) b.split ∙ remove-append w r b.front rs other;
  apart = removed rs b.apart;
}
  where
    removed :
        (ys : List ℕ)
        → All (λ x. holds x b.front ≡ false) ys
        → All (λ x. holds x (remove w r b.front) ≡ false) ys
    removed [] a = tt
    removed (y ∷ ys) (m, a) = (holds-remove w y r b.front m, removed ys a)

-- Each element stands in the list once.
abbrev pub IsDistinct : List ℕ → Type 0
IsDistinct [] = Unit
IsDistinct (x ∷ xs) = (holds x xs ≡ false) × IsDistinct xs

apart-snoc :
    (r : ℕ) (front ys : List ℕ)
    → holds r ys ≡ false
    → All (λ x. holds x front ≡ false) ys
    → All (λ x. holds x (front ++ (r ∷ [])) ≡ false) ys
unfolding holds
apart-snoc r front [] once a = tt
apart-snoc r front (y ∷ ys) once (m, a) = (
  holds-append y front (r ∷ []) m ∙ ground (arith, once),
  apart-snoc r front ys (ground (arith, once)) a,
)

pub Behind-next :
    (r : ℕ) (rs xs : List ℕ)
    → holds r rs ≡ false
    → Behind (r ∷ rs) xs
    → (next r xs ≡ begin rs) × Behind rs xs
Behind-next r rs xs once b = (
  ap (next r) b.split ∙ next-append r b.front rs b.apart.0,
  record {
    front = b.front ++ (r ∷ []);
    split = b.split ∙ sym (append_assoc b.front (r ∷ []) rs);
    apart = apart-snoc r b.front rs once b.apart.1;
  },
)

pub Behind-valid : (rs xs : List ℕ) → Behind rs xs → is_valid (begin rs) xs ≡ true
unfolding is_valid begin holds
Behind-valid [] xs b = refl
Behind-valid (r ∷ rs) xs b =
    ap (holds r) b.split ∙ holds-append r b.front (r ∷ rs) b.apart.0 ∙ ground (arith, ==_refl r)

-- What Bonjour calls for a request: callbacks with that request, which make new ones.
abbrev pub IsFor : List ℕ → ℕ → Event → Type 0
IsFor rs r (browses added name none) = Unit
IsFor rs r (browses added name (some q)) = All (λ x. (q == x) ≡ false) rs
IsFor rs r (resolves sd_ref more full host port txt none) = sd_ref ≡ r
IsFor rs r (resolves sd_ref more full host port txt (some q)) =
    (sd_ref ≡ r) × All (λ x. (q == x) ≡ false) rs
IsFor rs r (gets_address sd_ref more host address) = sd_ref ≡ r

module _ (w : Sockets) (txt_items : List ℕ → List (List ℕ × List ℕ)) (rs : List ℕ) where
  abbrev pub Keeps : Windows w → Type 0
  Keeps s = Behind rs s.pending_requests

  browse-Keeps :
      (s : Windows w) (r : ℕ) (added : Bool) (name : List ℕ) (o : Option ℕ)
      → IsFor rs r (browses added name o)
      → Keeps s
      → Keeps (service_browse_callback w s added name o).0
  unfolding service_browse_callback push_request
  browse-Keeps s r false name none new b = b
  browse-Keeps s r false name (some q) new b = b
  browse-Keeps s r true name none new b = b
  browse-Keeps s r true name (some q) new b = Behind-push q rs s.pending_requests new b

  drop_request-Keeps :
      (s : Windows w) (r : ℕ) (more : Bool)
      → holds r rs ≡ false
      → Keeps s
      → Keeps (drop_request w s r more)
  unfolding drop_request
  drop_request-Keeps s r true once b = b
  drop_request-Keeps s r false once b = Behind-remove w r rs s.pending_requests once b

  kept_record-Keeps :
      (s s' : Windows w) (host : List ℕ) (port : ℕ) (txt : List ℕ) (q : ℕ)
      (parts : Option (List ℕ × List ℕ))
      → kept_record w s host port txt q parts ≡ some s'
      → All (λ x. (q == x) ≡ false) rs
      → Keeps s
      → Keeps s'
  unfolding kept_record push_request
  kept_record-Keeps s s' host port txt q none e new b = cc
  kept_record-Keeps s s' host port txt q (some (id, domain)) e new b =
      subst Keeps (some-injective _ _ e) (Behind-push q rs s.pending_requests new b)

  resolved-Keeps :
      (s s' : Windows w) (r sd_ref : ℕ) (more : Bool) (full host : List ℕ) (port : ℕ) (txt : List ℕ)
      (o : Option ℕ)
      → IsFor rs r (resolves sd_ref more full host port txt o)
      → resolved w s full host port txt o ≡ some s'
      → Keeps s
      → Keeps s'
  unfolding resolved
  resolved-Keeps s s' r sd_ref more full host port txt none new e b =
      subst Keeps (some-injective _ _ e) b
  resolved-Keeps s s' r sd_ref more full host port txt (some q) (_, new) e b =
      kept_record-Keeps s s' host port txt q (split_at_char b'.' full) e new b

  resolves-own :
      (r sd_ref : ℕ) (more : Bool) (full host : List ℕ) (port : ℕ) (txt : List ℕ) (o : Option ℕ)
      → IsFor rs r (resolves sd_ref more full host port txt o)
      → sd_ref ≡ r
  resolves-own r sd_ref more full host port txt none own = own
  resolves-own r sd_ref more full host port txt (some q) (own, new) = own

  announced-Keeps :
      (s : Windows w) (address : ℕ) (o : Option (MdnsRecord × List MdnsRecord))
      → Keeps s
      → Keeps (announced w txt_items s address o).0
  unfolding announced
  announced-Keeps s address none b = b
  announced-Keeps s address (some (r, others)) b = b

  step-Keeps :
      (s s' : Windows w) (r : ℕ) (e : Event)
      → holds r rs ≡ false
      → IsFor rs r e
      → step w txt_items s e ≡ some s'
      → Keeps s
      → Keeps s'
  unfolding step service_resolve_callback service_get_addr_info_callback
  step-Keeps s s' r (browses added name o) once own e b =
      subst Keeps (some-injective _ _ e) (browse-Keeps s r added name o own b)
  step-Keeps s s' r (resolves sd_ref more full host port txt o) once own e b =
      let (s₁, found, same) = map-eq-some _ (resolved w s full host port txt o) e in
      subst Keeps same (
        drop_request-Keeps s₁ sd_ref more
          (ap (λ x. holds x rs) (resolves-own r sd_ref more full host port txt o own) ∙ once)
          (resolved-Keeps s s₁ r sd_ref more full host port txt o own found b))
  step-Keeps s s' r (gets_address sd_ref more host address) once own e b =
      subst Keeps (some-injective _ _ e) (
        drop_request-Keeps _ sd_ref more (ap (λ x. holds x rs) own ∙ once)
          (announced-Keeps s address (take_record w host s.mdns_records) b))

  pub run-Keeps :
      (es : List Event) (s s' : Windows w) (r : ℕ)
      → holds r rs ≡ false
      → All (IsFor rs r) es
      → run w txt_items s es ≡ some s'
      → Keeps s
      → Keeps s'
  unfolding run
  run-Keeps [] s s' r once own e b = subst Keeps (some-injective _ _ e) b
  run-Keeps (x ∷ es) s s' r once (one, own) e b =
      let (s₁, done, more) = bind-eq-some _ (step w txt_items s x) e in
      run-Keeps es s₁ s' r once own more (step-Keeps s s₁ r x once one done b)
