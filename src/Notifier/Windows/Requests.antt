-- ===== src/Notifier/Windows/Requests.antt =====
-- NetworkDeviceNotifierWindows (src/device_notifier.cpp): the set of sockets that its thread waits on.
use ldcp_sdk.Prelude.{
  ℕ, ◌≡◌, refl, ap, ◌∙◌, sym, subst, Bool, true, false, List, [], ◌∷◌, Option, none, some, arith,
  ◌==◌, ==_iff, Bool-cases, inl, inr, if◌then◌else◌, Option-cases,
}
use mathlib.Core.Option
use mathlib.Core.Option.{some-injective}
use ldcp_sdk.Framing.Stream.{split_at_char}
use ldcp_sdk.Notifier.Windows.{
  Sockets, Windows, push_request, remove, drop_request, init_windows, service_browse_callback,
  kept_record, MdnsRecord, resolved, service_resolve_callback, take_record, announced,
  service_get_addr_info_callback,
}

module _ (w : Sockets) where
  -- A request of the list has the socket.
  unfoldable pub waits_for : ℕ → List ℕ → Bool
  waits_for x [] = false
  waits_for x (r ∷ rs) = let rest = waits_for x rs in if w.socket r == x then true else rest

  -- Every socket of the set is that of a pending request.
  abbrev pub IsCovered : Windows w → Type 0
  IsCovered s = (x : ℕ) → waits_for x s.pending_requests ≡ false → w.fd_isset x s.read_set ≡ false

  push_request-IsCovered : (s : Windows w) (r : ℕ) → IsCovered s → IsCovered (push_request w s r)
  unfolding push_request waits_for
  push_request-IsCovered s r h x e = ground (arith, w.isset-set x (w.socket r) s.read_set, h x)

  remove-waits_for :
      (x r : ℕ) (rs : List ℕ)
      → (w.socket r == x) ≡ false
      → waits_for x (remove w r rs) ≡ waits_for x rs
  unfolding remove waits_for
  remove-waits_for x r [] h = refl
  remove-waits_for x r (y ∷ ys) h = elim (Bool-cases (y == r)) [
    | inl same ↦
        let e : w.socket y ≡ w.socket r = ap w.socket ((==_iff y r).0 same) in
        ground (arith, same, e, h, remove-waits_for x r ys h)
    | inr other ↦ ground (arith, other, h, remove-waits_for x r ys h)
  ]

  drop_request-IsCovered :
      (s : Windows w) (r : ℕ) (more_coming : Bool)
      → IsCovered s
      → IsCovered (drop_request w s r more_coming)
  unfolding drop_request
  drop_request-IsCovered s r true h x e = h x e
  drop_request-IsCovered s r false h x e = elim (Bool-cases (w.socket r == x)) [
    | inl same ↦ ground (arith, same, w.isset-clr x (w.socket r) s.read_set)
    | inr other ↦ ground (
      arith,
      other,
      w.isset-clr x (w.socket r) s.read_set,
      h x,
      remove-waits_for x r s.pending_requests other,
    )
  ]

  kept_record-IsCovered :
      (s s' : Windows w) (host_name : List ℕ) (port : ℕ) (txt : List ℕ) (r : ℕ)
      (parts : Option (List ℕ × List ℕ))
      → kept_record w s host_name port txt r parts ≡ some s'
      → IsCovered s
      → IsCovered s'
  unfolding kept_record
  kept_record-IsCovered s s' host_name port txt r none e h = cc
  kept_record-IsCovered s s' host_name port txt r (some (id, domain)) e h =
      subst IsCovered (some-injective _ _ e) (push_request-IsCovered _ r h)

  resolved-IsCovered :
      (s s' : Windows w) (full_name host_name : List ℕ) (port : ℕ) (txt : List ℕ) (o : Option ℕ)
      → resolved w s full_name host_name port txt o ≡ some s'
      → IsCovered s
      → IsCovered s'
  unfolding resolved
  resolved-IsCovered s s' full_name host_name port txt none e h =
      subst IsCovered (some-injective _ _ e) h
  resolved-IsCovered s s' full_name host_name port txt (some r) e h =
      kept_record-IsCovered s s' host_name port txt r (split_at_char b'.' full_name) e h

  announced-IsCovered :
      (txt_items : List ℕ → List (List ℕ × List ℕ)) (s : Windows w) (address : ℕ)
      (o : Option (MdnsRecord × List MdnsRecord))
      → IsCovered s
      → IsCovered (announced w txt_items s address o).0
  unfolding announced
  announced-IsCovered txt_items s address none h = h
  announced-IsCovered txt_items s address (some (r, others)) h = h

  browse-IsCovered :
      (s : Windows w) (added : Bool) (service_name : List ℕ) (resolve : Option ℕ)
      → IsCovered s
      → IsCovered (service_browse_callback w s added service_name resolve).0
  unfolding service_browse_callback
  browse-IsCovered s false service_name resolve h = h
  browse-IsCovered s true service_name none h = h
  browse-IsCovered s true service_name (some r) h = push_request-IsCovered s r h

-- What Bonjour makes of the notifier: a call of one of the callbacks.
pub data Event : Type 0 where
  browses : Bool → List ℕ → Option ℕ → Event
  resolves : ℕ → Bool → List ℕ → List ℕ → ℕ → List ℕ → Option ℕ → Event
  gets_address : ℕ → Bool → List ℕ → ℕ → Event

module _ (w : Sockets) (txt_items : List ℕ → List (List ℕ × List ℕ)) where
  -- `none`: the callback has a null pointer subtracted.
  unfoldable pub step : Windows w → Event → Option (Windows w)
  step s (browses added name resolve) = some ((service_browse_callback w s added name resolve).0)
  step s (resolves sd_ref more full host port txt request) =
      service_resolve_callback w s sd_ref more full host port txt request
  step s (gets_address sd_ref more host address) =
      some ((service_get_addr_info_callback w txt_items s sd_ref more host address).0)

  unfoldable pub run : Windows w → List Event → Option (Windows w)
  run s [] = some s
  run s (e ∷ es) = Option.bind (step s e) (λ s'. run s' es)

  step-IsCovered :
      (s s' : Windows w) (e : Event) → step s e ≡ some s' → IsCovered w s → IsCovered w s'
  unfolding step service_resolve_callback service_get_addr_info_callback
  step-IsCovered s s' (browses added name resolve) e h =
      subst (IsCovered w) (some-injective _ _ e) (browse-IsCovered w s added name resolve h)
  step-IsCovered s s' (gets_address sd_ref more host address) e h =
      subst (IsCovered w) (some-injective _ _ e) (
        drop_request-IsCovered w _ sd_ref more
          (announced-IsCovered w txt_items s address (take_record w host s.mdns_records) h))
  step-IsCovered s s' (resolves sd_ref more full host port txt request) e h =
      elim (Option-cases (resolved w s full host port txt request)) [
        | inl missing ↦ cc (missing, e)
        | inr (s₁, found) ↦
            subst (IsCovered w)
              (some-injective _ _
                (ap (Option.map (λ s₀. drop_request w s₀ sd_ref more)) (sym found) ∙ e))
              (drop_request-IsCovered w s₁ sd_ref more
                (resolved-IsCovered w s s₁ full host port txt request found h))
      ]

  run-IsCovered :
      (s s' : Windows w) (es : List Event) → run s es ≡ some s' → IsCovered w s → IsCovered w s'
  unfolding run Option.bind
  run-IsCovered s s' [] e h = subst (IsCovered w) (some-injective _ _ e) h
  run-IsCovered s s' (x ∷ es) e h = elim (Option-cases (step s x)) [
    | inl missing ↦ cc (missing, e)
    | inr (s₁, found) ↦
        run-IsCovered s₁ s' es (ap (λ o. Option.bind o (λ s₀. run s₀ es)) (sym found) ∙ e)
          (step-IsCovered s s₁ x found h)
  ]

  init_windows-IsCovered : (s : Windows w) (r : ℕ) → IsCovered w (init_windows w s (some r)).0
  unfolding init_windows waits_for
  init_windows-IsCovered s r x e =
      ground (arith, w.isset-set x (w.socket r) w.fd_zero, w.isset-zero x)

  -- From a successful init on, whatever callbacks follow, every socket in the set that the thread
  -- waits on is that of a pending request.
  pub run-requests :
      (s s' : Windows w) (r : ℕ) (es : List Event)
      → run (init_windows w s (some r)).0 es ≡ some s'
      → IsCovered w s'
  run-requests s s' r es e =
      run-IsCovered (init_windows w s (some r)).0 s' es e (init_windows-IsCovered s r)
