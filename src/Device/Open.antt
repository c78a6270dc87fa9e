-- ===== src/Device/Open.antt =====
-- Device::open (src/device.cpp): the session is opened, and the OOB transport behind it if the
-- device has it enabled.
use mathlib.Core.Option
use mathlib.Core.Option.{some-injective}
use ldcp_sdk.Prelude.{
  ◌⊎◌, inl, inr, ℕ, ◌≡◌, refl, Bool, true, false, ◌&&◌, List, Option, none, some, if◌then◌else◌,
  if_cases,
}
use ldcp_sdk.Error.{ErrorCode, no_error, unknown, is_no_error}
use ldcp_sdk.Location.{NetworkLocation}
use ldcp_sdk.Json.{Json}
use ldcp_sdk.Transport.{Transport}
use ldcp_sdk.Session.{Switched, State, Event, owned, open_session, close, enable_oob_transport}
use ldcp_sdk.Device.{Returned, Output, assigned, is_oob_enabled, get_oob_target_port, get_setting}
use ldcp_sdk.Device.Sent.{ask-open}
use ldcp_sdk.Session.Transports.{open_session-destroyed}
use ldcp_sdk.Prelude.{ap, ◌∙◌, ◌||◌, [], ◌∷◌, ◌++◌, arith}
use ldcp_sdk.Prelude.Int.{ℤ}

module _ (j : Json) (t : Transport j.Value) where
  open j use {Value}

  abbrev pub Opened : Type 0
  Opened = State j t × ErrorCode

  -- The variable behind a call with a reference to it: what it was before, if nothing is assigned.
  abbrev pub value_of : {A : Type 0} → A → Output A → A
  value_of a (assigned b) = b
  value_of a _ = a

  -- close(), and the result
  unfoldable pub closed : State j t → ErrorCode → Opened
  closed s result = ((close j t s).state, result)

  -- The part that binds the OOB socket: htonl(INADDR_ANY) is 0.
  unfoldable pub open_oob : State j t → ℕ → Option Opened
  open_oob s target_port =
      Option.map (λ r. if is_no_error r.1 then (r.0, r.1) else closed r.0 r.1)
        (enable_oob_transport j t s (record { address = 0; port = target_port }))

  -- The part behind getOobTargetPort.
  unfoldable pub after_port : Returned (State j t) (Event Value) ℕ → Option Opened
  after_port p =
      if is_no_error p.result
      then open_oob p.state (value_of 0 p.output)
      else some (closed p.state unknown)

  -- The part behind isOobEnabled.
  unfoldable pub after_enabled : Returned (State j t) (Event Value) Bool → Option Opened
  after_enabled r =
      if is_no_error r.result && value_of false r.output
      then Option.bind (get_oob_target_port j t r.state r.later) after_port
      else some (r.state, no_error)

  -- Some transport that is destroyed has a joinable thread.
  unfoldable pub any_thread : List t.State → Bool
  any_thread [] = false
  any_thread (x ∷ xs) = t.has_thread x || any_thread xs

  -- `none`: a call goes through a null transport, or the program is terminated, which it is where a
  -- transport is destroyed whose thread is joinable.
  unfoldable pub open_device :
      State j t → NetworkLocation → List (List (Event Value)) → Option Opened
  open_device s location batches =
      let opened = open_session j t s location in
      if any_thread opened.destroyed
      then none
      else if is_no_error opened.result
      then Option.bind (is_oob_enabled j t opened.state batches) after_enabled
      else some (opened.state, opened.result)

  -- A success leaves an open session behind, a failure one with no transport.
  abbrev pub Settled : Opened → Type 0
  Settled (s, c) =
      ((is_no_error c ≡ true) × (x : t.State) × (s.transport ≡ some x))
      ⊎ ((is_no_error c ≡ false) × (s.transport ≡ none))

  abbrev Ends : Option Opened → Type 0
  Ends o = (r : Opened) × (o ≡ some r) × Settled r

  closed-Ends : (s : State j t) (c : ErrorCode) → is_no_error c ≡ false → Ends (some (closed s c))
  unfolding closed close
  closed-Ends s c h = (_, refl, inr (h, refl))

  open_oob-Ends :
      (s : State j t) (port : ℕ) (x : t.State) → s.transport ≡ some x → Ends (open_oob s port)
  unfolding open_oob enable_oob_transport
  open_oob-Ends s port x o =
      let r = t.enable_oob x (record { address = 0; port = port }) in
      let s' : State j t = record s { transport = some r.0 } in
      rw o (
        if_cases (λ (q : Opened). Ends (some q)) (is_no_error r.1)
          (λ ok. ((s', r.1), refl, inl (ok, r.0, refl))) (λ no. closed-Ends s' r.1 no))

  after_port-Ends :
      (p : Returned (State j t) (Event Value) ℕ) (x : t.State)
      → p.state.transport ≡ some x
      → Ends (after_port p)
  unfolding after_port
  after_port-Ends p x o =
      if_cases Ends (is_no_error p.result) (λ ok. open_oob-Ends p.state _ x o)
        (λ no. closed-Ends p.state unknown refl)

  -- Over an open session a getter returns, with the session still open.
  abbrev Stays : {A : Type 0} → Option (Returned (State j t) (Event Value) A) → Type 0
  Stays {A} o =
      (r : Returned (State j t) (Event Value) A) × (o ≡ some r)
      × (y : t.State) × (r.state.transport ≡ some y)

  is_oob_enabled-Stays :
      (s : State j t) (batches : List (List (Event Value))) (x : t.State)
      → s.transport ≡ some x
      → Stays (is_oob_enabled j t s batches)
  unfolding is_oob_enabled get_setting
  is_oob_enabled-Stays s batches x o = ask-open j t s _ _ batches x o

  get_oob_target_port-Stays :
      (s : State j t) (batches : List (List (Event Value))) (x : t.State)
      → s.transport ≡ some x
      → Stays (get_oob_target_port j t s batches)
  unfolding get_oob_target_port get_setting
  get_oob_target_port-Stays s batches x o = ask-open j t s _ _ batches x o

  after_enabled-Ends :
      (r : Returned (State j t) (Event Value) Bool) (x : t.State)
      → r.state.transport ≡ some x
      → Ends (after_enabled r)
  unfolding after_enabled mathlib.Core.Option.bind
  after_enabled-Ends r x o =
      if_cases Ends (is_no_error r.result && value_of false r.output)
        (λ ok.
          let (p, done, y, o') = get_oob_target_port-Stays r.state r.later x o in
          rw done (after_port-Ends p y o'))
        (λ no. ((r.state, no_error), refl, inl (refl, x, o)))

  open_session-Settled :
      (s : State j t) (location : NetworkLocation)
      → Settled ((open_session j t s location).state, (open_session j t s location).result)
  unfolding open_session
  open_session-Settled s location =
      let r = t.connect (t.create location) s.timeout in
      if_cases (λ (q : Switched (State j t) t.State). Settled (q.state, q.result)) (is_no_error r.1)
        (λ ok. inl (ok, r.0, refl)) (λ no. inr (no, refl))

  any_thread-append :
      (xs ys : List t.State) → any_thread (xs ++ ys) ≡ (any_thread xs || any_thread ys)
  unfolding any_thread
  any_thread-append [] ys = refl
  any_thread-append (x ∷ xs) ys = ground (arith, any_thread-append xs ys)

  -- The transport that does not connect has no thread.
  dropped-any_thread :
      (location : NetworkLocation) (timeout : ℤ)
      → any_thread (
          let r = t.connect (t.create location) timeout in if is_no_error r.1 then [] else r.0 ∷ [])
        ≡ false
  unfolding any_thread
  dropped-any_thread location timeout =
      let r = t.connect (t.create location) timeout in
      if_cases (λ (xs : List t.State). any_thread xs ≡ false) (is_no_error r.1) (λ ok. refl)
        (λ fails.
          rw
            (t.has_thread-connect (t.create location) timeout (t.has_thread-create location), fails)
            refl)

  destroyed-any_thread :
      (s : State j t) (location : NetworkLocation)
      → any_thread (open_session j t s location).destroyed ≡ any_thread (owned j t s.transport)
  destroyed-any_thread s location =
      ap any_thread (open_session-destroyed j t s location)
      ∙ any_thread-append (owned j t s.transport) _
      ∙ rw (dropped-any_thread location s.timeout) (ground arith)

  -- A device's open on a session with a transport whose thread is joinable does not return.
  pub open_device-terminates :
      (s : State j t) (location : NetworkLocation) (batches : List (List (Event Value)))
      (x : t.State)
      → s.transport ≡ some x
      → t.has_thread x ≡ true
      → open_device s location batches ≡ none
  unfolding open_device any_thread
  open_device-terminates s location batches x there on =
      rw (destroyed-any_thread s location, there, on) refl

  -- A device's open on a session with no transport returns, whatever is delivered meanwhile: with
  -- no_error and a transport in the session, or with an error and no transport in the session.
  pub open_device-Settled :
      (s : State j t) (location : NetworkLocation) (batches : List (List (Event Value)))
      → s.transport ≡ none
      → (r : Opened) × (open_device s location batches ≡ some r) × Settled r
  unfolding open_device any_thread mathlib.Core.Option.bind
  open_device-Settled s location batches closed_before =
      let alone : any_thread (open_session j t s location).destroyed ≡ false =
        destroyed-any_thread s location ∙ ap (λ o. any_thread (owned j t o)) closed_before in
      let opened = open_session j t s location in
      elim (open_session-Settled s location) [
        | inl (ok, x, o) ↦
            let (r, done, y, o') = is_oob_enabled-Stays opened.state batches x o in
            rw (alone, ok, done) (after_enabled-Ends r y o')
        | inr (bad, o) ↦ rw (alone, bad) ((opened.state, opened.result), refl, inr (bad, o))
      ]
