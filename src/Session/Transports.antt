-- ===== src/Session/Transports.antt =====
-- What holds of every transport that a session has (src/session.cpp).
use mathlib.Core.Option.{some-injective}
use ldcp_sdk.Prelude.{
  ◌++◌, append-nil, if◌then◌else◌, ◌≡◌, refl, subst, List, [], ◌∷◌, Option, none, some, arith,
  if_keeps, map-eq-some, bind-eq-some, All,
}
use ldcp_sdk.Prelude.Int.{ℤ, suc_ℤ}
use ldcp_sdk.Error.{ErrorCode, is_no_error}
use ldcp_sdk.Location.{NetworkLocation}
use ldcp_sdk.Json.{Json}
use ldcp_sdk.Transport.{Transport}
use ldcp_sdk.Session.{
  State, Event, Waited, Polled, Executed, deliver, send_request, execute_command,
  poll_for_scan_block, set_timeout, open_session, close, enable_oob_transport, take_block,
  scan_block_ready, wait_for, wait_for-keeps, finish_command, response_ready, take_response, owned,
}
use ldcp_sdk.Session.Receive.{deliver_keeps}
use ldcp_sdk.Session.History.{
  Call, sets_timeout, opens, closes, enables_oob, sends, executes, polls, receives, step, run,
}

module _ (j : Json) (t : Transport j.Value) where
  open j use {Value}

  take_response-transport :
      (q : List Value) (w : Waited (State j t) (Event Value))
      → (take_response j t q w).state.transport ≡ w.state.transport
  unfolding take_response
  take_response-transport [] w = refl
  take_response-transport (m ∷ q) w = ground arith

  pub finish_command-transport :
      (w : Waited (State j t) (Event Value))
      → (finish_command j t w).state.transport ≡ w.state.transport
  unfolding finish_command
  finish_command-transport w = ground (arith, take_response-transport w.state.response_queue w)

  pub response_ready-transport : (s : State j t) → (response_ready j t s).0.transport ≡ s.transport
  unfolding response_ready
  response_ready-transport s = refl

  open_session-transport :
      (s : State j t) (l : NetworkLocation)
      → (open_session j t s l).state.transport
        ≡ (let r = t.connect (t.create l) s.timeout in if is_no_error r.1 then some r.0 else none)
  unfolding open_session
  open_session-transport s l = ground arith

  pub open_session-destroyed :
      (s : State j t) (l : NetworkLocation)
      → (open_session j t s l).destroyed
        ≡ owned j t s.transport
          ++ (let r = t.connect (t.create l) s.timeout in if is_no_error r.1 then [] else r.0 ∷ [])
  unfolding open_session
  open_session-destroyed s l = ground (arith, append-nil (owned j t s.transport))

  -- `P` holds of the transport, if there is one.
  abbrev pub Holds : (t.State → Type 0) → Option t.State → Type 0
  Holds P none = Unit
  Holds P (some x) = P x

  -- The requests that a call is given have the property `G`.
  abbrev pub Asks : (Value → Type 0) → Call j t → Type 0
  Asks G (sets_timeout timeout) = Unit
  Asks G (opens location) = Unit
  Asks G closes = Unit
  Asks G (enables_oob location) = Unit
  Asks G (sends request) = G request
  Asks G (executes request batches) = G request
  Asks G (polls batches) = Unit
  Asks G (receives e) = Unit

  pub Asks-any : (c : Call j t) → Asks (λ request. Unit) c
  Asks-any (sets_timeout timeout) = tt
  Asks-any (opens location) = tt
  Asks-any closes = tt
  Asks-any (enables_oob location) = tt
  Asks-any (sends request) = tt
  Asks-any (executes request batches) = tt
  Asks-any (polls batches) = tt
  Asks-any (receives e) = tt

  -- What a property of the number of the last request and the transport must be kept by, where the
  -- requests have the property `G`.
  pub record IsKept (G : Value → Type 0) (P : ℤ → t.State → Type 0) : Type 0 where
    pub connects :
        (id : ℤ) (location : NetworkLocation) (timeout : ℤ)
        → P id (t.connect (t.create location) timeout).0
    pub transmits :
        (id : ℤ) (x : t.State) (request : Value)
        → G request
        → P id x
        → P (suc_ℤ id) (t.transmit_message x (j.add_member request "id" (j.number (suc_ℤ id))))
    pub enables :
        (id : ℤ) (x : t.State) (location : NetworkLocation)
        → P id x
        → P id (t.enable_oob x location).0

  take_response-id :
      (q : List Value) (w : Waited (State j t) (Event Value))
      → (take_response j t q w).state.id ≡ w.state.id
  unfolding take_response
  take_response-id [] w = refl
  take_response-id (m ∷ q) w = ground arith

  finish_command-id :
      (w : Waited (State j t) (Event Value)) → (finish_command j t w).state.id ≡ w.state.id
  unfolding finish_command
  finish_command-id w = ground (arith, take_response-id w.state.response_queue w)

  open_session-id : (s : State j t) (l : NetworkLocation) → (open_session j t s l).state.id ≡ s.id
  unfolding open_session
  open_session-id s l = ground arith

  module _ (G : Value → Type 0) (P : ℤ → t.State → Type 0) (k : IsKept G P) where
    abbrev pub Has : State j t → Type 0
    Has s = Holds (P s.id) s.transport

    same-Has : (s s' : State j t) → s'.id ≡ s.id → s'.transport ≡ s.transport → Has s → Has s'
    same-Has s s' i x h = rw (i, x) h

    deliver-Has : (s : State j t) (e : Event Value) → Has s → Has (deliver j t s e)
    deliver-Has s e h = let (i, x) = deliver_keeps j t s e in same-Has s (deliver j t s e) i x h

    open_session-Has : (s : State j t) (l : NetworkLocation) → Has (open_session j t s l).state
    open_session-Has s l =
        rw (open_session-id s l, open_session-transport s l)
          (if_keeps (Holds (P s.id)) (is_no_error (t.connect (t.create l) s.timeout).1)
            {x = some (t.connect (t.create l) s.timeout).0} {y = none} (k.connects s.id l s.timeout)
            tt)

    send_request-Has :
        (s s' : State j t) (request : Value)
        → G request
        → send_request j t s request ≡ some s'
        → Has s
        → Has s'
    unfolding send_request
    send_request-Has s s' request g e h =
        let (x, there, same) = map-eq-some _ s.transport e in
        subst Has same (k.transmits s.id x request g (subst (Holds (P s.id)) there h))

    enable_oob_transport-Has :
        (s : State j t) (l : NetworkLocation) (r : State j t × ErrorCode)
        → enable_oob_transport j t s l ≡ some r
        → Has s
        → Has r.0
    unfolding enable_oob_transport
    enable_oob_transport-Has s l r e h =
        let (x, there, same) = map-eq-some _ s.transport e in
        subst (λ (r' : State j t × ErrorCode). Has r'.0) same
          (k.enables s.id x l (subst (Holds (P s.id)) there h))

    take_block-Has :
        (primary : List Value) (oob : List _) (w : Waited (State j t) (Event Value))
        → Has w.state
        → Has (take_block j t primary oob w).state
    unfolding take_block
    take_block-Has (m ∷ rest) oob w h = h
    take_block-Has [] (packet ∷ rest) w h = h
    take_block-Has [] [] w h = h

    poll-Has :
        (s : State j t) (batches : List (List (Event Value)))
        → Has s
        → Has (poll_for_scan_block j t s batches).state
    unfolding poll_for_scan_block
    poll-Has s batches h =
        let w = wait_for (scan_block_ready j t) (deliver j t) batches s in
        let kept : Has w.state =
          wait_for-keeps Has (scan_block_ready j t) (deliver j t)
            (λ x p. unfold scan_block_ready in p) deliver-Has batches s h in
        if_keeps (λ (p : Polled (State j t) (Event Value) Value). Has p.state) w.ready
          (take_block-Has w.state.scan_block_queue_primary w.state.scan_block_queue_oob w kept) kept

    finish_command-Has :
        (w : Waited (State j t) (Event Value)) → Has w.state → Has (finish_command j t w).state
    finish_command-Has w h =
        same-Has w.state (finish_command j t w).state (finish_command-id w)
          (finish_command-transport w) h

    execute_command-Has :
        (s : State j t) (request : Value) (batches : List (List (Event Value)))
        (e : Executed (State j t) (Event Value) Value)
        → G request
        → execute_command j t s request batches ≡ some e
        → Has s
        → Has e.state
    unfolding execute_command
    execute_command-Has s request batches e g done h =
        let (s', sent, same) = map-eq-some _ (send_request j t s request) done in
        subst (λ (e' : Executed (State j t) (Event Value) Value). Has e'.state) same
          (finish_command-Has _ (
            wait_for-keeps Has (response_ready j t) (deliver j t)
              (λ x p. unfold response_ready in p) deliver-Has batches s'
              (send_request-Has s s' request g sent h)))

    pub step-Has :
        (s s' : State j t) (c : Call j t) → Asks G c → step j t s c ≡ some s' → Has s → Has s'
    unfolding step set_timeout close
    step-Has s s' (sets_timeout timeout) g e h = subst Has (some-injective _ _ e) h
    step-Has s s' (opens location) g e h =
        subst Has (some-injective _ _ e) (open_session-Has s location)
    step-Has s s' closes g e h = subst Has (some-injective _ _ e) tt
    step-Has s s' (enables_oob location) g e h =
        let (x, done, same) = map-eq-some _ (enable_oob_transport j t s location) e in
        subst Has same (enable_oob_transport-Has s location x done h)
    step-Has s s' (sends request) g e h = send_request-Has s s' request g e h
    step-Has s s' (executes request batches) g e h =
        let (x, done, same) = map-eq-some _ (execute_command j t s request batches) e in
        subst Has same (execute_command-Has s request batches x g done h)
    step-Has s s' (polls batches) g e h = subst Has (some-injective _ _ e) (poll-Has s batches h)
    step-Has s s' (receives d) g e h = subst Has (some-injective _ _ e) (deliver-Has s d h)

    -- Whatever such calls are made, the property holds of every transport that the session has.
    pub run-Has :
        (cs : List (Call j t)) (s s' : State j t)
        → All (Asks G) cs
        → run j t s cs ≡ some s'
        → Has s
        → Has s'
    unfolding run
    run-Has [] s s' g e h = subst Has (some-injective _ _ e) h
    run-Has (c ∷ cs) s s' (g, gs) e h =
        let (s₁, done, more) = bind-eq-some _ (step j t s c) e in
        run-Has cs s₁ s' gs more (step-Has s s₁ c g done h)
