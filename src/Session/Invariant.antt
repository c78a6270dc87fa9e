-- ===== src/Session/Invariant.antt =====
-- The state of a session over any history of calls and deliveries.
use ldcp_sdk.Prelude.{
  ℕ, zero, suc, ◌≤◌, ◌≡◌, refl, sym, ap, subst, Bool, true, List, [], ◌∷◌, ◌++◌, Option, none, some,
  arith, if_keeps, map-eq-some, length, Bool-cases, inl, inr, All,
}
use ldcp_sdk.Prelude.Int.{ℤ, pos, negsuc, suc_ℤ, ◌≤ℤ◌}
use ldcp_sdk.Json.{Json}
use ldcp_sdk.Transport.{Transport}
use ldcp_sdk.Session.{
  State, Event, Waited, Executed, Polled, wait_for, wait_for-keeps, response_ready, deliver,
  send_request, take_response, finish_command, execute_command, poll_for_scan_block, take_block,
  scan_block_ready, scan_block_buffering_count,
}
use ldcp_sdk.Session.Queues.{length-newest}
use ldcp_sdk.Session.Receive.{
  answers, deliver_keeps, deliver-response_queue, answers-equals, deliver-primary, deliver-oob,
  or_else, scan_messages, oob_packets,
}
use ldcp_sdk.Session.Command.{IsStale, response_ready_lem}

module _ (j : Json) (t : Transport j.Value) where
  open j use {Value, has_member, member, equals_int}

  -- Every queued response has a number up to `id`.
  abbrev pub IsKnown : ℤ → List Value → Type 0
  IsKnown id = All (λ m. (w : ℤ) × (w ≤ℤ id) × (equals_int (member m "id") w ≡ true))

  -- At most one response is queued, its number is none that is still to be given to a request, and
  -- the queues of scan blocks are within their bound.
  pub record IsWellFormed (s : State j t) : Type 0 where
    pub single : length s.response_queue ≤ 1
    pub known : IsKnown s.id s.response_queue
    pub primary_bounded : length s.scan_block_queue_primary ≤ scan_block_buffering_count
    pub oob_bounded : length s.scan_block_queue_oob ≤ scan_block_buffering_count

  IsKnown-later : (a b : ℤ) (q : List Value) → a ≤ℤ b → IsKnown a q → IsKnown b q
  IsKnown-later a b [] h k = tt
  IsKnown-later a b (m ∷ q) h ((w, le, e), k) = ((w, omega arith, e), IsKnown-later a b q h k)

  suc_ℤ-le : (z : ℤ) → z ≤ℤ suc_ℤ z
  suc_ℤ-le (pos n) = omega arith
  suc_ℤ-le (negsuc zero) = omega arith
  suc_ℤ-le (negsuc (suc n)) = omega arith

  not-suc_ℤ-le : (z : ℤ) → suc_ℤ z ≤ℤ z → ⊥
  not-suc_ℤ-le (pos n) h = absurd (omega arith)
  not-suc_ℤ-le (negsuc zero) h = absurd (omega arith)
  not-suc_ℤ-le (negsuc (suc n)) h = absurd (omega arith)

  -- A response with a number up to the last one is stale for the next request.
  pub IsKnown-IsStale : (id : ℤ) (q : List Value) → IsKnown id q → IsStale j t (suc_ℤ id) q
  IsKnown-IsStale id [] k = tt
  IsKnown-IsStale id (m ∷ q) ((w, le, e), k) = (
    elim (Bool-cases (equals_int (member m "id") (suc_ℤ id))) [
      | inl same ↦ absurd (
          not-suc_ℤ-le id (
            subst (λ (z : ℤ). z ≤ℤ id) (j.equals_int_unique (member m "id") w (suc_ℤ id) e same)
              le))
      | inr other ↦ other
    ],
    IsKnown-IsStale id q k,
  )

  answered_queue :
      (s : State j t) (o : Option Value)
      → ((m : Value) → o ≡ some m → equals_int (member m "id") s.id ≡ true)
      → IsWellFormed s
      → (length (or_else j t o s.response_queue) ≤ 1)
        × IsKnown s.id (or_else j t o s.response_queue)
  answered_queue s none h v = (v.single, v.known)
  answered_queue s (some m) h v = (omega arith, ((s.id, omega arith, h m refl), tt))

  pub deliver-IsWellFormed :
      (s : State j t) (e : Event Value) → IsWellFormed s → IsWellFormed (deliver j t s e)
  deliver-IsWellFormed s e v =
      let (single, known) = answered_queue s (answers j t s.id e) (answers-equals j t s.id e) v in
      record {
        single = rw (deliver-response_queue j t s e) single;
        known = rw (deliver-response_queue j t s e, (deliver_keeps j t s e).0) known;
        primary_bounded = rw (deliver-primary j t s e v.primary_bounded) (
            length-newest {A = Value} scan_block_buffering_count
              (s.scan_block_queue_primary ++ scan_messages j t (e ∷ [])));
        oob_bounded = rw (deliver-oob j t s e v.oob_bounded) (
            length-newest {A = List ℕ} scan_block_buffering_count
              (s.scan_block_queue_oob ++ oob_packets j t (e ∷ [])));
      }

  response_ready-IsWellFormed :
      (s : State j t) → IsWellFormed s → IsWellFormed (response_ready j t s).0
  response_ready-IsWellFormed s v =
      subst (λ (r : State j t × Bool). IsWellFormed r.0) (sym (response_ready_lem j t s v.single)) v

  pub send_request-IsWellFormed :
      (s s' : State j t) (request : Value)
      → send_request j t s request ≡ some s'
      → IsWellFormed s
      → IsWellFormed s'
  unfolding send_request
  send_request-IsWellFormed s s' request e v =
      let (x, _, sent) = map-eq-some _ s.transport e in
      subst IsWellFormed sent (record {
        single = v.single;
        known = IsKnown-later s.id (suc_ℤ s.id) s.response_queue (suc_ℤ-le s.id) v.known;
        primary_bounded = v.primary_bounded;
        oob_bounded = v.oob_bounded;
      })

  take_response-IsWellFormed :
      (q : List Value) (w : Waited (State j t) (Event Value))
      → w.state.response_queue ≡ q
      → IsWellFormed w.state
      → IsWellFormed (take_response j t q w).state
  unfolding take_response
  take_response-IsWellFormed [] w e v = v
  take_response-IsWellFormed (m ∷ rest) w e v = elim (Bool-cases (has_member m "result")) [
    | inl good ↦ rw good (record {
      single = omega (arith, v.single, ap (length {A = Value}) e);
      known = (subst (IsKnown w.state.id) e v.known).1;
      primary_bounded = v.primary_bounded;
      oob_bounded = v.oob_bounded;
    })
    | inr bad ↦ rw bad v
  ]

  finish_command-IsWellFormed :
      (w : Waited (State j t) (Event Value))
      → IsWellFormed w.state
      → IsWellFormed (finish_command j t w).state
  unfolding finish_command
  finish_command-IsWellFormed w v =
      if_keeps (λ (e : Executed (State j t) (Event Value) Value). IsWellFormed e.state) w.ready
        (take_response-IsWellFormed w.state.response_queue w refl v) v

  take_block-IsWellFormed :
      (q : List Value) (o : List (List ℕ)) (w : Waited (State j t) (Event Value))
      → w.state.scan_block_queue_primary ≡ q
      → w.state.scan_block_queue_oob ≡ o
      → IsWellFormed w.state
      → IsWellFormed (take_block j t q o w).state
  unfolding take_block
  take_block-IsWellFormed [] [] w e f v = v
  take_block-IsWellFormed [] (p ∷ o) w e f v = record {
    single = v.single;
    known = v.known;
    primary_bounded = v.primary_bounded;
    oob_bounded = omega (arith, v.oob_bounded, ap (length {A = List ℕ}) f);
  }
  take_block-IsWellFormed (m ∷ q) o w e f v = record {
    single = v.single;
    known = v.known;
    primary_bounded = omega (arith, v.primary_bounded, ap (length {A = Value}) e);
    oob_bounded = v.oob_bounded;
  }

  pub poll-IsWellFormed :
      (s : State j t) (batches : List (List (Event Value)))
      → IsWellFormed s
      → IsWellFormed (poll_for_scan_block j t s batches).state
  unfolding poll_for_scan_block
  poll-IsWellFormed s batches v =
      let w = wait_for (scan_block_ready j t) (deliver j t) batches s in
      let kept : IsWellFormed w.state =
        wait_for-keeps IsWellFormed (scan_block_ready j t) (deliver j t)
          (λ x p. unfold scan_block_ready in p) deliver-IsWellFormed batches s v in
      if_keeps (λ (p : Polled (State j t) (Event Value) Value). IsWellFormed p.state) w.ready
        (take_block-IsWellFormed w.state.scan_block_queue_primary w.state.scan_block_queue_oob w
          refl refl kept)
        kept

  pub execute_command-IsWellFormed :
      (s : State j t) (request : Value) (batches : List (List (Event Value)))
      (e : Executed (State j t) (Event Value) Value)
      → execute_command j t s request batches ≡ some e
      → IsWellFormed s
      → IsWellFormed e.state
  unfolding execute_command
  execute_command-IsWellFormed s request batches e h v =
      let (s', sent, done) = map-eq-some _ (send_request j t s request) h in
      subst (λ (x : Executed (State j t) (Event Value) Value). IsWellFormed x.state) done
        (finish_command-IsWellFormed _ (
          wait_for-keeps IsWellFormed (response_ready j t) (deliver j t) response_ready-IsWellFormed
            deliver-IsWellFormed batches s' (send_request-IsWellFormed s s' request sent v)))
