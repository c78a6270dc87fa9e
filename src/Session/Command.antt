-- ===== src/Session/Command.antt =====
-- Session::executeCommand: what a command returns, for every interleaving of deliveries with the
-- wait.
use ldcp_sdk.Prelude.{
  ◌≤◌, ◌≡◌, refl, ap, ◌∙◌, subst, Bool, true, false, List, [], ◌∷◌, Option, none, some, arith,
  if◌then◌else◌, length, Option-cases, inl, inr, All,
}
use ldcp_sdk.Prelude.Int.{ℤ, suc_ℤ, ltb_ℤ}
use ldcp_sdk.Error.{ErrorCode, no_error, timed_out}
use ldcp_sdk.Json.{Json}
use ldcp_sdk.Transport.{Transport}
use ldcp_sdk.Session.{
  State, Event, Waited, Executed, wait_for, response_ready, deliver, send_request, take_response,
  finish_command, execute_command, front_answers, response_error,
}
use ldcp_sdk.Session.Queues.{remove_if_single}
use ldcp_sdk.Session.Receive.{
  last_answer, last_answer-equals, or_else, receive, receive_keeps, receive-response_queue,
}

module _ (j : Json) (t : Transport j.Value) where
  open j use {Value, has_member, member, equals_int}

  -- No queued response carries the number of the next request or of a later one.
  abbrev pub IsStale : ℤ → List Value → Type 0
  IsStale next = All (λ m. equals_int (member m "id") next ≡ false)

  -- The response that a request waits for: the last answer in the first batch that has one.
  pub first_answer : ℤ → List (List (Event Value)) → Option Value
  first_answer id [] = none
  first_answer id (batch ∷ batches) = elim (last_answer j t id batch) [
    | some m ↦ some m
    | none ↦ first_answer id batches
  ]

  -- What executeCommand makes of it.
  unfoldable pub outcome : Option Value → ErrorCode × Option Value
  outcome none = (timed_out, none)
  outcome (some m) =
      if has_member m "result" then (no_error, some m) else (response_error j t m, none)

  -- On a queue of at most one response the predicate of the wait changes nothing.
  pub response_ready_lem :
      (s : State j t)
      → length s.response_queue ≤ 1
      → response_ready j t s ≡ (s, front_answers j t s.id s.response_queue)
  unfolding response_ready
  response_ready_lem s h = rw (
      remove_if_single (λ _. j.null) (λ m. ltb_ℤ (j.get_int (member m "id")) s.id) s.response_queue
        h)

  -- What a wait has come to, given the response that it waits for.
  abbrev Waits : Option Value → Waited (State j t) (Event Value) → Type 0
  Waits none w = w.ready ≡ false
  Waits (some m) w = (w.ready ≡ true) × (w.state.response_queue ≡ m ∷ [])

  pub ready_now :
      (s : State j t) (m : Value)
      → s.response_queue ≡ m ∷ []
      → equals_int (member m "id") s.id ≡ true
      → response_ready j t s ≡ (s, true)
  ready_now s m q e =
      response_ready_lem s (omega (arith, ap (length {A = Value}) q))
      ∙ ap (λ (b : Bool). (s, b)) (ap (front_answers j t s.id) q ∙ e)

  pub not_ready :
      (s : State j t)
      → length s.response_queue ≤ 1
      → IsStale s.id s.response_queue
      → response_ready j t s ≡ (s, false)
  not_ready s h k = response_ready_lem s h ∙ ap (λ (b : Bool). (s, b)) (stale s.response_queue k)
    where
      stale : (q : List Value) → IsStale s.id q → front_answers j t s.id q ≡ false
      stale [] a = refl
      stale (m ∷ q) a = a.0

  -- A wait for a response that is at hand ends at once.
  wait_ready :
      (s : State j t) (m : Value) (batches : List (List (Event Value)))
      → s.response_queue ≡ m ∷ []
      → equals_int (member m "id") s.id ≡ true
      → Waits (some m) (wait_for (response_ready j t) (deliver j t) batches s)
  unfolding wait_for
  wait_ready s m [] q e = rw (ready_now s m q e) (refl, q)
  wait_ready s m (batch ∷ batches) q e = rw (ready_now s m q e) (refl, q)

  pub wait_goes_on :
      (s : State j t) (batch : List (Event Value)) (batches : List (List (Event Value)))
      → response_ready j t s ≡ (s, false)
      → wait_for (response_ready j t) (deliver j t) (batch ∷ batches) s
        ≡ wait_for (response_ready j t) (deliver j t) batches (receive j t s batch)
  unfolding wait_for
  wait_goes_on s batch batches e = rw e

  first_answer-found :
      (id : ℤ) (batch : List (Event Value)) (batches : List (List (Event Value))) (m : Value)
      → last_answer j t id batch ≡ some m
      → first_answer id (batch ∷ batches) ≡ some m
  unfolding first_answer
  first_answer-found id batch batches m e = rw (e, first_answer)

  first_answer-missing :
      (id : ℤ) (batch : List (Event Value)) (batches : List (List (Event Value)))
      → last_answer j t id batch ≡ none
      → first_answer id (batch ∷ batches) ≡ first_answer id batches
  unfolding first_answer
  first_answer-missing id batch batches e = rw (e, first_answer)

  wait_answer :
      (batches : List (List (Event Value))) (s : State j t)
      → length s.response_queue ≤ 1
      → IsStale s.id s.response_queue
      → Waits (first_answer s.id batches) (wait_for (response_ready j t) (deliver j t) batches s)
  wait_answer [] s h k = unfold first_answer wait_for in rw (not_ready s h k)
  wait_answer (batch ∷ batches) s h k =
      let s' = receive j t s batch in
      let (same, _) = receive_keeps j t s batch in
      let queue = receive-response_queue j t s batch in
      rw (wait_goes_on s batch batches (not_ready s h k))
        (elim (Option-cases (last_answer j t s.id batch)) [
          | inl missing ↦
              let old : s'.response_queue ≡ s.response_queue =
                queue ∙ ap (λ (o : Option Value). or_else j t o s.response_queue) missing in
              rw (first_answer-missing s.id batch batches missing) (
                subst
                  (λ (id : ℤ).
                    Waits (first_answer id batches)
                      (wait_for (response_ready j t) (deliver j t) batches s'))
                  same (wait_answer batches s' (rw old h) (rw (same, old) k)))
          | inr (m, found) ↦
              let new : s'.response_queue ≡ m ∷ [] =
                queue ∙ ap (λ (o : Option Value). or_else j t o s.response_queue) found in
              rw (first_answer-found s.id batch batches m found)
                (wait_ready s' m batches new (rw same (last_answer-equals j t s.id batch m found)))
        ])

  -- What executeCommand makes of a finished wait.
  finish_lem :
      (o : Option Value) (w : Waited (State j t) (Event Value))
      → Waits o w
      → ((finish_command j t w).result, (finish_command j t w).response) ≡ outcome o
  unfolding finish_command outcome take_response
  finish_lem none w h = rw h
  finish_lem (some m) w h = ground arith

  -- With no stale response queued, a command sent over an open session returns what the first
  -- batch with an answer to its own number makes of the last answer in it: the document if it has
  -- a result, else the error that it reports; and a timeout if no answer is delivered.
  pub execute_command-outcome :
      (s : State j t) (request : Value) (batches : List (List (Event Value))) (x : t.State)
      → s.transport ≡ some x
      → length s.response_queue ≤ 1
      → IsStale (suc_ℤ s.id) s.response_queue
      → (e : Executed (State j t) (Event Value) Value) × (execute_command j t s request batches
          ≡ some e)
        × ((e.result, e.response) ≡ outcome (first_answer (suc_ℤ s.id) batches))
  unfolding execute_command send_request
  execute_command-outcome s request batches x o h k =
      let s' : State j t = record s {
        id = suc_ℤ s.id;
        transport = some (t.transmit_message x (j.add_member request "id" (j.number (suc_ℤ s.id))));
      } in
      let w = wait_for (response_ready j t) (deliver j t) batches s' in
      (finish_command j t w, rw o, finish_lem _ w (wait_answer batches s' h k))
