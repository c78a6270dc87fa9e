-- ===== src/Session/Answered.antt =====
-- Session::executeCommand where the response is delivered at once: the session behind it.
use mathlib.Core.List.{foldl-append}
use ldcp_sdk.Prelude.{
  ◌++◌, List, none, sym, subst, ◌≤◌, ◌≡◌, refl, ap, ◌∙◌, true, [], ◌∷◌, some, arith, length,
}
use ldcp_sdk.Prelude.Int.{suc_ℤ}
use ldcp_sdk.Error.{no_error}
use ldcp_sdk.Json.{Json}
use ldcp_sdk.Transport.{Transport}
use ldcp_sdk.Session.{
  Event, State, message, wait_for, response_ready, deliver, send_request, finish_command,
  take_response, execute_command, on_message_received, is_response,
}
use ldcp_sdk.Session.Receive.{receive, receive_keeps, last_answer, IsAnswer}
use ldcp_sdk.Session.Command.{IsStale, ready_now, not_ready, wait_goes_on}

module _ (j : Json) (t : Transport j.Value) where
  open j use {Value}

  deliver-answer :
      (s : State j t) (m : Value)
      → IsAnswer j t s.id m
      → deliver j t s (message m) ≡ record s { response_queue = m ∷ [] }
  unfolding deliver on_message_received is_response
  deliver-answer s m a = rw (a.has_version, a.version, a.has_result, a.has_id, a.number) refl

  -- The session behind the first half of executeCommand.
  abbrev pub sent_state : State j t → Value → t.State → State j t
  sent_state s request x = record s {
    id = suc_ℤ s.id;
    transport = some (t.transmit_message x (j.add_member request "id" (j.number (suc_ℤ s.id))));
  }

  -- `before` are deliveries that come first, none of which is an answer.
  module _ (before : List (Event Value)) where
    wait-answered :
        (s : State j t) (m : Value)
        → s.response_queue ≡ []
        → last_answer j t s.id before ≡ none
        → IsAnswer j t s.id m
        → wait_for (response_ready j t) (deliver j t) ((before ++ (message m ∷ [])) ∷ []) s
          ≡ record {
            state = record (receive j t s before) { response_queue = m ∷ [] };
            ready = true;
            later = [];
          }
    unfolding wait_for
    wait-answered s m quiet silent a =
        let none_queued : length s.response_queue ≤ 1 = rw quiet (omega arith) in
        let stale : IsStale j t s.id s.response_queue = rw quiet tt in
        let s' : State j t = receive j t s before in
        let same : s'.id ≡ s.id = (receive_keeps j t s before).0 in
        let a' : IsAnswer j t s'.id m = subst (λ z. IsAnswer j t z m) (sym same) a in
        let behind : State j t = record s' { response_queue = m ∷ [] } in
        wait_goes_on j t s (before ++ (message m ∷ [])) [] (not_ready j t s none_queued stale)
        ∙ ap (wait_for (response_ready j t) (deliver j t) [])
            (foldl-append (deliver j t) s before (message m ∷ []) ∙ deliver-answer s' m a')
        ∙ rw (ready_now j t behind m refl a'.number) refl

    -- The command returns the response, and leaves the queue of responses empty.
    pub execute_command-answer :
        (s : State j t) (request m : Value) (x : t.State)
        → s.transport ≡ some x
        → s.response_queue ≡ []
        → last_answer j t (suc_ℤ s.id) before ≡ none
        → IsAnswer j t (suc_ℤ s.id) m
        → execute_command j t s request ((before ++ (message m ∷ [])) ∷ [])
          ≡ some (record {
            state = record (receive j t (sent_state s request x) before) { response_queue = [] };
            result = no_error;
            response = some m;
            later = [];
          })
    unfolding execute_command send_request finish_command take_response
    execute_command-answer s request m x there quiet silent a =
        rw (there, wait-answered (sent_state s request x) m quiet silent a, a.has_result) refl
