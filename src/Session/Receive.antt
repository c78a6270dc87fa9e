-- ===== src/Session/Receive.antt =====
-- The receiving thread: what a delivery does to the queues, one at a time and in batches.
use mathlib.Core.List.{foldl}
use ldcp_sdk.Prelude.{
  ℕ, ◌≤◌, ◌≡◌, refl, sym, ◌∙◌, Bool, true, not, ◌&&◌, List, [], ◌∷◌, ◌++◌, append-nil, append_assoc,
  Option, none, some, arith, if◌then◌else◌, length,
}
use ldcp_sdk.Prelude.Int.{ℤ}
use ldcp_sdk.Json.{Json}
use ldcp_sdk.Transport.{Transport}
use ldcp_sdk.Session.{
  State, Event, message, oob_packet, deliver, is_response, is_scan_notification,
  scan_block_buffering_count,
}
use ldcp_sdk.Session.Queues.{
  newest, newest_all, push_bounded-newest, newest-newest_append, length-newest,
}

module _ (j : Json) (t : Transport j.Value) where
  open j use {Value, has_member, member, equals_int, equals_text}

  unfoldable pub is_json_rpc : Value → Bool
  is_json_rpc m = has_member m "jsonrpc" && equals_text (member m "jsonrpc") "2.0"

  -- A delivery that is accepted as the response to request number `id`.
  unfoldable pub answers : ℤ → Event Value → Option Value
  answers id (message m) =
      if is_json_rpc m && (is_response j t m && equals_int (member m "id") id) then some m else none
  answers id (oob_packet p) = none

  -- The laser scan notifications and the OOB packets among deliveries, oldest first.
  unfoldable pub scan_messages : List (Event Value) → List Value
  scan_messages [] = []
  scan_messages (message m ∷ es) =
      (if is_json_rpc m && (not (is_response j t m) && is_scan_notification j t m)
        then m ∷ []
        else [])
      ++ scan_messages es
  scan_messages (oob_packet p ∷ es) = scan_messages es

  unfoldable pub oob_packets : List (Event Value) → List (List ℕ)
  oob_packets [] = []
  oob_packets (message m ∷ es) = oob_packets es
  oob_packets (oob_packet p ∷ es) = p ∷ oob_packets es

  abbrev pub or_else : Option Value → List Value → List Value
  or_else none q = q
  or_else (some m) q = m ∷ []

  -- No delivery changes the request number, the transport or the timeout.
  pub deliver_keeps :
      (s : State j t) (e : Event Value)
      → ((deliver j t s e).id ≡ s.id) × ((deliver j t s e).transport ≡ s.transport)
  unfolding deliver
  deliver_keeps s (message m) = ground arith
  deliver_keeps s (oob_packet p) = (refl, refl)

  pub deliver-response_queue :
      (s : State j t) (e : Event Value)
      → (deliver j t s e).response_queue ≡ or_else (answers s.id e) s.response_queue
  unfolding deliver answers is_json_rpc
  deliver-response_queue s (message m) = ground arith
  deliver-response_queue s (oob_packet p) = refl

  -- A JSON-RPC 2.0 response with a result and a given number.
  pub record IsAnswer (id : ℤ) (m : Value) : Type 0 where
    pub has_version : has_member m "jsonrpc" ≡ true
    pub version : equals_text (member m "jsonrpc") "2.0" ≡ true
    pub has_result : has_member m "result" ≡ true
    pub has_id : has_member m "id" ≡ true
    pub number : equals_int (member m "id") id ≡ true

  -- The last delivery of a batch that answers the request.
  unfoldable pub last_answer : ℤ → List (Event Value) → Option Value
  last_answer id [] = none
  last_answer id (e ∷ es) = elim (last_answer id es) [ some m ↦ some m | none ↦ answers id e ]

  pub answers-equals :
      (id : ℤ) (e : Event Value) (m : Value)
      → answers id e ≡ some m
      → equals_int (member m "id") id ≡ true
  unfolding answers
  answers-equals id (message m') m h = ground arith
  answers-equals id (oob_packet p) m h = cc

  -- An answer carries the number of the request.
  pub last_answer-equals :
      (id : ℤ) (es : List (Event Value)) (m : Value)
      → last_answer id es ≡ some m
      → equals_int (member m "id") id ≡ true
  unfolding last_answer
  last_answer-equals id [] m h = cc
  last_answer-equals id (e ∷ es) m h =
      ground (arith, last_answer-equals id es m, answers-equals id e m)

  abbrev pub receive : State j t → List (Event Value) → State j t
  receive s es = foldl (deliver j t) s es

  pub receive_keeps :
      (s : State j t) (es : List (Event Value))
      → ((receive s es).id ≡ s.id) × ((receive s es).transport ≡ s.transport)
  receive_keeps s [] = (refl, refl)
  receive_keeps s (e ∷ es) =
      let (i, x) = receive_keeps (deliver j t s e) es in
      let (i', x') = deliver_keeps s e in (i ∙ i', x ∙ x')

  pub receive-response_queue :
      (s : State j t) (es : List (Event Value))
      → (receive s es).response_queue ≡ or_else (last_answer s.id es) s.response_queue
  unfolding last_answer
  receive-response_queue s [] = refl
  receive-response_queue s (e ∷ es) = ground (
    arith,
    receive-response_queue (deliver j t s e) es,
    deliver_keeps s e,
    deliver-response_queue s e,
  )

  pub deliver-primary :
      (s : State j t) (e : Event Value)
      → length s.scan_block_queue_primary ≤ scan_block_buffering_count
      → (deliver j t s e).scan_block_queue_primary
        ≡ newest scan_block_buffering_count (s.scan_block_queue_primary ++ scan_messages (e ∷ []))
  unfolding deliver scan_messages is_json_rpc
  deliver-primary s (message m) h = ground (
    arith,
    newest_all scan_block_buffering_count s.scan_block_queue_primary h,
    push_bounded-newest scan_block_buffering_count s.scan_block_queue_primary m (omega arith) h,
  )
  deliver-primary s (oob_packet p) h = sym (newest_all _ _ h)

  pub deliver-oob :
      (s : State j t) (e : Event Value)
      → length s.scan_block_queue_oob ≤ scan_block_buffering_count
      → (deliver j t s e).scan_block_queue_oob
        ≡ newest scan_block_buffering_count (s.scan_block_queue_oob ++ oob_packets (e ∷ []))
  unfolding deliver oob_packets
  deliver-oob s (message m) h =
      ground (arith, newest_all scan_block_buffering_count s.scan_block_queue_oob h)
  deliver-oob s (oob_packet p) h = push_bounded-newest _ _ _ (omega arith) h

  scan_messages_step :
      (e : Event Value) (es : List (Event Value))
      → scan_messages (e ∷ es) ≡ scan_messages (e ∷ []) ++ scan_messages es
  unfolding scan_messages
  scan_messages_step (message m) es = ground (arith, append-nil {A = Value})
  scan_messages_step (oob_packet p) es = refl

  oob_packets_step :
      (e : Event Value) (es : List (Event Value))
      → oob_packets (e ∷ es) ≡ oob_packets (e ∷ []) ++ oob_packets es
  unfolding oob_packets
  oob_packets_step (message m) es = refl
  oob_packets_step (oob_packet p) es = refl

  -- From a queue within its bound, the receiving thread leaves the newest scan notifications.
  pub receive-primary :
      (s : State j t) (es : List (Event Value))
      → length s.scan_block_queue_primary ≤ scan_block_buffering_count
      → (receive s es).scan_block_queue_primary
        ≡ newest scan_block_buffering_count (s.scan_block_queue_primary ++ scan_messages es)
  receive-primary s [] h = unfold scan_messages in sym (newest_all _ _ h)
  receive-primary s (e ∷ es) h =
      let one = deliver-primary s e h in
      let bounded : length (deliver j t s e).scan_block_queue_primary ≤ scan_block_buffering_count =
        rw one (
          length-newest {A = Value} scan_block_buffering_count
            (s.scan_block_queue_primary ++ scan_messages (e ∷ []))) in
      receive-primary (deliver j t s e) es bounded
      ∙ rw (one, newest-newest_append, append_assoc, scan_messages_step e es)

  -- From a queue within its bound, the receiving thread leaves the newest OOB packets.
  pub receive-oob :
      (s : State j t) (es : List (Event Value))
      → length s.scan_block_queue_oob ≤ scan_block_buffering_count
      → (receive s es).scan_block_queue_oob
        ≡ newest scan_block_buffering_count (s.scan_block_queue_oob ++ oob_packets es)
  receive-oob s [] h = unfold oob_packets in sym (newest_all _ _ h)
  receive-oob s (e ∷ es) h =
      let one = deliver-oob s e h in
      let bounded : length (deliver j t s e).scan_block_queue_oob ≤ scan_block_buffering_count =
        rw one (
          length-newest {A = List ℕ} scan_block_buffering_count
            (s.scan_block_queue_oob ++ oob_packets (e ∷ []))) in
      receive-oob (deliver j t s e) es bounded
      ∙ rw (one, newest-newest_append, append_assoc, oob_packets_step e es)
