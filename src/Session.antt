-- ===== src/Session.antt =====
-- include/ldcp/session.h and src/session.cpp: class Session. The receiving thread and the calling
-- thread share the queues under mutexes; each function below is what one thread does while it holds
-- the mutex, and a wait is given the batches of messages that the other thread delivers meanwhile.
mod State
pub mod Queues
pub mod Receive
pub mod Command
pub mod Answered
pub mod Invariant
pub mod Poll
pub mod History
pub mod Transports
use mathlib.Core.List.{foldl}
use mathlib.Core.Option
use ldcp_sdk.Prelude.{
  ℕ, Bool, true, false, not, ◌&&◌, ◌||◌, List, [], ◌∷◌, ◌++◌, Option, none, some, ltb,
  if◌then◌else◌, length,
}
use ldcp_sdk.Prelude.Int.{ℤ, negsuc, suc_ℤ, ltb_ℤ}
use ldcp_sdk.Error.{ErrorCode, no_error, timed_out, unknown, classify_error, is_no_error}
use ldcp_sdk.Location.{NetworkLocation}
use ldcp_sdk.Json.{Json}
use ldcp_sdk.Transport.{Transport}
unfoldable pub use State.*

module _ (j : Json) (t : Transport j.Value) where
  open j use {Value, has_member, member, equals_int, equals_text, get_int, is_int, is_object}

  abbrev pub State : Type 0
  State = Session Value t.State

  -- Session::Session
  unfoldable pub new_session : State
  new_session = record {
    timeout = default_timeout;
    transport = none;
    id = negsuc 0;
    response_queue = [];
    scan_block_queue_primary = [];
    scan_block_queue_oob = [];
  }

  unfoldable pub set_timeout : State → ℤ → State
  set_timeout s timeout = record s { timeout = timeout }

  abbrev pub owned : Option t.State → List t.State
  owned none = []
  owned (some x) = x ∷ []

  -- Session::open. The new transport replaces the old one; one that does not connect is dropped.
  unfoldable pub open_session : State → NetworkLocation → Switched State t.State
  open_session s location =
      let (x, connect_result) = t.connect (t.create location) s.timeout in
      if is_no_error connect_result
      then record {
        state = record s { transport = some x };
        result = connect_result;
        destroyed = owned s.transport;
      }
      else record {
        state = record s { transport = none };
        result = connect_result;
        destroyed = owned s.transport ++ (x ∷ []);
      }

  -- Session::close. A connected transport is disconnected before it is dropped.
  unfoldable pub close : State → Switched State t.State
  close s = record {
    state = record s {
      transport = none;
      response_queue = [];
      scan_block_queue_primary = [];
      scan_block_queue_oob = [];
    };
    result = no_error;
    destroyed =
        owned (Option.map (λ x. if t.is_connected x then t.disconnect x else x) s.transport);
  }

  unfoldable pub is_opened : State → Bool
  is_opened s = elim s.transport [ none ↦ false | some x ↦ t.is_connected x ]

  unfoldable pub create_empty_request_object : Value
  create_empty_request_object =
      j.add_member (j.add_member j.empty_object "jsonrpc" (j.text "2.0")) "method" j.null

  -- The part of both executeCommand functions up to the wait: number the request and hand it to the
  -- transport. `none`: there is no transport to call.
  unfoldable pub send_request : State → Value → Option State
  send_request s request =
      let id : ℤ = suc_ℤ s.id in
      Option.map
        (λ x. record s {
          id = id;
          transport = some (t.transmit_message x (j.add_member request "id" (j.number id)));
        })
        s.transport

  unfoldable pub is_response : Value → Bool
  is_response m = (has_member m "result" || has_member m "error") && has_member m "id"

  unfoldable pub is_scan_notification : Value → Bool
  is_scan_notification m =
      (has_member m "method" && equals_text (member m "method") "notification/laserScan")
      && (has_member m "params" && not (has_member m "id"))

  -- Session::onMessageReceived
  unfoldable pub on_message_received : State → Value → State
  on_message_received s m =
      if not (has_member m "jsonrpc" && equals_text (member m "jsonrpc") "2.0")
      then s
      else if is_response m
      then (if equals_int (member m "id") s.id then record s { response_queue = m ∷ [] } else s)
      else if is_scan_notification m
      then record s {
        scan_block_queue_primary =
            push_bounded scan_block_buffering_count s.scan_block_queue_primary m;
      }
      else s

  -- Session::onOobPacketReceived
  unfoldable pub on_oob_packet_received : State → List ℕ → State
  on_oob_packet_received s packet = record s {
    scan_block_queue_oob = push_bounded scan_block_buffering_count s.scan_block_queue_oob packet;
  }

  unfoldable pub deliver : State → Event Value → State
  unfolding on_message_received on_oob_packet_received
  deliver s (message m) = on_message_received s m
  deliver s (oob_packet packet) = on_oob_packet_received s packet

  -- response_queue_.size() > 0 && response_queue_.front()["id"] == id_
  abbrev pub front_answers : ℤ → List Value → Bool
  front_answers id [] = false
  front_answers id (m ∷ _) = equals_int (member m "id") id

  -- The predicate of the wait in executeCommand.
  unfoldable pub response_ready : State → State × Bool
  response_ready s =
      let queue : List Value =
        remove_if (λ _. j.null) (λ m. ltb_ℤ (get_int (member m "id")) s.id) s.response_queue in
      (record s { response_queue = queue }, front_answers s.id queue)

  -- The error of a response that has no result.
  unfoldable pub response_error : Value → ErrorCode
  response_error m =
      if is_object (member m "error")
        && (has_member (member m "error") "code" && is_int (member (member m "error") "code"))
      then classify_error (get_int (member (member m "error") "code"))
      else unknown

  -- The part of executeCommand behind the wait. An error response stays in the queue.
  unfoldable pub take_response :
      List Value → Waited State (Event Value) → Executed State (Event Value) Value
  take_response [] w = record {
    state = w.state;
    result = unknown;
    response = none;
    later = w.later;
  }
  take_response (m ∷ rest) w =
      if has_member m "result"
      then record {
        state = record w.state { response_queue = rest };
        result = no_error;
        response = some m;
        later = w.later;
      }
      else record { state = w.state; result = response_error m; response = none; later = w.later }

  unfoldable pub finish_command : Waited State (Event Value) → Executed State (Event Value) Value
  finish_command w =
      if w.ready
      then take_response w.state.response_queue w
      else record { state = w.state; result = timed_out; response = none; later = w.later }

  -- Session::executeCommand with a response. `none`: there is no transport to call.
  unfoldable pub execute_command :
      State → Value → List (List (Event Value)) → Option (Executed State (Event Value) Value)
  execute_command s request batches =
      Option.map (λ s'. finish_command (wait_for response_ready deliver batches s'))
        (send_request s request)

  -- Session::enableOobTransport. `none`: there is no transport to call.
  unfoldable pub enable_oob_transport : State → NetworkLocation → Option (State × ErrorCode)
  enable_oob_transport s location =
      Option.map
        (λ x.
          let (x', result) = t.enable_oob x location in (record s { transport = some x' }, result))
        s.transport

  -- The predicate of the wait in pollForScanBlock.
  unfoldable pub scan_block_ready : State → State × Bool
  scan_block_ready s =
      (s, ltb 0 (length s.scan_block_queue_primary) || ltb 0 (length s.scan_block_queue_oob))

  -- The part of pollForScanBlock behind the wait: the primary queue comes first.
  unfoldable pub take_block :
      List Value → List (List ℕ) → Waited State (Event Value) → Polled State (Event Value) Value
  take_block (m ∷ rest) oob w = record {
    state = record w.state { scan_block_queue_primary = rest };
    result = no_error;
    block = notification m;
    later = w.later;
  }
  take_block [] (packet ∷ rest) w = record {
    state = record w.state { scan_block_queue_oob = rest };
    result = no_error;
    block = oob_data packet;
    later = w.later;
  }
  take_block [] [] w = record {
    state = w.state;
    result = no_error;
    block = nothing;
    later = w.later;
  }

  -- Session::pollForScanBlock
  unfoldable pub poll_for_scan_block :
      State → List (List (Event Value)) → Polled State (Event Value) Value
  poll_for_scan_block s batches =
      let w = wait_for scan_block_ready deliver batches s in
      if w.ready
      then take_block w.state.scan_block_queue_primary w.state.scan_block_queue_oob w
      else record { state = w.state; result = timed_out; block = nothing; later = w.later }
