-- ===== src/Examples/Sessions.antt =====
-- Sessions over the loopback transport.
use ldcp_sdk.Prelude.{◌≡◌, refl, true, List, [], ◌∷◌, some, arith}
use ldcp_sdk.Prelude.Int.{pos, negsuc}
use ldcp_sdk.Json.Tree.{Tree, tree_json, object, end}
use ldcp_sdk.Session.{
  Session, Event, message, Executed, execute_command, new_session, open_session, deliver,
  send_request, response_ready, wait_for, finish_command, take_response, remove_if, push_bounded,
  is_response, is_scan_notification, on_message_received, poll_for_scan_block,
}
use ldcp_sdk.Session.Command.{execute_command-outcome, first_answer, outcome}
use ldcp_sdk.Session.History.{Call, opens, executes, receives, step, run, run-IsWellFormed}
use ldcp_sdk.Session.Invariant.{IsWellFormed}
use ldcp_sdk.Session.Poll.{poll_for_scan_block-polled, result_of, polled, ready_queues}
use ldcp_sdk.Examples.Loopback.{
  Loopback, loopback, idle_link, good_response, error_response, scan_message,
}

abbrev pub Link : Type 0
Link = Session Tree Loopback

-- Opened, with a stale error response to request 4 in the queue.
abbrev pub opened : Link
opened = record {
  timeout = pos 3000;
  transport = some idle_link;
  id = pos 4;
  response_queue = error_response (pos 4) (negsuc 0) ∷ [];
  scan_block_queue_primary = [];
  scan_block_queue_oob = [];
}

-- While the command waits, a late response, a scan block and then its own response arrive.
abbrev pub arrivals : List (List (Event Tree))
arrivals =
    (message (good_response (pos 4)) ∷ message (scan_message (pos 1)) ∷ [])
    ∷ (message (error_response (pos 5) (negsuc 32600)) ∷ [])
    ∷ []

request_tree : Tree
request_tree = object end

execute_command-outcome_example :
    (e : Executed Link (Event Tree) Tree) × (execute_command tree_json loopback opened request_tree
        arrivals
      ≡ some e)
    × ((e.result, e.response)
        ≡ outcome tree_json loopback (first_answer tree_json loopback (pos 5) arrivals))
execute_command-outcome_example =
    execute_command-outcome tree_json loopback opened request_tree arrivals idle_link refl
      (omega arith) (refl, tt)

abbrev calls : List (Call tree_json loopback)
calls =
    opens (record { address = 1; port = 2105 })
    ∷ receives (message (scan_message (pos 1)))
    ∷ executes request_tree ((message (good_response (pos 0)) ∷ []) ∷ [])
    ∷ []

behind_calls : Link
behind_calls = record {
  timeout = pos 3000;
  transport = some (record {
    connected = true;
    sent = tree_json.add_member request_tree "id" (tree_json.number (pos 0)) ∷ [];
  });
  id = pos 0;
  response_queue = [];
  scan_block_queue_primary = scan_message (pos 1) ∷ [];
  scan_block_queue_oob = [];
}

run-IsWellFormed_example : IsWellFormed tree_json loopback behind_calls
unfolding run step open_session deliver on_message_received execute_command finish_command
    take_response wait_for response_ready send_request remove_if push_bounded is_response
    is_scan_notification new_session behind_calls mathlib.Core.Option.bind
run-IsWellFormed_example = run-IsWellFormed tree_json loopback calls behind_calls refl

poll_for_scan_block-polled_example :
    result_of tree_json loopback (poll_for_scan_block tree_json loopback opened arrivals)
    ≡ polled tree_json loopback (ready_queues tree_json loopback [] [] arrivals)
poll_for_scan_block-polled_example =
    poll_for_scan_block-polled tree_json loopback arrivals opened [] [] refl refl
