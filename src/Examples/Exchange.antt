-- ===== src/Examples/Exchange.antt =====
-- Two commands over the wire, to a device that replies to each request.
use ldcp_sdk.Prelude.{◌≡◌, refl, true, false, List, [], ◌∷◌, none, some, arith}
use ldcp_sdk.Prelude.Int.{pos}
use ldcp_sdk.Json.Tree.{Tree, object, field, end, string, boolean, get_field, fields, tree_json}
use ldcp_sdk.Session.{State, Event, message, oob_packet}
use ldcp_sdk.Session.Receive.{IsAnswer, last_answer}
use ldcp_sdk.Device.{method_request}
use ldcp_sdk.Network.{Network}
use ldcp_sdk.Network.Conversation.{IsAnswered, IsReady, converse, converse-answered}
use ldcp_sdk.Examples.Loopback.{good_response, scan_message}
use ldcp_sdk.Examples.Networks.{lidar, tcp, welcoming}
use ldcp_sdk.Examples.Texts.{texts, texts-Fits, stands-first, stands-behind}

abbrev running : Network Tree
running = record {
  device_address = lidar;
  primary_open = true;
  worker = true;
  io_stopped = false;
  receiving = true;
  oob_receiving = false;
  oob_open = false;
  handed_over = [];
  outgoing = record { queue = []; buffers = []; writing = false; writes = [] };
  failed = false;
}

abbrev ready : State tree_json tcp
ready = record {
  timeout = pos 3000;
  transport = some running;
  id = pos 4;
  response_queue = [];
  scan_block_queue_primary = [];
  scan_block_queue_oob = [];
}

abbrev start : Tree
start = method_request tree_json tcp "scan/startStreaming"

-- {"jsonrpc": "2.0", "id": the id of the request, "result": true}
abbrev accept : Tree → Tree
accept d = object (
    field "jsonrpc" (string "2.0")
      (field "id" (get_field "id" (fields d)) (field "result" (boolean true) end)))

abbrev stop : Tree
stop = method_request tree_json tcp "scan/stopStreaming"

abbrev fifth : Tree
fifth = tree_json.add_member start "id" (tree_json.number (pos 5))

abbrev sixth : Tree
sixth = tree_json.add_member stop "id" (tree_json.number (pos 6))

abbrev table : List Tree
table = fifth ∷ accept fifth ∷ sixth ∷ accept sixth ∷ []

fifth-IsAnswer : IsAnswer tree_json tcp (pos 5) (accept fifth)
unfolding method_request ldcp_sdk.Session.create_empty_request_object
fifth-IsAnswer = record {
  has_version = refl;
  version = refl;
  has_result = refl;
  has_id = refl;
  number = refl;
}

sixth-IsAnswer : IsAnswer tree_json tcp (pos 6) (accept sixth)
unfolding method_request ldcp_sdk.Session.create_empty_request_object
sixth-IsAnswer = record {
  has_version = refl;
  version = refl;
  has_result = refl;
  has_id = refl;
  number = refl;
}

-- A scan notification, a packet and a late response, which come before the reply.
abbrev meanwhile : List (Event Tree)
meanwhile =
    message (scan_message (pos 1)) ∷ oob_packet (1 ∷ []) ∷ message (good_response (pos 4)) ∷ []

meanwhile-silent : last_answer tree_json tcp (pos 5) meanwhile ≡ none
unfolding last_answer ldcp_sdk.Session.Receive.answers ldcp_sdk.Session.Receive.is_json_rpc
    ldcp_sdk.Session.is_response
meanwhile-silent = refl

sixth-silent : last_answer tree_json tcp (pos 6) [] ≡ none
unfolding last_answer
sixth-silent = refl

fifth-IsAnswered : IsAnswered tree_json (texts table) welcoming accept (pos 5) meanwhile fifth
fifth-IsAnswered = record {
  asked =
      texts-Fits table fifth (stands-first fifth (accept fifth ∷ sixth ∷ accept sixth ∷ []))
        (omega arith);
  answered =
      texts-Fits table (accept fifth)
        (stands-behind (accept fifth) fifth (accept fifth ∷ sixth ∷ accept sixth ∷ [])
          (stands-first (accept fifth) (sixth ∷ accept sixth ∷ [])))
        (omega arith);
  answer = fifth-IsAnswer;
  silent = meanwhile-silent;
}

sixth-IsAnswered : IsAnswered tree_json (texts table) welcoming accept (pos 6) [] sixth
sixth-IsAnswered =
    let here = stands-first sixth (accept sixth ∷ []) in
    let there =
      stands-behind (accept sixth) sixth (accept sixth ∷ []) (stands-first (accept sixth) []) in
    record {
      asked =
          texts-Fits table sixth
            (stands-behind sixth fifth (accept fifth ∷ sixth ∷ accept sixth ∷ [])
              (stands-behind sixth (accept fifth) (sixth ∷ accept sixth ∷ []) here))
            (omega arith);
      answered =
          texts-Fits table (accept sixth)
            (stands-behind (accept sixth) fifth (accept fifth ∷ sixth ∷ accept sixth ∷ [])
              (stands-behind (accept sixth) (accept fifth) (sixth ∷ accept sixth ∷ []) there))
            (omega arith);
      answer = sixth-IsAnswer;
      silent = sixth-silent;
    }

ready-IsReady : IsReady tree_json (texts table) welcoming [] ready
ready-IsReady = record {
  transport = running;
  there = refl;
  calm = record { running = refl; going = refl; receiving = refl; nothing_left = refl };
  quiet = refl;
}

converse-answered_example :
    (s : State tree_json tcp) × (converse tree_json
        (texts table)
        welcoming
        accept
        ready
        ((start, meanwhile) ∷ (stop, []) ∷ [])
      ≡ some (s, some (accept fifth) ∷ some (accept sixth) ∷ []))
    × IsReady tree_json (texts table) welcoming (fifth ∷ sixth ∷ []) s
converse-answered_example =
    converse-answered tree_json (texts table) welcoming accept
      ((start, meanwhile) ∷ (stop, []) ∷ []) [] ready ready-IsReady
      (fifth-IsAnswered, (sixth-IsAnswered, tt))
