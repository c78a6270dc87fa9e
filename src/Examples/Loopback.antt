-- ===== src/Examples/Loopback.antt =====
-- A transport that always connects and keeps what it is given, over JSON trees.
use ldcp_sdk.Prelude.{refl, Bool, true, false, List, [], ◌∷◌, ◌++◌}
use ldcp_sdk.Prelude.Int.{ℤ, pos}
use ldcp_sdk.Error.{no_error}
use ldcp_sdk.Json.Tree.{Tree, string, number, object, end, field}
use ldcp_sdk.Transport.{Transport}

pub record Loopback : Type 0 where
  pub connected : Bool
  pub sent : List Tree

abbrev pub loopback : Transport Tree
loopback = record {
  State = Loopback;
  create = λ l. record { connected = false; sent = [] };
  connect = λ s timeout. (record s { connected = true }, no_error);
  disconnect = λ s. record s { connected = false };
  is_connected = λ s. s.connected;
  has_thread = λ s. s.connected;
  transmit_message = λ s v. record s { sent = s.sent ++ (v ∷ []) };
  enable_oob = λ s l. (s, no_error);
  transmitted = λ s. s.sent;
  transmitted-transmit_message = λ s v. refl;
  is_connected-create = λ l. refl;
  is_connected-connect = λ s timeout h. refl;
  transmitted-create = λ l. refl;
  transmitted-connect = λ s timeout. refl;
  transmitted-enable_oob = λ s l. refl;
  has_thread-create = λ l. refl;
  has_thread-connect = λ s timeout h. refl;
}

abbrev pub idle_link : Loopback
idle_link = record { connected = true; sent = [] }

-- {"jsonrpc": "2.0", "id": id, "result": 7}
abbrev pub good_response : ℤ → Tree
good_response id =
    object (
      field "jsonrpc" (string "2.0") (field "id" (number id) (field "result" (number (pos 7)) end)))

-- {"jsonrpc": "2.0", "id": id, "error": {"code": code}}
abbrev pub error_response : ℤ → ℤ → Tree
error_response id code = object (
    field "jsonrpc" (string "2.0")
      (field "id" (number id) (field "error" (object (field "code" (number code) end)) end)))

-- {"jsonrpc": "2.0", "method": "notification/laserScan", "params": n}
abbrev pub scan_message : ℤ → Tree
scan_message n = object (
    field "jsonrpc" (string "2.0")
      (field "method" (string "notification/laserScan") (field "params" (number n) end)))
