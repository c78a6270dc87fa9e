-- ===== src/Examples/Calls.antt =====
-- A device with a history.
use ldcp_sdk.Prelude.{◌≡◌, ℕ, refl, List, [], ◌∷◌, Option, none, some}
use Prim.Native.String.{String}
use ldcp_sdk.Prelude.Int.{pos}
use ldcp_sdk.Location.{NetworkLocation}
use ldcp_sdk.Json.Tree.{tree_json, tree_data}
use ldcp_sdk.Session.{finish_command, wait_for, response_ready, deliver, message, oob_packet}
use ldcp_sdk.Device.{method_request}
use ldcp_sdk.Device.Sent.{numbered}
use ldcp_sdk.Device.Base.{Base}
use ldcp_sdk.Device.Calls.{
  Step, calls, receives, sets_timeout, opens, starts_streaming, sets_scan_resolution, new_device,
  run_device,
}
use ldcp_sdk.Device.Calls.Numbering.{IsNumbered, run_device-IsNumbered}
use ldcp_sdk.Session.Transports.{Holds}
use ldcp_sdk.Device.{scan_resolution_60k}
use ldcp_sdk.Examples.Unary.{to_unary, from_unary}
use ldcp_sdk.Examples.Loopback.{loopback}
use ldcp_sdk.Examples.Sessions.{Link, opened}

abbrev place : NetworkLocation
place = record { address = 1; port = 2105 }

abbrev device : Base tree_json loopback
device = record { location = some place; session = some opened }

abbrev parse : String → Option ℕ
parse s = some (from_unary s)

abbrev first_history : List (Step tree_json tree_data loopback to_unary parse)
first_history =
    calls (sets_timeout (pos 500)) []
    ∷ calls opens []
    ∷ calls starts_streaming []
    ∷ calls (sets_scan_resolution scan_resolution_60k) []
    ∷ []

-- The device that a history ends with.
abbrev at_end : Option (Base tree_json loopback) → Base tree_json loopback
at_end none = device
at_end (some base) = base

abbrev at_last : Base tree_json loopback
at_last = at_end (
    run_device tree_json tree_data loopback to_unary parse (new_device tree_json loopback place)
      first_history)

first_history-run :
    run_device tree_json tree_data loopback to_unary parse
      (new_device tree_json loopback place)
      first_history
    ≡ some at_last
unfolding run_device mathlib.Core.Option.bind ldcp_sdk.Device.Calls.step_device
    ldcp_sdk.Device.Calls.perform ldcp_sdk.Device.Calls.after_command
    ldcp_sdk.Device.start_streaming ldcp_sdk.Device.call_method ldcp_sdk.Session.execute_command
    ldcp_sdk.Session.send_request deliver ldcp_sdk.Session.set_timeout numbered new_device
    ldcp_sdk.Device.Open.any_thread ldcp_sdk.Device.Base.new_device_base
    ldcp_sdk.Device.Open.open_device ldcp_sdk.Session.open_session ldcp_sdk.Device.is_oob_enabled
    ldcp_sdk.Device.get_setting ldcp_sdk.Device.ask ldcp_sdk.Device.Open.after_enabled
    ldcp_sdk.Device.returned finish_command wait_for response_ready ldcp_sdk.Session.remove_if
    ldcp_sdk.Session.new_session ldcp_sdk.Device.set_scan_resolution ldcp_sdk.Device.write_choice
    ldcp_sdk.Device.scan_resolution_string
first_history-run = refl

run_device-IsNumbered_example :
    (s : Link) × (at_last.session ≡ some s)
    × Holds tree_json loopback (IsNumbered tree_json loopback s.id) s.transport
run_device-IsNumbered_example =
    run_device-IsNumbered tree_json tree_data loopback to_unary parse first_history place at_last
      first_history-run
