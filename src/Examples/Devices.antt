-- ===== src/Examples/Devices.antt =====
-- Devices and the device manager at concrete inputs.
use ldcp_sdk.Examples.Unary.{to_unary, from_unary, from-to}
use ldcp_sdk.Device.Addresses.{as_address, address_value, as_address-address_value}
use ldcp_sdk.Prelude.{none, codes, ap, ◌≡◌, refl, ℕ, true, List, [], ◌∷◌, some, arith}
use ldcp_sdk.Prelude.Int.{pos}
use ldcp_sdk.Error.{no_error, timed_out}
use ldcp_sdk.Json.Tree.{Tree, tree_json, null, string, number}
use ldcp_sdk.Session.{Event, Executed, finish_command, wait_for, response_ready, deliver}
use ldcp_sdk.Device.{
  Returned, assigned, ask, as_int, entry_request, set_request, write_request,
  scan_resolution_string, set_scan_resolution, scan_resolution_60k, angular_fov_270deg,
}
use ldcp_sdk.Device.Returns.{ask-interpreted, interpreted}
use ldcp_sdk.Device.Sent.{Sends, set_scan_resolution-Sends, numbered, execute_command-open}
use ldcp_sdk.Session.Command.{first_answer}
use ldcp_sdk.Device.Open.{open_device, open_device-Settled, Settled, Opened}
use ldcp_sdk.Device.Scan.{ScanBlock, ScanFrame, FrameRead, Progress, frame_loop}
use ldcp_sdk.Device.Scan.Assembly.{concat_map}
use ldcp_sdk.Device.Scan.Frames.{frame_loop-loses}
use ldcp_sdk.Manager.{DeviceInfo, Notifiers}
use ldcp_sdk.Manager.Entries.{
  Call, adds, starts, stops, attaches, detaches, behind, replay, behind-replay,
}
use ldcp_sdk.Examples.Loopback.{Loopback, loopback, idle_link}
use ldcp_sdk.Examples.Sessions.{Link, opened, arrivals}

ask-interpreted_example :
    (r : Returned Link (Event Tree) _) × (ask tree_json loopback opened
        (entry_request tree_json loopback "settings/get" "scan.frequency")
        (as_int tree_json loopback)
        arrivals
      ≡ some r)
    × ((r.result, r.output)
        ≡ interpreted tree_json loopback
            (as_int tree_json loopback)
            (first_answer tree_json loopback (pos 5) arrivals))
ask-interpreted_example =
    ask-interpreted tree_json loopback opened
      (entry_request tree_json loopback "settings/get" "scan.frequency") (as_int tree_json loopback)
      arrivals idle_link refl (omega arith) (refl, tt)

-- A session with no transport.
abbrev unopened : Link
unopened = record opened { transport = none }

open_device-Settled_example :
    (r : Opened tree_json loopback) × (open_device tree_json loopback unopened
        (record { address = 1; port = 2105 })
        arrivals
      ≡ some r)
    × Settled tree_json loopback r
open_device-Settled_example =
    open_device-Settled tree_json loopback unopened (record { address = 1; port = 2105 }) arrivals
      refl

-- Blocks of one range each, of frames of two blocks.
abbrev block : ℕ → ℕ → ScanBlock
block index value = record {
  block_index = pos index;
  block_count = 2;
  block_length = 1;
  timestamp = value;
  angular_fov = angular_fov_270deg;
  ranges = value ∷ [];
  intensities = 7 ∷ [];
}

abbrev blank : ScanFrame
blank = record { timestamp = 0; angular_fov = angular_fov_270deg; ranges = []; intensities = [] }

-- In the middle of a frame of two blocks.
abbrev halfway : Progress
halfway = record {
  expected_block_index = 1;
  block_count = 2;
  block_length = 1;
  frame = record {
    timestamp = 8;
    angular_fov = angular_fov_270deg;
    ranges = 8 ∷ 0 ∷ [];
    intensities = 7 ∷ 0 ∷ [];
  };
}

frame_loop-loses_example :
    (f : FrameRead) × (frame_loop halfway
        (block 0 10 ∷ block 1 11 ∷ block 0 12 ∷ block 1 13 ∷ [])
        timed_out
      ≡ some f)
    × (f.result ≡ no_error)
    × (f.unread ≡ [])
    × (f.frame.ranges ≡ concat_map (λ x. x.ranges) (block 0 12 ∷ block 1 13 ∷ []))
frame_loop-loses_example =
    frame_loop-loses halfway (block 0 10) (block 1 11 ∷ []) (block 0 12) (block 1 13 ∷ []) []
      timed_out (omega arith) (omega arith) refl (refl, tt)
      (refl, refl, refl, (refl, refl, refl, tt)) refl

abbrev linked : Link
linked = record opened { response_queue = [] }

abbrev frequency_set : Executed Link (Event Tree) Tree
frequency_set = finish_command tree_json loopback (
    wait_for (response_ready tree_json loopback) (deliver tree_json loopback) [] (
      numbered tree_json loopback linked
        (set_request tree_json loopback "scan.frequency" (number (pos 15))) idle_link))

abbrev resolution_set : Executed Link (Event Tree) Tree
resolution_set = finish_command tree_json loopback (
    wait_for (response_ready tree_json loopback) (deliver tree_json loopback) [] (
      numbered tree_json loopback linked (write_request tree_json loopback "scan.resolution" "60k")
        idle_link))

set_scan_resolution-Sends_example :
    (y : Loopback) × (resolution_set.state.transport ≡ some y)
    × Sends tree_json loopback idle_link y null "scan.resolution" (string "60k") (pos 5)
unfolding set_scan_resolution ldcp_sdk.Device.write_choice scan_resolution_string
set_scan_resolution-Sends_example =
    set_scan_resolution-Sends tree_json loopback scan_resolution_60k "60k" linked [] idle_link
      resolution_set refl refl
      (execute_command-open tree_json loopback linked
        (write_request tree_json loopback "scan.resolution" "60k") [] idle_link refl)

-- Notifiers that keep nothing and start up at once.
abbrev quiet : Notifiers
quiet = record { Notifier = ℕ; init = λ x. (x, true); start = λ x. x; stop = λ x. x }

abbrev lidar : ℕ → DeviceInfo
lidar address = record {
  id = codes "LTME-02A";
  location = record { address = address; port = 2105 };
  metadata = [];
}

abbrev numbers : ℕ → ℕ
numbers p = p

abbrev events : List (Call quiet)
events =
    adds 3
    ∷ starts
    ∷ attaches (lidar 1)
    ∷ attaches (lidar 2)
    ∷ detaches (codes "LTME-02A")
    ∷ stops
    ∷ []

behind-replay_example :
    (behind quiet numbers events).device_entries ≡ replay quiet (behind quiet numbers events).log
behind-replay_example = behind-replay quiet numbers events

-- 1.0.0.0 in network byte order
as_address-address_value_example :
    as_address tree_json loopback to_unary
      (λ s. some (from_unary s))
      (address_value tree_json loopback to_unary (λ s. some (from_unary s)) 16777216)
    ≡ assigned 16777216
as_address-address_value_example =
    as_address-address_value tree_json loopback to_unary (λ s. some (from_unary s))
      (λ a h. ap some (from-to a)) 16777216 (omega arith)
