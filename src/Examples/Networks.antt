-- ===== src/Examples/Networks.antt =====
-- Sessions over a network transport that is accepted at once.
use ldcp_sdk.Prelude.{◌≡◌, refl, true, false, List, [], ◌∷◌, some}
use ldcp_sdk.Location.{NetworkLocation}
use ldcp_sdk.Json.Tree.{Tree, null, tree_json}
use ldcp_sdk.Transport.{Transport}
use ldcp_sdk.Session.{State, new_session, open_session, close, is_opened}
use ldcp_sdk.Device.Base.{device_destroyed}
use mathlib.Core.Option
use ldcp_sdk.Session.History.{Call, opens, closes}
use ldcp_sdk.Network.Loop.{
  Event, read_fails, writes, occurs, Action, transmits, enables, happens, IsDeaf, act,
  read_fails-IsDeaf,
}
use ldcp_sdk.Network.Pairing.{Move, calls, undergoes, move, moves}
use mathlib.Core.List.{foldl}
use ldcp_sdk.Outgoing.{new_outgoing}
use ldcp_sdk.Network.{Network, Surroundings, accepted, in_use, network_transport, disconnect}
use ldcp_sdk.Network.Threads.{IsIdle, close-joins, open_session-terminates}

abbrev pub welcoming : Surroundings
welcoming = record { attempt = λ l timeout. accepted; bind = λ l. in_use }

abbrev pub lidar : NetworkLocation
lidar = record { address = 1; port = 2105 }

abbrev pub tcp : Transport Tree
tcp = network_transport Tree welcoming

-- The second connection's read fails.
abbrev reopening : List (Move tree_json welcoming)
reopening =
    calls (opens lidar)
    ∷ calls closes
    ∷ undergoes writes
    ∷ calls (opens lidar)
    ∷ undergoes read_fails
    ∷ []

abbrev pub connected : State tree_json tcp
connected = (open_session tree_json tcp (new_session tree_json tcp) lidar).state

abbrev reopened : State tree_json tcp
reopened = record connected {
  transport = Option.map (λ x. occurs x read_fails) connected.transport;
}

reopening-moves : moves tree_json welcoming (new_session tree_json tcp) reopening ≡ some reopened
unfolding moves move mathlib.Core.Option.bind ldcp_sdk.Session.History.step new_session close
    open_session ldcp_sdk.Network.connect ldcp_sdk.Network.new_network ldcp_sdk.Network.attempted
    occurs
reopening-moves = refl

reopened-is_opened : is_opened tree_json tcp reopened ≡ true
unfolding new_session open_session is_opened ldcp_sdk.Network.connect ldcp_sdk.Network.new_network
    ldcp_sdk.Network.attempted occurs ldcp_sdk.Network.Loop.handled ldcp_sdk.Network.Loop.settled
    ldcp_sdk.Outgoing.new_outgoing
reopened-is_opened = refl

close-joins_example :
    IsIdle tree_json welcoming (close tree_json tcp reopened).destroyed
    × IsIdle tree_json welcoming
        (open_session tree_json tcp (close tree_json tcp reopened).state lidar).destroyed
    × IsIdle tree_json welcoming
        (device_destroyed tree_json tcp (record { location = some lidar; session = some reopened }))
close-joins_example = close-joins tree_json welcoming reopening reopened lidar reopening-moves

open_session-terminates_example :
    (x : Network Tree) × (after : List (Network Tree)) × ((open_session tree_json tcp reopened
        lidar).destroyed
      ≡ x ∷ after)
    × (x.worker ≡ true)
open_session-terminates_example =
    open_session-terminates tree_json welcoming reopening reopened lidar reopening-moves
      reopened-is_opened

-- A connection that is there, with two messages written.
abbrev busy : Network Tree
busy = record {
  device_address = lidar;
  primary_open = true;
  worker = true;
  io_stopped = false;
  receiving = true;
  oob_receiving = false;
  oob_open = false;
  handed_over = [];
  outgoing = new_outgoing;
  failed = false;
}

abbrev later : List (Action Tree)
later = transmits null ∷ happens writes ∷ enables lidar ∷ []

read_fails-IsDeaf_example :
    let s' = foldl (act welcoming) (occurs busy read_fails) later in
    IsDeaf [] s' × IsDeaf [] (disconnect s')
unfolding new_outgoing
read_fails-IsDeaf_example = read_fails-IsDeaf welcoming busy later refl refl refl refl refl
