-- ===== src/Network/Loop.antt =====
-- The event loop of NetworkTransport (src/transport.cpp): the handlers that the worker thread calls,
-- and the end of the loop.
use mathlib.Core.List.{foldl}
use ldcp_sdk.Prelude.{ℕ, ◌≡◌, true, false, not, ◌&&◌, ◌||◌, List, [], ◌∷◌, arith, if◌then◌else◌}
use ldcp_sdk.Location.{NetworkLocation}
use ldcp_sdk.Outgoing.{written, write_failed}
use ldcp_sdk.Network.{
  Network, Surroundings, disconnect, closing, transmit_message, enable_oob, oob_bound,
  oob_packet_handler,
}

-- What an operation that is outstanding comes to.
pub data Event : Type 0 where
  reads read_fails writes write_fails : Event
  oob_reads : NetworkLocation → List ℕ → Event
  oob_fails : Event

-- A call from outside, or an event.
pub data Action (Value : Type 0) : Type 0 where
  transmits : Value → Action Value
  enables : NetworkLocation → Action Value
  happens : Event → Action Value

module _ {Value : Type 0} where
  -- The loop returns when nothing is outstanding.
  unfoldable pub settled : Network Value → Network Value
  settled s =
      if s.receiving || s.outgoing.writing || s.oob_receiving
      then s
      else record s { io_stopped = true }

  -- The handler of an operation, if it is outstanding. incomingMessageHandler starts the next read
  -- only without an error.
  unfoldable pub handled : Network Value → Event → Network Value
  handled s reads = s
  handled s read_fails = record s { receiving = false }
  handled s writes = if s.outgoing.writing then record s { outgoing = written s.outgoing } else s
  handled s write_fails =
      if s.outgoing.writing then record s { outgoing = write_failed s.outgoing } else s
  handled s (oob_reads sender packet) =
      if s.oob_receiving then (oob_packet_handler s false sender packet).0 else s
  handled s oob_fails = record s { oob_receiving = false }

  unfoldable pub occurs : Network Value → Event → Network Value
  occurs s e = if s.worker && not s.io_stopped then settled (handled s e) else s

  unfoldable pub act : Surroundings → Network Value → Action Value → Network Value
  act net s (transmits message) = transmit_message s message
  act net s (enables location) = (enable_oob net s location).0
  act net s (happens e) = occurs s e

  -- A loop that has returned leaves the socket open and writes nothing.
  pub record IsDeaf (writes : List (List Value)) (s : Network Value) : Type 0 where
    pub stopped : s.io_stopped ≡ true
    pub still_open : s.primary_open ≡ true
    pub unwritten : s.outgoing.writes ≡ writes

  act-IsDeaf :
      (net : Surroundings) (ws : List (List Value)) (s : Network Value) (a : Action Value)
      → IsDeaf ws s
      → IsDeaf ws (act net s a)
  unfolding act occurs transmit_message enable_oob oob_bound
  act-IsDeaf net ws s (transmits message) d = ground (arith, d)
  act-IsDeaf net ws s (enables location) d = ground (arith, d)
  act-IsDeaf net ws s (happens e) d = ground (arith, d)

  acts-IsDeaf :
      (net : Surroundings) (ws : List (List Value)) (actions : List (Action Value))
      (s : Network Value)
      → IsDeaf ws s
      → IsDeaf ws (foldl (act net) s actions)
  acts-IsDeaf net ws [] s d = d
  acts-IsDeaf net ws (a ∷ actions) s d =
      acts-IsDeaf net ws actions (act net s a) (act-IsDeaf net ws s a d)

  disconnect-IsDeaf :
      (ws : List (List Value)) (s : Network Value) → IsDeaf ws s → IsDeaf ws (disconnect s)
  unfolding disconnect closing
  disconnect-IsDeaf ws s d = ground (arith, d)

  occurs-IsDeaf :
      (s : Network Value)
      → s.primary_open ≡ true
      → s.worker ≡ true
      → s.io_stopped ≡ false
      → s.outgoing.writing ≡ false
      → s.oob_receiving ≡ false
      → IsDeaf s.outgoing.writes (occurs s read_fails)
  unfolding occurs handled settled
  occurs-IsDeaf s o w r idle no_oob = ground (arith, o, w, r, idle, no_oob)

  -- Once a read has failed while no write is under way and no OOB socket is read, the transport
  -- still says that it is connected, nothing that is handed over is written any more, whatever
  -- happens, and disconnect leaves the socket open.
  pub read_fails-IsDeaf :
      (net : Surroundings) (s : Network Value) (actions : List (Action Value))
      → s.primary_open ≡ true
      → s.worker ≡ true
      → s.io_stopped ≡ false
      → s.outgoing.writing ≡ false
      → s.oob_receiving ≡ false
      → let s' = foldl (act net) (occurs s read_fails) actions in
        IsDeaf s.outgoing.writes s' × IsDeaf s.outgoing.writes (disconnect s')
  read_fails-IsDeaf net s actions o w r idle no_oob =
      let deaf =
        acts-IsDeaf net s.outgoing.writes actions (occurs s read_fails)
          (occurs-IsDeaf s o w r idle no_oob) in
      (
        deaf,
        disconnect-IsDeaf s.outgoing.writes (foldl (act net) (occurs s read_fails) actions) deaf,
      )

  -- What no event changes.
  pub occurs-worker :
      (s : Network Value) (e : Event)
      → ((occurs s e).worker ≡ s.worker) × ((occurs s e).primary_open ≡ s.primary_open)
  unfolding occurs handled settled oob_packet_handler
  occurs-worker s reads = ground arith
  occurs-worker s read_fails = ground arith
  occurs-worker s writes = ground arith
  occurs-worker s write_fails = ground arith
  occurs-worker s (oob_reads sender packet) = ground arith
  occurs-worker s oob_fails = ground arith
