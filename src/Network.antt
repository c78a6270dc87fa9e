-- ===== src/Network.antt =====
-- NetworkTransport (src/transport.cpp): connection, OOB socket and worker thread, as the class that
-- Transport::create makes. Asio and the network are parameters: how a connection attempt ends, and
-- how a bind does. What is dispatched to the event loop is taken to be run at once while the loop
-- runs, and not at all once it has returned.
pub mod Callbacks
pub mod Datagrams
pub mod Exchange
pub mod Conversation
pub mod Loop
pub mod Pairing
pub mod Threads
use ldcp_sdk.Prelude.{
  ℕ, arith, if_keeps, if_cases, ◌≡◌, refl, Bool, true, false, not, ◌&&◌, ◌||◌, List, [], ◌∷◌, ◌++◌,
  if◌then◌else◌,
}
use ldcp_sdk.Prelude.Int.{ℤ}
use ldcp_sdk.Error.{
  ErrorCode, no_error, timed_out, connection_refused, address_in_use, unknown, is_no_error,
}
use ldcp_sdk.Location.{NetworkLocation, network_location_eq}
use ldcp_sdk.Transport.{Transport}
use ldcp_sdk.Packet.{verify_oob_packet}
use ldcp_sdk.Outgoing.{Outgoing, new_outgoing, transmit, write_failed}

-- What the handler of async_connect is told within the timeout, if anything.
pub data Attempt : Type 0 where
  accepted refused failing unanswered : Attempt

-- What a bind gives.
pub data Bound : Type 0 where
  bound in_use unbound : Bound

pub record Surroundings : Type 0 where
  pub attempt : NetworkLocation → ℤ → Attempt
  pub bind : NetworkLocation → Bound

pub record Network (Value : Type 0) : Type 0 where
  pub device_address : NetworkLocation
  -- primary_socket_.is_open()
  pub primary_open : Bool
  -- worker_thread_.joinable()
  pub worker : Bool
  -- io_service_.run() has returned, which it does when nothing is outstanding, and from then on at
  -- once.
  pub io_stopped : Bool
  -- A read of the primary socket, and one of the OOB socket, has not called its handler yet.
  pub receiving : Bool
  pub oob_receiving : Bool
  -- oob_socket_.is_open()
  pub oob_open : Bool
  -- The messages that transmitMessage was given.
  pub handed_over : List Value
  pub outgoing : Outgoing Value
  -- A call has thrown, or the program was terminated.
  pub failed : Bool

module _ {Value : Type 0} where
  -- NetworkTransport::NetworkTransport
  unfoldable pub new_network : NetworkLocation → Network Value
  new_network location = record {
    device_address = location;
    primary_open = false;
    worker = false;
    io_stopped = false;
    receiving = false;
    oob_receiving = false;
    oob_open = false;
    handed_over = [];
    outgoing = new_outgoing;
    failed = false;
  }

  -- The socket is closed, and the thread joined.
  unfoldable pub not_connected : Network Value → Network Value
  not_connected s = record s { primary_open = false; worker = false; io_stopped = true }

  -- The result of an attempt: the wait has ended with it, or with the timeout.
  unfoldable pub attempted : Network Value → Attempt → Network Value × ErrorCode
  attempted s accepted =
      (record s { primary_open = true; worker = true; receiving = true }, no_error)
  attempted s refused = (not_connected s, connection_refused)
  attempted s failing = (not_connected s, unknown)
  attempted s unanswered = (not_connected s, timed_out)

  -- NetworkTransport::connect. A thread that is there must not be assigned to, and no handler runs
  -- on a service that is stopped.
  unfoldable pub connect : Surroundings → Network Value → ℤ → Network Value × ErrorCode
  connect net s timeout =
      if s.worker
      then (record s { failed = true }, unknown)
      else attempted s (if s.io_stopped then unanswered else net.attempt s.device_address timeout)

  -- What disconnect dispatches: both sockets are closed, and what is outstanding is aborted. A loop
  -- that has returned does not run it.
  unfoldable pub closing : Network Value → Network Value
  unfolding write_failed
  closing s = if s.io_stopped then s else record s {
    primary_open = false;
    io_stopped = true;
    receiving = false;
    oob_receiving = false;
    oob_open = false;
    outgoing = write_failed s.outgoing;
  }

  -- NetworkTransport::disconnect. A thread that is not there must not be joined.
  unfoldable pub disconnect : Network Value → Network Value
  disconnect s =
      if s.primary_open
      then record (closing s) { worker = false; failed = if s.worker then s.failed else true }
      else s

  -- NetworkTransport::transmitMessage
  unfoldable pub transmit_message : Network Value → Value → Network Value
  transmit_message s message = record s {
    handed_over = s.handed_over ++ (message ∷ []);
    outgoing = if s.worker && not s.io_stopped then transmit s.outgoing message else s.outgoing;
  }

  -- What enableOob makes of a bind.
  unfoldable pub oob_bound : Network Value → Bound → Network Value × ErrorCode
  oob_bound s bound = (record s { oob_open = true; oob_receiving = true }, no_error)
  oob_bound s in_use = (s, address_in_use)
  oob_bound s unbound = (s, unknown)

  -- NetworkTransport::enableOob. To open a socket that is open throws.
  unfoldable pub enable_oob :
      Surroundings → Network Value → NetworkLocation → Network Value × ErrorCode
  enable_oob net s location =
      if s.oob_open then (record s { failed = true }, unknown) else oob_bound s (net.bind location)

  -- NetworkTransport::oobPacketHandler with a callback that is set: the packets that it is called
  -- with, and whether the socket is read again.
  unfoldable pub oob_packet_handler :
      Network Value → Bool → NetworkLocation → List ℕ → Network Value × List (List ℕ)
  oob_packet_handler s error sender packet =
      if error then (record s { oob_receiving = false }, []) else (
        record s { oob_receiving = true },
        if network_location_eq sender s.device_address && verify_oob_packet packet
            then packet ∷ []
            else [],
      )

  attempted-connected :
      (s : Network Value) (a : Attempt)
      → (attempted s a).0.primary_open ≡ is_no_error (attempted s a).1
  unfolding attempted not_connected
  attempted-connected s accepted = refl
  attempted-connected s refused = refl
  attempted-connected s failing = refl
  attempted-connected s unanswered = refl

  pub connect-connected :
      (net : Surroundings) (s : Network Value) (timeout : ℤ)
      → s.primary_open ≡ false
      → (connect net s timeout).0.primary_open ≡ is_no_error (connect net s timeout).1
  unfolding connect
  connect-connected net s timeout h =
      if_keeps (λ (x : Network Value × ErrorCode). x.0.primary_open ≡ is_no_error x.1) s.worker h
        (attempted-connected s _)

  attempted-handed_over :
      (s : Network Value) (a : Attempt) → (attempted s a).0.handed_over ≡ s.handed_over
  unfolding attempted not_connected
  attempted-handed_over s accepted = refl
  attempted-handed_over s refused = refl
  attempted-handed_over s failing = refl
  attempted-handed_over s unanswered = refl

  pub connect-handed_over :
      (net : Surroundings) (s : Network Value) (timeout : ℤ)
      → (connect net s timeout).0.handed_over ≡ s.handed_over
  unfolding connect
  connect-handed_over net s timeout =
      if_keeps (λ (x : Network Value × ErrorCode). x.0.handed_over ≡ s.handed_over) s.worker refl
        (attempted-handed_over s _)

  attempted-worker :
      (s : Network Value) (a : Attempt) → (attempted s a).0.worker ≡ is_no_error (attempted s a).1
  unfolding attempted not_connected
  attempted-worker s accepted = refl
  attempted-worker s refused = refl
  attempted-worker s failing = refl
  attempted-worker s unanswered = refl

  pub connect-worker :
      (net : Surroundings) (s : Network Value) (timeout : ℤ)
      → s.worker ≡ false
      → (connect net s timeout).0.worker ≡ is_no_error (connect net s timeout).1
  unfolding connect
  connect-worker net s timeout h =
      if_cases (λ (x : Network Value × ErrorCode). x.0.worker ≡ is_no_error x.1) s.worker
        (λ on. cc (on, h)) (λ off. attempted-worker s _)

  oob_bound-handed_over :
      (s : Network Value) (b : Bound) → (oob_bound s b).0.handed_over ≡ s.handed_over
  unfolding oob_bound
  oob_bound-handed_over s bound = refl
  oob_bound-handed_over s in_use = refl
  oob_bound-handed_over s unbound = refl

  pub enable_oob-handed_over :
      (net : Surroundings) (s : Network Value) (location : NetworkLocation)
      → (enable_oob net s location).0.handed_over ≡ s.handed_over
  unfolding enable_oob
  enable_oob-handed_over net s location =
      if_keeps (λ (x : Network Value × ErrorCode). x.0.handed_over ≡ s.handed_over) s.oob_open refl
        (oob_bound-handed_over s _)

  pub transmit_message-handed_over :
      (s : Network Value) (message : Value)
      → (transmit_message s message).handed_over ≡ s.handed_over ++ (message ∷ [])
  unfolding transmit_message
  transmit_message-handed_over s message = refl

pub new_network-handed_over :
    (Value : Type 0) (l : NetworkLocation) → (new_network {Value = Value} l).handed_over ≡ []
unfolding new_network
new_network-handed_over Value l = refl

pub new_network-worker :
    (Value : Type 0) (l : NetworkLocation) → (new_network {Value = Value} l).worker ≡ false
unfolding new_network
new_network-worker Value l = refl

pub new_network-closed :
    (Value : Type 0) (l : NetworkLocation) → (new_network {Value = Value} l).primary_open ≡ false
unfolding new_network
new_network-closed Value l = refl

-- NetworkTransport as the session uses it.
abbrev pub network_transport : (Value : Type 0) → Surroundings → Transport Value
network_transport Value net = record {
  State = Network Value;
  create = new_network;
  connect = connect net;
  disconnect = disconnect;
  is_connected = λ s. s.primary_open;
  has_thread = λ s. s.worker;
  transmit_message = transmit_message;
  enable_oob = enable_oob net;
  transmitted = λ s. s.handed_over;
  transmitted-transmit_message = transmit_message-handed_over;
  is_connected-create = new_network-closed Value;
  is_connected-connect = connect-connected net;
  transmitted-create = new_network-handed_over Value;
  transmitted-connect = connect-handed_over net;
  transmitted-enable_oob = enable_oob-handed_over net;
  has_thread-create = new_network-worker Value;
  has_thread-connect = connect-worker net;
}
