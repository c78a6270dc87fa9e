-- ===== src/Network/Callbacks.antt =====
-- class Transport's own members (include/ldcp/transport.h, src/transport.cpp), and what the handlers
-- of NetworkTransport report through the callbacks.
use ldcp_sdk.Prelude.{
  ◌≡◌, refl, Bool, true, false, List, [], ◌∷◌, Option, none, some, if◌then◌else◌,
}
use ldcp_sdk.Error.{ErrorCode, unknown}
use ldcp_sdk.Location.{AnyLocation, network, another}
use ldcp_sdk.Network.{Network, new_network}

-- Transport::create. `none`: a null pointer.
unfoldable pub create_transport : {Value : Type 0} → AnyLocation → Option (Network Value)
create_transport (network location) = some (new_network location)
create_transport another = none

-- Which of the four callbacks are set.
pub record Callbacks : Type 0 where
  pub received_message : Bool
  pub transmit_error : Bool
  pub receive_error : Bool
  pub received_oob_packet : Bool

abbrev pub no_callbacks : Callbacks
no_callbacks = record {
  received_message = false;
  transmit_error = false;
  receive_error = false;
  received_oob_packet = false;
}

-- Transport::setReceivedMessageCallback
unfoldable pub set_received_message_callback : Callbacks → Bool → Callbacks
set_received_message_callback c callback = record c { received_message = callback }

-- Transport::setTransmitErrorCallback
unfoldable pub set_transmit_error_callback : Callbacks → Bool → Callbacks
set_transmit_error_callback c callback = record c { transmit_error = callback }

-- Transport::setReceiveErrorCallback
unfoldable pub set_receive_error_callback : Callbacks → Bool → Callbacks
set_receive_error_callback c callback = record c { receive_error = callback }

-- Transport::setReceivedOobPacketCallback
unfoldable pub set_received_oob_packet_callback : Callbacks → Bool → Callbacks
set_received_oob_packet_callback c callback = record c { received_oob_packet = callback }

-- How an operation ends: without an error, with asio::error::operation_aborted, or with another one.
pub data Ending : Type 0 where
  succeeds aborted fails : Ending

-- The errors that incomingMessageHandler reports.
unfoldable pub receive_errors : Callbacks → Ending → List ErrorCode
receive_errors c succeeds = []
receive_errors c aborted = []
receive_errors c fails = if c.receive_error then unknown ∷ [] else []

-- The errors that outgoingMessageHandler reports.
unfoldable pub transmit_errors : Callbacks → Ending → List ErrorCode
transmit_errors c succeeds = []
transmit_errors c aborted = []
transmit_errors c fails = if c.transmit_error then unknown ∷ [] else []

-- The callbacks that Session::open sets on a new transport.
abbrev pub session_callbacks : Callbacks
session_callbacks =
    set_received_oob_packet_callback (set_received_message_callback no_callbacks true) true

-- However a read and a write of a session's transport end, no error of theirs is reported.
pub session_callbacks-silent :
    (read write : Ending)
    → (receive_errors session_callbacks read ≡ []) × (transmit_errors session_callbacks write ≡ [])
unfolding receive_errors transmit_errors set_received_oob_packet_callback
    set_received_message_callback
session_callbacks-silent read write = (silent read, silent' write)
  where
    silent : (e : Ending) → receive_errors session_callbacks e ≡ []
    silent succeeds = refl
    silent aborted = refl
    silent fails = refl

    silent' : (e : Ending) → transmit_errors session_callbacks e ≡ []
    silent' succeeds = refl
    silent' aborted = refl
    silent' fails = refl
