-- ===== src/Outgoing.antt =====
-- The outgoing queue of NetworkTransport (src/transport.cpp): transmitMessage and
-- outgoingMessageHandler, which both run on the worker thread, one at a time. A message is a value
-- of any type; encapsulateOutgoingMessage appends its text to the three stream buffers, and a write
-- is the messages whose text stands in them when async_write is called.
pub mod Order
pub mod Delivery
use ldcp_sdk.Prelude.{Bool, true, false, List, [], ◌∷◌, ◌++◌}

pub record Outgoing (Message : Type 0) : Type 0 where
  -- outgoing_message_queue_
  pub queue : List Message
  -- outgoing_message_buffers_
  pub buffers : List Message
  -- An async_write has not called its handler yet.
  pub writing : Bool
  -- The calls of async_write so far, oldest first.
  pub writes : List (List Message)

module _ {Message : Type 0} where
  unfoldable pub new_outgoing : Outgoing Message
  new_outgoing = record { queue = []; buffers = []; writing = false; writes = [] }

  -- encapsulateOutgoingMessage of the front, and async_write. With an empty queue, nothing.
  unfoldable pub write_front : Outgoing Message → List Message → Outgoing Message
  write_front s [] = s
  write_front s (message ∷ rest) = record s {
    buffers = s.buffers ++ (message ∷ []);
    writing = true;
    writes = s.writes ++ ((s.buffers ++ (message ∷ [])) ∷ []);
  }

  -- transmitMessage: the write is started if no other message is in the queue before this one.
  unfoldable pub start_if_idle : Outgoing Message → List Message → Outgoing Message
  start_if_idle s [] = write_front s s.queue
  start_if_idle s (earlier ∷ rest) = s

  -- NetworkTransport::transmitMessage, the dispatched part
  unfoldable pub transmit : Outgoing Message → Message → Outgoing Message
  transmit s message = start_if_idle (record s { queue = s.queue ++ (message ∷ []) }) s.queue

  -- pop_front, which the source calls on a queue that is not empty.
  abbrev pub popped : List Message → List Message
  popped [] = []
  popped (message ∷ rest) = rest

  -- NetworkTransport::outgoingMessageHandler without an error
  unfoldable pub written : Outgoing Message → Outgoing Message
  written s =
      write_front (record s { queue = popped s.queue; buffers = []; writing = false })
        (popped s.queue)

  -- NetworkTransport::outgoingMessageHandler with an error: at most the error callback is called.
  unfoldable pub write_failed : Outgoing Message → Outgoing Message
  write_failed s = record s { writing = false }
