-- ===== src/Lib.antt =====
-- Verification library of the LDCP SDK, the client of LiDAR devices over TCP and UDP.
--
-- The program: a Device sends JSON-RPC commands through a Session, which numbers them, hands them
-- to a Transport and waits for the response; a receiving thread hands the transport's messages and
-- packets to the session, which queues responses and scan blocks; Utility has the checksum and the
-- Base64 coding that the messages and the scan data use.
--
-- Files and sources:
--   Prelude, Prelude/*   shared names; lists, tests and integers over the native numbers; the laws
--                        of the bit operations
--   Crc, Base64          include/ldcp/utility.h (CalculateCRC16; Base64Encode, Base64Decode and the
--                        two length functions); bytes and characters are numbers below 256
--   Error                include/ldcp/error.h, and the device's error codes of src/session.cpp
--   Location             include/ldcp/location.h, src/location.cpp
--   Json, Json/*         the interface to RapidJSON's documents (Json/Data: arrays and byte strings),
--                        and a concrete value of it
--   Transport            include/ldcp/transport.h: the abstract class as an interface
--   Session, Session/*   include/ldcp/session.h, src/session.cpp; executeCommand is send_request (its
--                        first half, and the version without a response) and execute_command
--   Device, Device/*     src/device.cpp, src/device_base.cpp and include/ldcp/data_types.h: a function per
--                        command (Device; Device/Addresses and Device/Mac for those that hold an
--                        address; Device/Base for the other members of DeviceBase), over
--                        the shapes of Device/Requests; Device::open (Device/Open); readScanBlock
--                        (Device/Block), and readScanFrame over the blocks that it hands out
--                        (Device/Scan) and over a session (Device/Reader), down to the datagrams
--                        (Device/Reader/Datagrams) and frame by frame (Device/Reader/Stream);
--                        the public interface of include/ldcp/device.h and
--                        include/ldcp/device_base.h (Device/Calls), and the documents that it
--                        hands over (Device/Documents)
--   Bootloader, Bootloader/* include/ldcp/bootloader.h, src/bootloader.cpp; the static text of writeData
--                        over the outgoing queue (Bootloader/Static)
--   Manager, Manager/*   include/ldcp/device_manager.h, src/device_manager.cpp, src/device_info.cpp; a
--                        callback is the log of the events that it is called with, and a notifier a
--                        pointer into a store of them (Manager/Pointers)
--   Packet, Packet/*     src/transport.cpp (verifyOobPacket) and the header in
--                        include/ldcp/data_types.h
--   Outgoing, Outgoing/* src/transport.cpp: transmitMessage and outgoingMessageHandler; Outgoing/Delivery
--                        joins them to the receive handler of another transport
--   Framing, Framing/*   src/transport.cpp: encapsulateOutgoingMessage, parseIncomingMessage and
--                        incomingMessageHandler, over what they use of the streams (Framing/Stream)
--   Network, Network/*   src/transport.cpp: connect, disconnect, enableOob and oobPacketHandler, and
--                        NetworkTransport as a whole, as an implementation of Transport; its event
--                        loop (Network/Loop), the callbacks (Network/Callbacks), the datagrams
--                        that the OOB socket receives (Network/Datagrams), and the worker thread
--                        through the calls of a session (Network/Pairing, Network/Threads); commands
--                        and their responses over the wire (Network/Exchange,
--                        Network/Conversation)
--   Notifier, Notifier/* include/ldcp/device_notifier.h, src/device_notifier.cpp: the notifier of each
--                        platform (Notifier/Linux, Notifier/Windows), and the thread of the one on
--                        Windows (Notifier/Windows/Polling) with its loop over the pending requests
--                        (Notifier/Windows/Round); the static objects of the two instance
--                        functions (Notifier/Instances)
--   Examples/*           runs at concrete inputs
--
-- Threads: a function of Session is what one thread does while it holds the mutex. A wait on a
-- condition variable is given the batches of deliveries that the receiving thread makes before each
-- of its tests, in any number and grouping; behind the last batch comes the timeout.
--
-- Third-party code: RapidJSON's documents are the parameters `Json` and `JsonData` with their
-- documented laws, its writer and its parser of texts the parameter `JsonText`, and the text form
-- of an IPv4 address is a pair of functions. How a connection attempt or a bind ends
-- (`Surroundings`), which objects Avahi can make (`Makes`), what Bonjour answers, and the
-- descriptor sets of Winsock (`Sockets`) are parameters. async_read_until reads up to the first CR
-- LF in the buffer, as Asio documents it (Framing/Line). A call outside its precondition may return
-- anything.
--
-- Bounds: loops recur on their input, so no fuel is needed, but for four: the loop over the headers
-- of a frame, whose fuel is one more than the bytes in the buffer, of which each round takes one
-- at least; the loop that writes a decimal number, whose rounds are one more than the number; the
-- loop of readScanFrame over a session, whose fuel is one more than the blocks in the queues and the
-- deliveries, of which each round but the last takes one; and the loop over the pending requests of
-- the Windows notifier, whose fuel is one more than the requests in the list.
-- The number of the last request is an int in the source and an unbounded integer here: the model
-- holds for the first 2^31 requests.
--
-- Not modelled: sockets, threads and timers themselves (a shutdown of an open socket is taken to
-- succeed); when Avahi or Bonjour calls back; a text that a queued request refers to and that a longer
-- one has moved (src/bootloader.cpp), or that is a local one of a method which has returned after a
-- timeout (setScanResolution and setAngularFov of src/device.cpp: the request holds a copy of the
-- text here).
pub mod Prelude
pub mod Crc
pub mod Base64
pub mod Json
pub mod Error
pub mod Location
pub mod Transport
pub mod Session
pub mod Device
pub mod Bootloader
pub mod Manager
pub mod Notifier
pub mod Packet
pub mod Outgoing
pub mod Framing
pub mod Network
mod Examples
