-- ===== src/Examples.antt =====
-- Runs on concrete inputs, and each theorem with a hypothesis at an input that meets it.
mod Loopback
mod Codecs
mod Exchange
mod Texts
mod Datagrams
mod Sessions
mod Unary
mod Frames
mod Devices
mod Notifiers
mod Blocks
mod Networks
mod Calls
