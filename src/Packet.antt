-- ===== src/Packet.antt =====
-- The check of an OOB packet: struct OobPacketHeader (include/ldcp/data_types.h) and
-- NetworkTransport::verifyOobPacket (src/transport.cpp). A packet is its bytes; the fields of the
-- packed struct are read in place, on a little-endian host.
pub mod Detection
use ldcp_sdk.Prelude.{
  ℕ, ◌+◌, ◌*◌, ◌^◌, Bool, true, false, not, ◌||◌, List, [], ◌∷◌, ◌++◌, ltb, ◌==◌, if◌then◌else◌,
  length, take, drop, get_or,
}
use ldcp_sdk.Crc.{calculate_crc16}

-- sizeof(OobPacketHeader)
abbrev pub oob_packet_header_size : ℕ
oob_packet_header_size = 16

-- The offset of the field `checksum`.
abbrev pub checksum_offset : ℕ
checksum_offset = 12

unfoldable pub read_uint16 : List ℕ → ℕ → ℕ
read_uint16 bytes offset = get_or bytes offset 0 + get_or bytes (offset + 1) 0 * 2 ^ 8

-- oob_packet_header->checksum = 0
unfoldable pub clear_checksum : List ℕ → List ℕ
clear_checksum bytes = take checksum_offset bytes ++ (0 ∷ 0 ∷ drop (checksum_offset + 2) bytes)

-- NetworkTransport::verifyOobPacket. The saved checksum is written back in the end, so the packet
-- is what it was before.
unfoldable pub verify_oob_packet : List ℕ → Bool
verify_oob_packet bytes =
    if ltb (length bytes) oob_packet_header_size || not (read_uint16 bytes 0 == 0xFFFF)
    then false
    else calculate_crc16 (clear_checksum bytes) == read_uint16 bytes checksum_offset
