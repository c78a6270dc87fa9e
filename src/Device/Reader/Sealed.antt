-- ===== src/Device/Reader/Sealed.antt =====
-- Packets of a device with the checksum that NetworkTransport::verifyOobPacket (src/transport.cpp)
-- looks for.
use ldcp_sdk.Prelude.{
  ℕ, suc, ◌≡◌, refl, sym, true, false, List, [], ◌∷◌, arith, length, ==_refl, ltb, All,
}
use ldcp_sdk.Crc.{calculate_crc16}
use ldcp_sdk.Packet.{read_uint16, clear_checksum, verify_oob_packet}
use ldcp_sdk.Device.Block.{BlockData}
use ldcp_sdk.Device.Block.Packets.{oob_packet}
use ldcp_sdk.Device.Block.Frames.{Stamp, packets_from}

-- The packet of a block, with a given checksum.
abbrev pub packet_with : Stamp → ℕ → BlockData → ℕ → List ℕ
packet_with h index layer checksum =
    oob_packet h.frame_index index h.count h.time checksum h.wide h.full layer.ranges
      layer.intensities

-- The device puts into each packet the checksum of the packet with none.
abbrev pub IsSealed : Stamp → ℕ → List BlockData → Type 0
IsSealed h index [] = Unit
IsSealed h index (layer ∷ layers) =
    (h.checksum index ≡ calculate_crc16 (packet_with h index layer 0))
    × IsSealed h (suc index) layers

module _ (h : Stamp) (index : ℕ) (layer : BlockData) (c : ℕ) where
  packet-clear : clear_checksum (packet_with h index layer c) ≡ packet_with h index layer 0
  unfolding clear_checksum oob_packet
  packet-clear = refl

  packet-checksum : read_uint16 (packet_with h index layer c) 12 ≡ c
  unfolding read_uint16 oob_packet
  packet-checksum = omega arith

  packet-signature : read_uint16 (packet_with h index layer c) 0 ≡ 0xFFFF
  unfolding read_uint16 oob_packet
  packet-signature = omega arith

  packet-header : ltb (length (packet_with h index layer c)) 16 ≡ false
  unfolding oob_packet
  packet-header = ground arith

  packet-verified :
      c ≡ calculate_crc16 (packet_with h index layer 0)
      → verify_oob_packet (packet_with h index layer c) ≡ true
  unfolding verify_oob_packet
  packet-verified e =
      rw (packet-header, packet-signature, packet-clear, packet-checksum, sym e, ==_refl c) refl

-- Such packets pass the check.
pub packets-verified :
    (h : Stamp) (index : ℕ) (layers : List BlockData)
    → IsSealed h index layers
    → All (λ p. verify_oob_packet p ≡ true) (packets_from h index layers)
unfolding packets_from
packets-verified h index [] s = tt
packets-verified h index (layer ∷ layers) (c, s) =
    (packet-verified h index layer (h.checksum index) c, packets-verified h (suc index) layers s)
