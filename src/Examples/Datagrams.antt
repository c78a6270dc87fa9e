-- ===== src/Examples/Datagrams.antt =====
-- A frame of datagrams, with others in between, for a session over a network transport.
use ldcp_sdk.Prelude.{ℕ, zero, suc, ◌≤◌, ◌≡◌, refl, true, List, [], ◌∷◌, ◌++◌, some, arith, length}
use ldcp_sdk.Error.{no_error}
use ldcp_sdk.Location.{NetworkLocation}
use ldcp_sdk.Crc.{calculate_crc16}
use ldcp_sdk.Packet.{verify_oob_packet}
use ldcp_sdk.Json.Tree.{Tree, null, tree_json, tree_data}
use ldcp_sdk.Session.{State, Event, new_session, open_session, message, oob_packet}
use ldcp_sdk.Session.Receive.{receive, oob_packets, scan_messages}
use ldcp_sdk.Network.{Network, new_network}
use ldcp_sdk.Network.Datagrams.{Datagram, Carries, packet_of, noise, nothing_more, oob_received}
use ldcp_sdk.Device.{angular_fov_360deg}
use ldcp_sdk.Device.Scan.{ScanFrame}
use ldcp_sdk.Device.Block.{BlockData}
use ldcp_sdk.Device.Block.Frames.{Stamp, packets_from, joined}
use ldcp_sdk.Device.Reader.{returned, read_session_frame}
use ldcp_sdk.Device.Reader.Sealed.{packet_with, IsSealed, packets-verified}
use ldcp_sdk.Device.Reader.Datagrams.{read_session_frame-datagrams}
use ldcp_sdk.Examples.Blocks.{two_ranges, two_more, blank_block, blank_frame, stamp}
use ldcp_sdk.Examples.Networks.{lidar, tcp, connected}

-- The stamp with the checksums of packets whose layers are given.
abbrev sealed : Stamp → (ℕ → BlockData) → Stamp
sealed h layer = record h { checksum = λ i. calculate_crc16 (packet_with h i (layer i) 0) }

abbrev layer_of : ℕ → BlockData
layer_of zero = two_ranges
layer_of (suc i) = two_more

abbrev sixth : Stamp
sixth = sealed (record stamp { frame_index = 6 }) layer_of

abbrev seventh : Stamp
seventh = sealed stamp layer_of

abbrev eighth : Stamp
eighth = sealed (record stamp { frame_index = 8 }) layer_of

abbrev packet_at : Stamp → ℕ → List ℕ
packet_at h i = packet_with h i (layer_of i) (h.checksum i)

abbrev stranger : NetworkLocation
stranger = record { address = 2; port = 2105 }

abbrev listening : Network Tree
listening = record (new_network lidar) {
  primary_open = true;
  worker = true;
  receiving = true;
  oob_receiving = true;
  oob_open = true;
}

abbrev datagrams : List Datagram
datagrams =
    (lidar, packet_at sixth 1)
    ∷ (stranger, packet_at sixth 1)
    ∷ (lidar, packet_at seventh 0)
    ∷ (lidar, 255 ∷ [])
    ∷ (lidar, packet_at seventh 1)
    ∷ (lidar, packet_at eighth 0)
    ∷ []

abbrev expected : List (List ℕ)
expected =
    packets_from sixth 1 (two_more ∷ [])
    ++ (packets_from seventh 0 (two_ranges ∷ two_more ∷ [])
        ++ packets_from eighth 0 (two_ranges ∷ []))

abbrev arriving : List (Event Tree)
arriving =
    oob_packet (packet_at sixth 1)
    ∷ oob_packet (packet_at seventh 0)
    ∷ message null
    ∷ oob_packet (packet_at seventh 1)
    ∷ oob_packet (packet_at eighth 0)
    ∷ []

datagrams-Carries : Carries listening.device_address datagrams expected
unfolding new_network packets_from verify_oob_packet ldcp_sdk.Location.network_location_eq
datagrams-Carries =
    packet_of refl
      (noise refl (packet_of refl (noise refl (packet_of refl (packet_of refl nothing_more)))))

sixth-IsSealed : IsSealed sixth 1 (two_more ∷ [])
sixth-IsSealed = (refl, tt)

seventh-IsSealed : IsSealed seventh 0 (two_ranges ∷ two_more ∷ [])
seventh-IsSealed = (refl, (refl, tt))

eighth-IsSealed : IsSealed eighth 0 (two_ranges ∷ [])
eighth-IsSealed = (refl, tt)

arriving-packets : oob_packets tree_json tcp arriving ≡ (oob_received listening datagrams).1
unfolding oob_packets packets_from oob_received ldcp_sdk.Network.oob_packet_handler new_network
    verify_oob_packet ldcp_sdk.Location.network_location_eq ldcp_sdk.Device.Block.Packets.oob_packet
    ldcp_sdk.Device.Block.Encoded.le_words ldcp_sdk.Packet.read_uint16 calculate_crc16
    ldcp_sdk.Crc.crc_loop ldcp_sdk.Packet.clear_checksum ldcp_sdk.Crc.crc_step
arriving-packets = refl

arriving-quiet : scan_messages tree_json tcp arriving ≡ []
unfolding scan_messages ldcp_sdk.Session.Receive.is_json_rpc
arriving-quiet = refl

expected-fits : length expected ≤ 32
unfolding packets_from
expected-fits = omega arith

connected-primary : connected.scan_block_queue_primary ≡ []
unfolding new_session open_session ldcp_sdk.Network.connect new_network ldcp_sdk.Network.attempted
connected-primary = refl

connected-oob : connected.scan_block_queue_oob ≡ []
unfolding new_session open_session ldcp_sdk.Network.connect new_network ldcp_sdk.Network.attempted
connected-oob = refl

read_session_frame-datagrams_example :
    (frame : ScanFrame) × (read_session_frame tree_json tree_data tcp connected blank_block
        blank_frame
        (arriving ∷ [])
      ≡ some (
          returned
            (record (receive tree_json tcp connected arriving) {
              scan_block_queue_oob = packets_from eighth 0 (two_ranges ∷ []);
            })
            no_error
            frame
            []))
    × (frame.ranges ≡ joined (λ l. l.ranges) (two_ranges ∷ two_more ∷ []))
    × (frame.intensities ≡ joined (λ l. l.intensities) (two_ranges ∷ two_more ∷ []))
    × (frame.timestamp ≡ 100000)
    × (frame.angular_fov ≡ angular_fov_360deg)
read_session_frame-datagrams_example =
    read_session_frame-datagrams tree_json tcp tree_data sixth seventh 2 0 2 (two_more ∷ [])
      two_ranges (two_more ∷ []) (packets_from eighth 0 (two_ranges ∷ [])) listening datagrams
      connected blank_block blank_frame arriving [] ((refl, refl), tt)
      ((refl, refl), ((refl, refl), tt)) refl sixth-IsSealed seventh-IsSealed
      (packets-verified eighth 0 (two_ranges ∷ []) eighth-IsSealed) datagrams-Carries expected-fits
      connected-primary connected-oob arriving-quiet arriving-packets
