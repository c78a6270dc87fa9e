-- ===== src/Examples/Codecs.antt =====
-- Checksum and Base64.
use ldcp_sdk.Prelude.{
  ℕ, suc, ◌*◌, ◌/◌, ◌≤◌, ◌≡◌, refl, List, [], ◌∷◌, ◌++◌, some, length, arith, true,
}
use ldcp_sdk.Prelude.Int.{ℤ, pos, ◌<ℤ◌}
use ldcp_sdk.Crc.{calculate_crc16, crc_loop, crc_step}
use ldcp_sdk.Crc.Reference.{reference_loop, calculate_crc16-reference}
use ldcp_sdk.Packet.{read_uint16, clear_checksum, verify_oob_packet}
use ldcp_sdk.Packet.Detection.{verify_oob_packet-detects}
use mathlib.Core.List.{foldl}
use ldcp_sdk.Outgoing.{Outgoing, new_outgoing, write_failed}
use ldcp_sdk.Outgoing.Order.{Event, transmits, completes, step, busy, write_failed-stuck}
use ldcp_sdk.Base64.{base64_encode, base64_decode, calculate_base64_decoded_length}
use ldcp_sdk.Base64.RoundTrip.{base64_decode-encode}
use ldcp_sdk.Base64.Overrun.{decode_overruns}
use ldcp_sdk.Base64.Safety.{base64_decode_bounded}

-- "123456789" and "hello"
abbrev digits : List ℕ
digits = 0x31 ∷ 0x32 ∷ 0x33 ∷ 0x34 ∷ 0x35 ∷ 0x36 ∷ 0x37 ∷ 0x38 ∷ 0x39 ∷ []

abbrev hello : List ℕ
hello = 0x68 ∷ 0x65 ∷ 0x6C ∷ 0x6C ∷ 0x6F ∷ []

abbrev six : List ℕ
six = 0x41 ∷ 0x42 ∷ 0x43 ∷ 0x44 ∷ 0x45 ∷ 0x46 ∷ []

calculate_crc16-reference_example : calculate_crc16 digits ≡ reference_loop 0xFFFF digits
calculate_crc16-reference_example = calculate_crc16-reference digits (omega arith)

base64_decode-encode_example : base64_decode (base64_encode hello) ≡ some hello
base64_decode-encode_example = base64_decode-encode hello (omega arith)

base64_decode_bounded_example :
    (out : List ℕ) × (base64_decode digits ≡ some out) × (length out ≤ 9 * 3 / 4)
base64_decode_bounded_example = base64_decode_bounded digits (omega arith)

-- "QUJDREVG=", six bytes with one '=' too many.
decode_overruns_example :
    (base64_decode (base64_encode six ++ (b'=' ∷ [])) ≡ some six)
    × ((z : ℤ) × (calculate_base64_decoded_length (base64_encode six ++ (b'=' ∷ [])) ≡ some z)
        × (z <ℤ pos 6))
decode_overruns_example = decode_overruns 1 0 six (omega arith) refl

-- The header of a packet with the payload 1, 2, 3.
abbrev packet_header : List ℕ
packet_header = 255 ∷ 255 ∷ 0 ∷ 0 ∷ 0 ∷ 8 ∷ 1 ∷ 0 ∷ 0 ∷ 0 ∷ 0 ∷ 0 ∷ 57 ∷ 207 ∷ 0 ∷ 0 ∷ []

packet-verified : verify_oob_packet (packet_header ++ (1 ∷ 2 ∷ 3 ∷ [])) ≡ true
unfolding verify_oob_packet clear_checksum read_uint16 calculate_crc16 crc_loop crc_step
packet-verified = refl

verify_oob_packet-detects_example : (1 ≡ suc 0) × (2 ≡ suc 1)
verify_oob_packet-detects_example =
    verify_oob_packet-detects packet_header [] 1 2 1 2 (3 ∷ []) refl (omega arith) (omega arith)
      (omega arith) (omega arith) (omega arith, tt) packet-verified packet-verified

abbrev pushes : List (Event ℕ)
pushes = transmits 7 ∷ transmits 8 ∷ completes ∷ transmits 9 ∷ []

abbrev after_pushes : Outgoing ℕ
after_pushes = foldl (step ℕ) new_outgoing pushes

-- Message 8 is being written, and 9 waits.
abbrev in_flight : Outgoing ℕ
in_flight = busy ℕ (7 ∷ []) (9 ∷ []) 8 ((7 ∷ []) ∷ (8 ∷ []) ∷ [])

write_failed-stuck_example :
    (foldl (step ℕ) (write_failed in_flight) (transmits 5 ∷ [])).writes ≡ (7 ∷ []) ∷ (8 ∷ []) ∷ []
write_failed-stuck_example = write_failed-stuck ℕ 8 (9 ∷ []) in_flight (transmits 5 ∷ []) refl
