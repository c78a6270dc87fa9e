-- ===== src/Packet/Detection.antt =====
-- NetworkTransport::verifyOobPacket (src/transport.cpp): what the check of an OOB packet excludes.
use ldcp_sdk.Prelude.{
  ℕ, zero, suc, ◌<◌, ◌≤◌, ◌≡◌, refl, ap, ◌∙◌, sym, true, List, [], ◌∷◌, ◌++◌, arith, length, take,
  drop, get_or, All, drop-append_le, append_assoc,
}
use ldcp_sdk.Crc.{calculate_crc16}
use ldcp_sdk.Crc.Detection.{IsByte, calculate_crc16-detects}
use ldcp_sdk.Packet.{read_uint16, clear_checksum, verify_oob_packet}

take-append_le : (n : ℕ) (xs ys : List ℕ) → n ≤ length xs → take n (xs ++ ys) ≡ take n xs
take-append_le zero xs ys h = refl
take-append_le (suc n) [] ys h = absurd (omega arith)
take-append_le (suc n) (x ∷ xs) ys h =
    ap (λ (t : List ℕ). x ∷ t) (take-append_le n xs ys (omega arith))

get_or-append : (xs ys : List ℕ) (i : ℕ) → i < length xs → get_or (xs ++ ys) i 0 ≡ get_or xs i 0
get_or-append [] ys i h = absurd (omega arith)
get_or-append (x ∷ xs) ys zero h = refl
get_or-append (x ∷ xs) ys (suc i) h = get_or-append xs ys i (omega arith)

read_uint16-append :
    (header payload : List ℕ)
    → length header ≡ 16
    → read_uint16 (header ++ payload) 12 ≡ read_uint16 header 12
unfolding read_uint16
read_uint16-append header payload h =
    rw
      (get_or-append header payload 12 (omega arith), get_or-append header payload 13 (omega arith))
      refl

clear_checksum-append :
    (header payload : List ℕ)
    → length header ≡ 16
    → clear_checksum (header ++ payload) ≡ clear_checksum header ++ payload
unfolding clear_checksum
clear_checksum-append header payload h =
    rw
      (
        take-append_le 12 header payload (omega arith),
        drop-append_le 14 header payload (omega arith),
      )
      (sym (append_assoc (take 12 header) (0 ∷ 0 ∷ drop 14 header) payload))

verified_checksum :
    (bytes : List ℕ)
    → verify_oob_packet bytes ≡ true
    → calculate_crc16 (clear_checksum bytes) ≡ read_uint16 bytes 12
unfolding verify_oob_packet
verified_checksum bytes h = ground arith

verified_payload :
    (header payload : List ℕ)
    → length header ≡ 16
    → verify_oob_packet (header ++ payload) ≡ true
    → calculate_crc16 (clear_checksum header ++ payload) ≡ read_uint16 header 12
verified_payload header payload h v =
    sym (ap calculate_crc16 (clear_checksum-append header payload h))
    ∙ verified_checksum (header ++ payload) v
    ∙ read_uint16-append header payload h

-- Two packets with the same header of 16 bytes, whose payloads of bytes agree but for two
-- neighbouring bytes, agree in those bytes too if both pass the check.
pub verify_oob_packet-detects :
    (header front : List ℕ) (a b a' b' : ℕ) (back : List ℕ)
    → length header ≡ 16
    → a < 256
    → b < 256
    → a' < 256
    → b' < 256
    → All IsByte back
    → verify_oob_packet (header ++ (front ++ (a ∷ b ∷ back))) ≡ true
    → verify_oob_packet (header ++ (front ++ (a' ∷ b' ∷ back))) ≡ true
    → (a ≡ a') × (b ≡ b')
verify_oob_packet-detects header front a b a' b' back h ha hb ha' hb' bytes v v' =
    let cleared = clear_checksum header in
    calculate_crc16-detects (cleared ++ front) a b a' b' back ha hb ha' hb' bytes (
      ap calculate_crc16 (append_assoc cleared front (a ∷ b ∷ back))
      ∙ verified_payload header (front ++ (a ∷ b ∷ back)) h v
      ∙ sym (verified_payload header (front ++ (a' ∷ b' ∷ back)) h v')
      ∙ ap calculate_crc16 (sym (append_assoc cleared front (a' ∷ b' ∷ back))))
