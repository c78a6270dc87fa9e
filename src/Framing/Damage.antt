-- ===== src/Framing/Damage.antt =====
-- Frames that parseIncomingMessage rejects (src/transport.cpp).
use ldcp_sdk.Prelude.{
  ℕ, ◌<◌, ◌≤◌, ◌≡◌, false, ap, ◌∙◌, sym, List, [], ◌∷◌, ◌++◌, none, some, arith, length, All,
  length-append, append_assoc, subst,
}
use ldcp_sdk.Prelude.Int.{pos}
use ldcp_sdk.Crc.{calculate_crc16}
use ldcp_sdk.Crc.Detection.{IsByte, calculate_crc16-detects, calculate_crc16-lt}
use ldcp_sdk.Framing.{JsonText, checked, read_content, parse_incoming_message}
use ldcp_sdk.Framing.Steps.{frame_with, read_content-wrong}
use ldcp_sdk.Framing.Line.{has_line_end, line_length, line_length-frame_with}
use ldcp_sdk.Framing.RoundTrip.{frame_end, parse-frame_with}

All-append_right : (xs ys : List ℕ) → All IsByte (xs ++ ys) → All IsByte ys
All-append_right [] ys h = h
All-append_right (x ∷ xs) ys h = All-append_right xs ys h.1

module _ {Value : Type 0} (j : JsonText Value) where
  -- A frame with a checksum that its content does not have is dropped as a whole.
  pub parse-wrong_checksum :
      (n : ℕ) (content rest : List ℕ)
      → n < 65536
      → length content ≤ 65535
      → (calculate_crc16 content ≡ n → ⊥)
      → parse_incoming_message j
          (length (frame_with n (length content) (content ++ frame_end)))
          (frame_with n (length content) ((content ++ frame_end) ++ rest))
        ≡ some (none, rest)
  unfolding checked
  parse-wrong_checksum n content rest h k differ =
      let left : read_content j (pos n) (length content) ((content ++ frame_end) ++ rest)
          ≡ (none, (content ++ frame_end) ++ rest) =
        rw (append_assoc content frame_end rest)
          (read_content-wrong j n content (frame_end ++ rest) differ) in
      parse-frame_with j n (length content) [] (content ++ frame_end) rest none h k left

  -- If the text of an object is changed in two neighbouring bytes behind the headers of its frame,
  -- with no CR LF in the changed text, and the read ends at the first CR LF in the buffer, the frame
  -- is dropped as a whole, and what follows it is left in the buffer, provided that the text is no
  -- longer than the longest message that is accepted.
  pub parse_incoming_message-damaged :
      (v : Value) (front back : List ℕ) (a b a' b' : ℕ) (rest : List ℕ)
      → j.write v ≡ front ++ (a ∷ b ∷ back)
      → length (j.write v) ≤ 65535
      → a' < 256
      → b' < 256
      → ((a ≡ a') × (b ≡ b') → ⊥)
      → has_line_end (front ++ (a' ∷ b' ∷ back)) ≡ false
      → let damaged = (front ++ (a' ∷ b' ∷ back)) ++ frame_end in
        let header = frame_with (calculate_crc16 (j.write v)) (length (j.write v)) in
        let buffer = header (damaged ++ rest) in
        parse_incoming_message j (line_length buffer) buffer ≡ some (none, rest)
  parse_incoming_message-damaged v front back a b a' b' rest e h ha hb differ one_line =
      let same_length : length (j.write v) ≡ length (front ++ (a' ∷ b' ∷ back)) =
        ap (length {A = ℕ}) e
        ∙ omega (arith, length-append front (a ∷ b ∷ back), length-append front (a' ∷ b' ∷ back)) in
      let bytes : All IsByte (front ++ (a ∷ b ∷ back)) = subst (All IsByte) e (j.write-byte v) in
      let (fa, (fb, back_bytes)) = All-append_right front (a ∷ b ∷ back) bytes in
      rw
        (
          line_length-frame_with (calculate_crc16 (j.write v)) (length (j.write v))
              (front ++ (a' ∷ b' ∷ back)) rest one_line,
          same_length,
        )
        (parse-wrong_checksum (calculate_crc16 (j.write v)) (front ++ (a' ∷ b' ∷ back)) rest
          (calculate_crc16-lt (j.write v)) (omega (arith, same_length, h))
          (λ same. differ (
            calculate_crc16-detects front a b a' b' back fa fb ha hb back_bytes
              (sym (same ∙ ap calculate_crc16 e)))))
