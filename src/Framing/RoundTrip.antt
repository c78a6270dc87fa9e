-- ===== src/Framing/RoundTrip.antt =====
-- What encapsulateOutgoingMessage writes, parseIncomingMessage reads (src/transport.cpp).
use mathlib.Core.Option
use ldcp_sdk.Prelude.{
  codes, ℕ, ◌+◌, ◌-◌, ◌<◌, ◌≤◌, ◌≡◌, refl, ap, ◌∙◌, true, List, [], ◌∷◌, ◌++◌, map, Option, some,
  arith, length, drop, All, length-append, drop-length_append, append_assoc,
}
use ldcp_sdk.Prelude.Int.{pos, negsuc}
use ldcp_sdk.Crc.{calculate_crc16}
use ldcp_sdk.Crc.Detection.{calculate_crc16-lt}
use ldcp_sdk.Framing.{
  JsonText, frame, read_content, parse_buffer, checked, finished, parse_incoming_message,
  incoming_message_handler, handle_reads, encapsulate,
}
use ldcp_sdk.Framing.Steps.{frame_with, header_loop-frame, read_content-right}

-- The bytes that end a frame.
abbrev pub frame_end : List ℕ
frame_end = codes ",\r\n"

pub frame-append :
    (json rest : List ℕ)
    → frame json ++ rest
      ≡ frame_with (calculate_crc16 json) (length json) ((json ++ frame_end) ++ rest)
unfolding frame frame_with
frame-append json rest = simp append_assoc

pub frame_with-split :
    (n len : ℕ) (body : List ℕ) → frame_with n len body ≡ frame_with n len [] ++ body
unfolding frame_with
frame_with-split n len body = simp append_assoc

frame_with-frame :
    (json : List ℕ)
    → frame json ≡ frame_with (calculate_crc16 json) (length json) (json ++ frame_end)
unfolding frame frame_with
frame_with-frame json = refl

-- What stands behind the frame is left, however much of the frame the parse has taken.
ignored :
    (front used left rest : List ℕ)
    → drop
        (length (front ++ (used ++ left))
          - (length (front ++ ((used ++ left) ++ rest)) - length (left ++ rest)))
        (left ++ rest)
      ≡ rest
ignored front used left rest =
    let a : length (front ++ (used ++ left)) ≡ length front + (length used + length left) =
      omega (arith, length-append front (used ++ left), length-append used left) in
    let b : length (front ++ ((used ++ left) ++ rest))
        ≡ length front + (length used + length left + length rest) =
      omega (
        arith,
        length-append front ((used ++ left) ++ rest),
        length-append (used ++ left) rest,
        length-append used left,
      ) in
    let c : length (front ++ (used ++ left))
          - (length (front ++ ((used ++ left) ++ rest)) - length (left ++ rest))
        ≡ length left =
      omega (arith, a, b, length-append left rest) in
    rw c (drop-length_append left rest)

module _ {Value : Type 0} (j : JsonText Value) where
  parse_buffer-frame_with :
      (n len : ℕ) (body : List ℕ)
      → n < 65536
      → len ≤ 65535
      → parse_buffer j (frame_with n len body) ≡ some (read_content j (pos n) len body)
  unfolding parse_buffer frame_with
  parse_buffer-frame_with n len body h k = header_loop-frame j _ n len (negsuc 0) body h k

  -- A frame whose content is read up to `left` is taken from the buffer as a whole.
  pub parse-frame_with :
      (n len : ℕ) (used left rest : List ℕ) (message : Option Value)
      → n < 65536
      → len ≤ 65535
      → read_content j (pos n) len ((used ++ left) ++ rest) ≡ (message, left ++ rest)
      → parse_incoming_message j
          (length (frame_with n len (used ++ left)))
          (frame_with n len ((used ++ left) ++ rest))
        ≡ some (checked j message, rest)
  unfolding parse_incoming_message finished
  parse-frame_with n len used left rest message h k e =
      let front = frame_with n len [] in
      let buffer = frame_with n len ((used ++ left) ++ rest) in
      let whole = frame_with n len (used ++ left) in
      let rest_left : drop (length whole - (length buffer - length (left ++ rest))) (left ++ rest)
          ≡ rest =
        rw (frame_with-split n len (used ++ left), frame_with-split n len ((used ++ left) ++ rest))
          (ignored front used left rest) in
      ap (finished j (length whole) buffer)
        (parse_buffer-frame_with n len ((used ++ left) ++ rest) h k ∙ ap some e)
      ∙ ap (λ (r : List ℕ). some (checked j message, r)) rest_left

  checked-object : (v : Value) → j.is_object v ≡ true → checked j (some v) ≡ some v
  unfolding checked
  checked-object v o = rw o refl

  -- A frame of an object that stands in front of a buffer is read as that object, and what follows
  -- the frame is left in the buffer, provided that the text of the object is no longer than the
  -- longest message that is accepted.
  pub parse_incoming_message-encapsulate :
      (v : Value) (rest : List ℕ)
      → j.is_object v ≡ true
      → length (j.write v) ≤ 65535
      → parse_incoming_message j (length (encapsulate j v)) (encapsulate j v ++ rest)
        ≡ some (some v, rest)
  unfolding encapsulate
  parse_incoming_message-encapsulate v rest o h =
      let json = j.write v in
      let (tail, brace) = j.write-brace v o in
      let nonempty : 0 < length json = rw brace (omega arith) in
      let content : read_content j (pos (calculate_crc16 json)) (length json)
            ((json ++ frame_end) ++ rest)
          ≡ (some v, frame_end ++ rest) =
        ap (read_content j (pos (calculate_crc16 json)) (length json))
          (append_assoc json frame_end rest)
        ∙ read_content-right j json (13 ∷ 10 ∷ rest) nonempty
        ∙ j.parse-write v (frame_end ++ rest) o in
      rw (frame-append json rest, frame_with-frame json)
        (parse-frame_with (calculate_crc16 json) (length json) json frame_end rest (some v)
            (calculate_crc16-lt json) h content
          ∙ ap (λ (m : Option Value). some (m, rest)) (checked-object v o))

  handler-encapsulate :
      (v : Value) (rest : List ℕ)
      → j.is_object v ≡ true
      → length (j.write v) ≤ 65535
      → incoming_message_handler j (length (encapsulate j v)) (encapsulate j v ++ rest)
        ≡ some (v ∷ [], rest)
  unfolding incoming_message_handler
  handler-encapsulate v rest o h = ground (arith, parse_incoming_message-encapsulate v rest o h)

  -- The frames of a list of objects.
  unfoldable pub frames : List Value → List ℕ
  frames [] = []
  frames (v ∷ vs) = encapsulate j v ++ frames vs

  -- Frames of objects, one behind the other, are read as these objects in their order, and what
  -- follows them is left in the buffer, provided that no text is longer than the longest message
  -- that is accepted.
  pub handle_reads-frames :
      (vs : List Value) (rest : List ℕ)
      → All (λ v. (j.is_object v ≡ true) × (length (j.write v) ≤ 65535)) vs
      → handle_reads j (map (λ v. length (encapsulate j v)) vs) (frames vs ++ rest)
        ≡ some (vs, rest)
  unfolding handle_reads frames mathlib.Core.Option.bind
  handle_reads-frames [] rest a = refl
  handle_reads-frames (v ∷ vs) rest ((o, h), a) =
      rw
        (
          append_assoc (encapsulate j v) (frames vs) rest,
          handler-encapsulate v (frames vs ++ rest) o h,
          handle_reads-frames vs rest a,
        )
        refl
