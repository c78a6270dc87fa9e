-- ===== src/Framing.antt =====
-- The framing of messages: NetworkTransport::encapsulateOutgoingMessage and parseIncomingMessage
-- (src/transport.cpp). A frame is `15:checksum=0xHHHH,0:,LENGTH:JSON,` and a line end. The state is
-- what stands in incoming_message_buffer_.
pub mod Stream
pub mod Numbers
pub mod Steps
pub mod RoundTrip
pub mod Line
pub mod Damage
pub mod Total
use ldcp_sdk.Prelude.{
  ℕ, zero, suc, ◌+◌, ◌-◌, ◌<◌, ◌≤◌, ◌≡◌, Bool, true, false, ◌&&◌, List, [], ◌∷◌, ◌++◌, Option, none,
  some, ltb, leb, ◌==◌, if◌then◌else◌, length, take, drop, get_or, All, eq_bytes, codes,
}
use mathlib.Core.Option
use ldcp_sdk.Prelude.Int.{ℤ, pos, negsuc, eq_ℤ}
use ldcp_sdk.Crc.{calculate_crc16}
use ldcp_sdk.Framing.Stream.{
  Extracted, got, bad, ◌>>=◌, get_char, get_size, read_exactly, decimal, hex_word, stoi_hex,
  split_at_char,
}

-- RapidJSON's writer, and its parser with kParseStopWhenDoneFlag over a stream: the document, if
-- the text is one, and the bytes behind what it has taken. The wrapper of the stream takes no byte
-- before it is asked for.
pub record JsonText (Value : Type 0) : Type 0 where
  pub is_object : Value → Bool
  pub write : Value → List ℕ
  pub parse : List ℕ → Option Value × List ℕ
  pub write-byte : (v : Value) → All (λ b. b < 256) (write v)
  -- The text of an object begins with a brace.
  pub write-brace : (v : Value) → is_object v ≡ true → (tail : List ℕ) × (write v ≡ b'{' ∷ tail)
  pub parse-le : (bytes : List ℕ) → length (parse bytes).1 ≤ length bytes
  pub parse-write :
      (v : Value) (rest : List ℕ) → is_object v ≡ true → parse (write v ++ rest) ≡ (some v, rest)

abbrev pub message_length_max : ℕ
message_length_max = 65535

-- The three buffers of a frame, one behind the other.
unfoldable pub frame : List ℕ → List ℕ
frame json =
    codes "15:checksum=0x"
    ++ (hex_word (calculate_crc16 json)
        ++ (codes ",0:," ++ (decimal (length json) ++ (b':' ∷ (json ++ codes ",\r\n")))))

-- The result of a parse that may throw: the document, if there is one, and the bytes left.
abbrev pub Parsed : Type 0 → Type 0
Parsed Value = Option Value × List ℕ

-- istream >> character_count >> colon, and the test behind it
unfoldable pub read_prefix : List ℕ → Extracted ℕ
read_prefix cs = get_size cs >>= λ count rest. get_char rest >>= λ colon rest'.
    if leb count message_length_max && colon == b':' then got count rest' else bad rest'

-- The header at the front, with its comma.
unfoldable pub read_header : ℕ → List ℕ → Extracted (List ℕ)
read_header count cs = read_exactly count cs >>= λ header rest.
    get_char rest >>= λ comma rest'. if comma == b',' then got header rest' else bad rest'

-- expected_checksum behind a header. `none`: a substr or stoi throws.
unfoldable pub checksum_from : List ℕ → ℤ → Option ℤ
checksum_from header expected = elim (split_at_char b'=' header) [
  | none ↦ none
  | some parts ↦ if eq_bytes parts.0 (codes "checksum") then stoi_hex parts.1 else some expected
]

module _ {Value : Type 0} (j : JsonText Value) where
  abbrev pub nothing_parsed : List ℕ → Parsed Value
  nothing_parsed rest = (none, rest)

  -- The part of the loop where end_of_headers is set, behind the prefix.
  unfoldable pub read_content : ℤ → ℕ → List ℕ → Parsed Value
  read_content expected count cs =
      if ltb (length cs) (count + 1)
      then nothing_parsed cs
      else if eq_ℤ (pos (calculate_crc16 (take count cs))) expected && get_or cs count 0 == b','
      then (if count == 0 then nothing_parsed cs else j.parse cs)
      else nothing_parsed cs

  unfoldable pub read_body : ℤ → List ℕ → Parsed Value
  read_body expected cs = elim (read_prefix cs) [
    | bad rest ↦ nothing_parsed rest
    | got count rest ↦ read_content expected count rest
  ]

  -- The loop, until end_of_headers is set. `none`: out of fuel.
  unfoldable pub header_loop : ℕ → ℤ → List ℕ → Option (Parsed Value)
  header_loop zero expected cs = none
  header_loop (suc fuel) expected cs = elim (read_prefix cs) [
    | bad rest ↦ some (nothing_parsed rest)
    | got count rest ↦ elim (read_header count rest) [
      | bad rest' ↦ some (nothing_parsed rest')
      | got header rest' ↦ elim (count == 0) [
        | true ↦ some (read_body expected rest')
        | false ↦ elim (checksum_from header expected) [
          | none ↦ some (nothing_parsed rest')
          | some expected' ↦ header_loop fuel expected' rest'
        ]
      ]
    ]
  ]

  -- The parse, of a bare document or of a frame.
  unfoldable pub parse_buffer : List ℕ → Option (Parsed Value)
  parse_buffer [] = header_loop 1 (negsuc 0) []
  parse_buffer (c ∷ cs) =
      if c == b'{'
      then some (j.parse (c ∷ cs))
      else header_loop (suc (length (c ∷ cs))) (negsuc 0) (c ∷ cs)

  -- if (message.HasParseError() || !message.IsObject()) message.SetNull()
  unfoldable pub checked : Option Value → Option Value
  checked none = none
  checked (some v) = if j.is_object v then some v else none

  -- What parseIncomingMessage does behind the parse: what is left of the `len` bytes that the read
  -- has reported is ignored.
  unfoldable pub finished : ℕ → List ℕ → Option (Parsed Value) → Option (Option Value × List ℕ)
  finished len buffer none = none
  finished len buffer (some (message, rest)) =
      some (checked message, drop (len - (length buffer - length rest)) rest)

  -- NetworkTransport::parseIncomingMessage: the document, null otherwise, and the buffer afterwards.
  unfoldable pub parse_incoming_message : ℕ → List ℕ → Option (Option Value × List ℕ)
  parse_incoming_message len buffer = finished len buffer (parse_buffer buffer)

  -- NetworkTransport::incomingMessageHandler without an error, for a callback that is set: the
  -- documents that it is called with, and the buffer afterwards.
  unfoldable pub incoming_message_handler : ℕ → List ℕ → Option (List Value × List ℕ)
  incoming_message_handler len buffer = elim (parse_incoming_message len buffer) [
    | none ↦ none
    | some (none, rest) ↦ some ([], rest)
    | some (some v, rest) ↦ some (v ∷ [], rest)
  ]

  -- The reads that follow one another, by the lengths that they report.
  unfoldable pub handle_reads : List ℕ → List ℕ → Option (List Value × List ℕ)
  handle_reads [] buffer = some ([], buffer)
  handle_reads (len ∷ lens) buffer =
      Option.bind (incoming_message_handler len buffer)
        (λ first. Option.map (λ more. (first.0 ++ more.0, more.1)) (handle_reads lens first.1))

  -- NetworkTransport::encapsulateOutgoingMessage
  unfoldable pub encapsulate : Value → List ℕ
  encapsulate v = frame (j.write v)
