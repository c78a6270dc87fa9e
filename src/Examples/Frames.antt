-- ===== src/Examples/Frames.antt =====
-- Frames of a small notation at concrete inputs: a number is a brace, ones, and a brace.
use ldcp_sdk.Prelude.{
  ℕ, zero, suc, ◌+◌, ◌<◌, ◌≤◌, ◌≡◌, refl, ap, ◌∙◌, true, List, [], ◌∷◌, ◌++◌, Option, none, some,
  arith, map, codes, ◌==◌, if◌then◌else◌, length, All,
}
use ldcp_sdk.Crc.{calculate_crc16}
use ldcp_sdk.Framing.{JsonText, encapsulate, handle_reads, parse_incoming_message}
use ldcp_sdk.Framing.Steps.{frame_with}
use ldcp_sdk.Framing.RoundTrip.{frame_end}
use ldcp_sdk.Framing.Line.{line_length}
use ldcp_sdk.Framing.Damage.{parse_incoming_message-damaged}
use ldcp_sdk.Framing.Total.{parse_incoming_message-returns}
use ldcp_sdk.Outgoing.Order
use ldcp_sdk.Outgoing.Order.{transmits, completes, handed_over, idle}
use ldcp_sdk.Outgoing.Delivery.{wire, run_out, run_out-idle, handle_reads-wire}

pub ones : ℕ → List ℕ → Option ℕ × List ℕ
ones n [] = (none, [])
ones n (c ∷ cs) =
    let more = ones (suc n) cs in
    if c == b'1' then more else if c == b'}' then (some n, cs) else (none, c ∷ cs)

unfoldable pub parse : List ℕ → Option ℕ × List ℕ
parse [] = (none, [])
parse (c ∷ cs) = if c == b'{' then ones 0 cs else (none, c ∷ cs)

unfoldable pub tally : ℕ → List ℕ
tally zero = b'}' ∷ []
tally (suc n) = b'1' ∷ tally n

pub tally-byte : (n : ℕ) → All (λ b. b < 256) (tally n)
unfolding tally
tally-byte zero = omega arith
tally-byte (suc n) = (omega arith, tally-byte n)

ones-le : (n : ℕ) (cs : List ℕ) → length (ones n cs).1 ≤ length cs
unfolding ones
ones-le n [] = omega arith
ones-le n (c ∷ cs) = ground (arith, ones-le (suc n) cs)

pub parse-le : (cs : List ℕ) → length (parse cs).1 ≤ length cs
unfolding parse
parse-le [] = omega arith
parse-le (c ∷ cs) = ground (arith, ones-le 0 cs)

ones-tally : (n m : ℕ) (rest : List ℕ) → ones m (tally n ++ rest) ≡ (some (m + n), rest)
unfolding ones tally
ones-tally zero m rest = ap (λ (k : ℕ). (some k, rest)) (omega arith)
ones-tally (suc n) m rest = ones-tally n (suc m) rest ∙ ap (λ (k : ℕ). (some k, rest)) (omega arith)

pub parse-tally : (n : ℕ) (rest : List ℕ) → parse (b'{' ∷ (tally n ++ rest)) ≡ (some n, rest)
unfolding parse
parse-tally n rest = ones-tally n 0 rest ∙ ap (λ (k : ℕ). (some k, rest)) (omega arith)

abbrev pub tallies : JsonText ℕ
tallies = record {
  is_object = λ n. true;
  write = λ n. b'{' ∷ tally n;
  parse = parse;
  write-byte = λ n. (omega arith, tally-byte n);
  write-brace = λ n o. (tally n, refl);
  parse-le = parse-le;
  parse-write = λ n rest o. parse-tally n rest;
}

abbrev Fits : ℕ → Type 0
Fits v = (true ≡ true) × (length (b'{' ∷ tally v) ≤ 65535)

two-Fits : Fits 2
unfolding tally
two-Fits = (refl, omega arith)

zero-Fits : Fits 0
unfolding tally
zero-Fits = (refl, omega arith)

-- A message is handed over, its write completes, and another one is handed over.
abbrev two_messages : List (Order.Event ℕ)
two_messages = transmits 2 ∷ completes ∷ transmits 0 ∷ []

handle_reads-wire_example :
    handle_reads tallies
      (map (λ v. length (encapsulate tallies v)) (handed_over ℕ two_messages))
      (wire tallies (run_out ℕ two_messages).writes)
    ≡ some (handed_over ℕ two_messages, [])
unfolding handed_over
handle_reads-wire_example = handle_reads-wire tallies two_messages (two-Fits, (zero-Fits, tt))

run_out-idle_example : run_out ℕ two_messages ≡ idle ℕ (handed_over ℕ two_messages)
run_out-idle_example = run_out-idle ℕ two_messages

abbrev changed : List ℕ
changed = (b'{' ∷ (b'0' ∷ b'0' ∷ b'}' ∷ [])) ++ frame_end

abbrev its_header : List ℕ → List ℕ
its_header = frame_with (calculate_crc16 (b'{' ∷ tally 2)) (length (b'{' ∷ tally 2))

parse_incoming_message-damaged_example :
    parse_incoming_message tallies
      (line_length (its_header (changed ++ (b'{' ∷ []))))
      (its_header (changed ++ (b'{' ∷ [])))
    ≡ some (none, b'{' ∷ [])
unfolding tally ldcp_sdk.Framing.Line.has_line_end
parse_incoming_message-damaged_example =
    parse_incoming_message-damaged tallies 2 (b'{' ∷ []) (b'}' ∷ []) b'1' b'1' b'0' b'0' (b'{' ∷ [])
      refl (omega arith) (omega arith) (omega arith) (λ same. omega (arith, same.0)) refl

parse_incoming_message-returns_example :
    (message : Option ℕ) × (rest : List ℕ) × (parse_incoming_message tallies 3 (codes "15:x")
      ≡ some (message, rest))
    × (length rest ≤ length (codes "15:x"))
parse_incoming_message-returns_example = parse_incoming_message-returns tallies 3 (codes "15:x")
