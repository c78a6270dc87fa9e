-- ===== src/Base64/RoundTrip.antt =====
-- Decoding gives back what was encoded.
use ldcp_sdk.Prelude.{
  ℕ, ◌+◌, ◌*◌, ◌/◌, ◌%◌, ◌^◌, ◌<◌, ◌≡◌, refl, ap, ◌∙◌, List, [], ◌∷◌, ◌++◌, append-nil,
  append_assoc, some, All, arith,
}
use ldcp_sdk.Prelude.Xor.{or_shifted, and_255}
use ldcp_sdk.Base64.{
  Decoder, basis_64, base64_encode, base64_decode, decode_loop, decode_step, decode_finish,
}
use ldcp_sdk.Base64.Digits.{
  lut-basis_64, digit_0, digit_1, digit_2, digit_3, digit_1_last, digit_2_last,
}

abbrev pub IsByte : ℕ → Type 0
IsByte b = b < 256

abbrev pub at : ℕ → ℕ → List ℕ → Decoder
at value count dest = record { value = value; count = count; dest = dest }

-- The loop goes on past the character of a digit.
pub decode_loop-digit :
    (d : Decoder) (x : ℕ) (rest : List ℕ)
    → x < 64
    → decode_loop d (basis_64 x ∷ rest) ≡ decode_loop (decode_step d (basis_64 x)) rest
unfolding decode_loop
decode_loop-digit d x rest h = let (_, plain, ascii) = lut-basis_64 x h in rw (plain, ascii)

-- Each of the first three digits of a quantum is appended to the value.
pub decode_step-digit :
    (value count x : ℕ) (dest : List ℕ)
    → x < 64
    → count < 3
    → decode_step (at value count dest) (basis_64 x) ≡ at (value * 64 + x) (count + 1) dest
unfolding decode_step
decode_step-digit value count x dest h hc = ground (arith, lut-basis_64 x h, or_shifted 6 value x)

-- The fourth one writes three bytes.
pub decode_step_last :
    (value x : ℕ) (dest : List ℕ)
    → x < 64
    → decode_step (at value 3 dest) (basis_64 x)
      ≡ at 0 0 (
          dest
          ++ ((value * 64 + x) / 65536 % 256
              ∷ (value * 64 + x) / 256 % 256
              ∷ (value * 64 + x) % 256
              ∷ []))
unfolding decode_step
decode_step_last value x dest h =
    let v : ℕ = value * 64 + x in
    rw (
      (lut-basis_64 x h).0,
      or_shifted 6 value x h,
      and_255 (v / 2 ^ 16),
      and_255 (v / 2 ^ 8),
      and_255 v,
    )

-- One round of the loop on each of the first three digits.
read_digit :
    (value count x : ℕ) (dest rest : List ℕ)
    → x < 64
    → count < 3
    → decode_loop (at value count dest) (basis_64 x ∷ rest)
      ≡ decode_loop (at (value * 64 + x) (count + 1) dest) rest
read_digit value count x dest rest h hc =
    decode_loop-digit _ x rest h
    ∙ ap (λ (d : Decoder). decode_loop d rest) (decode_step-digit value count x dest h hc)

abbrev three_bytes : ℕ → List ℕ
three_bytes v = v / 65536 % 256 ∷ v / 256 % 256 ∷ v % 256 ∷ []

read_three :
    (w x y : ℕ) (dest rest : List ℕ)
    → w < 64
    → x < 64
    → y < 64
    → decode_loop (at 0 0 dest) (basis_64 w ∷ basis_64 x ∷ basis_64 y ∷ rest)
      ≡ decode_loop (at (((0 * 64 + w) * 64 + x) * 64 + y) 3 dest) rest
read_three w x y dest rest hw hx hy =
    read_digit 0 0 w dest _ hw (omega arith)
    ∙ read_digit (0 * 64 + w) 1 x dest _ hx (omega arith)
    ∙ read_digit ((0 * 64 + w) * 64 + x) 2 y dest rest hy (omega arith)

quantum :
    (w x y z : ℕ) (dest rest : List ℕ)
    → w < 64
    → x < 64
    → y < 64
    → z < 64
    → decode_loop (at 0 0 dest) (basis_64 w ∷ basis_64 x ∷ basis_64 y ∷ basis_64 z ∷ rest)
      ≡ decode_loop
          (at 0 0 (dest ++ three_bytes ((((0 * 64 + w) * 64 + x) * 64 + y) * 64 + z)))
          rest
quantum w x y z dest rest hw hx hy hz =
    read_three w x y dest _ hw hx hy
    ∙ decode_loop-digit _ z rest hz
    ∙ ap (λ (d : Decoder). decode_loop d rest) (decode_step_last _ z dest hz)

three_bytes-digits :
    (a b c : ℕ)
    → a < 256
    → b < 256
    → c < 256
    → three_bytes (
        (((0 * 64 + a / 4) * 64 + (a % 4 * 16 + b / 16)) * 64 + (b % 16 * 4 + c / 64)) * 64
        + c % 64)
      ≡ a ∷ b ∷ c ∷ []
three_bytes-digits a b c ha hb hc =
    let whole : (((0 * 64 + a / 4) * 64 + (a % 4 * 16 + b / 16)) * 64 + (b % 16 * 4 + c / 64)) * 64
          + c % 64
        ≡ a * 65536 + b * 256 + c =
      omega arith in
    let first : (a * 65536 + b * 256 + c) / 65536 % 256 ≡ a = omega arith in
    let second : (a * 65536 + b * 256 + c) / 256 % 256 ≡ b = omega arith in
    let third : (a * 65536 + b * 256 + c) % 256 ≡ c = omega arith in
    rw (whole, first, second, third)

-- The padding ends the loop.
padding_ends : (d : Decoder) (rest : List ℕ) → decode_loop d (b'=' ∷ rest) ≡ some (decode_finish d)
unfolding decode_loop
padding_ends d rest = refl

finish_two :
    (a b : ℕ) (dest : List ℕ)
    → a < 256
    → b < 256
    → decode_finish (at (((0 * 64 + a / 4) * 64 + (a % 4 * 16 + b / 16)) * 64 + b % 16 * 4) 3 dest)
      ≡ dest ++ (a ∷ b ∷ [])
unfolding decode_finish
finish_two a b dest ha hb =
    let whole : ((0 * 64 + a / 4) * 64 + (a % 4 * 16 + b / 16)) * 64 + b % 16 * 4
        ≡ (a * 256 + b) * 4 =
      omega arith in
    let first : (a * 256 + b) * 4 / 2 ^ 10 % 256 ≡ a = omega arith in
    let second : (a * 256 + b) * 4 / 2 ^ 2 % 256 ≡ b = omega arith in
    rw (
      whole,
      and_255 ((a * 256 + b) * 4 / 2 ^ 10),
      and_255 ((a * 256 + b) * 4 / 2 ^ 2),
      first,
      second,
    )

finish_one :
    (a : ℕ) (dest : List ℕ)
    → a < 256
    → decode_finish (at ((0 * 64 + a / 4) * 64 + a % 4 * 16) 2 dest) ≡ dest ++ (a ∷ [])
unfolding decode_finish
finish_one a dest ha =
    let whole : (0 * 64 + a / 4) * 64 + a % 4 * 16 ≡ a * 16 = omega arith in
    let first : a * 16 / 2 ^ 4 % 256 ≡ a = omega arith in
    rw (whole, and_255 (a * 16 / 2 ^ 4), first)

-- A whole quantum of three bytes is read back, whatever follows it.
pub decode_loop-quantum :
    (a b c : ℕ) (dest rest : List ℕ)
    → a < 256
    → b < 256
    → c < 256
    → decode_loop (at 0 0 dest) (
        basis_64 (a / 4)
        ∷ basis_64 (a % 4 * 16 + b / 16)
        ∷ basis_64 (b % 16 * 4 + c / 64)
        ∷ basis_64 (c % 64)
        ∷ rest)
      ≡ decode_loop (at 0 0 (dest ++ (a ∷ b ∷ c ∷ []))) rest
decode_loop-quantum a b c dest rest ha hb hc =
    quantum (a / 4) (a % 4 * 16 + b / 16) (b % 16 * 4 + c / 64) (c % 64) dest rest (omega arith)
      (omega arith) (omega arith) (omega arith)
    ∙ ap (λ (t : List ℕ). decode_loop (at 0 0 (dest ++ t)) rest) (three_bytes-digits a b c ha hb hc)

decode_loop-encode :
    (bytes dest : List ℕ)
    → All IsByte bytes
    → decode_loop (at 0 0 dest) (base64_encode bytes) ≡ some (dest ++ bytes)
unfolding base64_encode
decode_loop-encode [] dest h = rw append-nil (unfold decode_loop decode_finish in refl)
decode_loop-encode (a ∷ []) dest h =
    rw (digit_0 a h.0, digit_1_last a)
      (read_digit 0 0 (a / 4) dest _ (omega arith) (omega arith)
        ∙ read_digit (0 * 64 + a / 4) 1 (a % 4 * 16) dest _ (omega arith) (omega arith)
        ∙ padding_ends _ _
        ∙ ap some (finish_one a dest h.0))
decode_loop-encode (a ∷ b ∷ []) dest h =
    rw (digit_0 a h.0, digit_1 a b h.0 h.1.0, digit_2_last b)
      (read_three (a / 4) (a % 4 * 16 + b / 16) (b % 16 * 4) dest _ (omega arith) (omega arith)
          (omega arith)
        ∙ padding_ends _ _
        ∙ ap some (finish_two a b dest h.0 h.1.0))
decode_loop-encode (a ∷ b ∷ c ∷ rest) dest h =
    rw (digit_0 a h.0, digit_1 a b h.0 h.1.0, digit_2 b c h.1.0 h.1.1.0, digit_3 c)
      (decode_loop-quantum a b c dest _ h.0 h.1.0 h.1.1.0
        ∙ decode_loop-encode rest (dest ++ (a ∷ b ∷ c ∷ [])) h.1.1.1
        ∙ ap some (append_assoc dest (a ∷ b ∷ c ∷ []) rest))

-- Decoding the encoding of any bytes reads inside the table and gives those bytes back.
pub base64_decode-encode :
    (bytes : List ℕ) → All IsByte bytes → base64_decode (base64_encode bytes) ≡ some bytes
unfolding base64_decode
base64_decode-encode bytes h = decode_loop-encode bytes [] h
