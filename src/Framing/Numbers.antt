-- ===== src/Framing/Numbers.antt =====
-- The numbers of a frame (src/transport.cpp) read back as they are written.
use ldcp_sdk.Prelude.{
  ℕ, zero, suc, ◌+◌, ◌-◌, ◌*◌, ◌/◌, ◌%◌, ◌^◌, ◌<◌, ◌≤◌, ◌≡◌, refl, ap, ◌∙◌, sym, true, false, List,
  [], ◌∷◌, ◌++◌, some, arith, ltb, ◌==◌, Bool-cases, inl, inr, lt→ltb,
}
use ldcp_sdk.Prelude.Int.{pos}
use mathlib.Core.Option
use ldcp_sdk.Framing.Stream.{
  got, is_digit, is_space, skip_space, read_digits, read_number, read_signed, get_size,
  decimal_loop, decimal, hex_digit, hex_word, hex_value, read_hex, hex_number, signed_hex, stoi_hex,
}

read_digits-digit :
    (v c : ℕ) (cs : List ℕ)
    → is_digit c ≡ true
    → read_digits v (c ∷ cs) ≡ read_digits (v * 10 + (c - b'0')) cs
unfolding read_digits
read_digits-digit v c cs h = rw h

digit-is_digit : (d : ℕ) → d < 10 → is_digit (b'0' + d) ≡ true
digit-is_digit d h = ground arith

read_digits-decimal_loop :
    (rounds n : ℕ) (behind : List ℕ)
    → n < rounds
    → read_digits 0 (decimal_loop rounds n behind) ≡ read_digits n behind
unfolding decimal_loop
read_digits-decimal_loop zero n behind h = absurd (omega arith)
read_digits-decimal_loop (suc rounds) n behind h = elim (Bool-cases (ltb n 10)) [
  | inl small ↦
      let below : n < 10 = ground (arith, small) in
      rw small (
        read_digits-digit 0 (b'0' + n) behind (digit-is_digit n below)
        ∙ ap (λ (v : ℕ). read_digits v behind) (omega arith))
  | inr large ↦
      let above : 10 ≤ n = ground (arith, large) in
      rw large (
        read_digits-decimal_loop rounds (n / 10) ((b'0' + n % 10) ∷ behind) (omega arith)
        ∙ read_digits-digit (n / 10) (b'0' + n % 10) behind (digit-is_digit (n % 10) (omega arith))
        ∙ ap (λ (v : ℕ). read_digits v behind) (omega arith))
]

-- A written number begins with a digit.
decimal_loop-digit :
    (rounds n : ℕ) (behind : List ℕ)
    → n < rounds
    → (d : ℕ) × (tail : List ℕ) × (decimal_loop rounds n behind ≡ d ∷ tail) × (is_digit d ≡ true)
unfolding decimal_loop
decimal_loop-digit zero n behind h = absurd (omega arith)
decimal_loop-digit (suc rounds) n behind h = elim (Bool-cases (ltb n 10)) [
  | inl small ↦ rw small (_, _, refl, digit-is_digit n (ground (arith, small)))
  | inr large ↦
      let above : 10 ≤ n = ground (arith, large) in
      rw large (decimal_loop-digit rounds (n / 10) ((b'0' + n % 10) ∷ behind) (omega arith))
]

decimal_loop-append :
    (rounds n : ℕ) (behind rest : List ℕ)
    → decimal_loop rounds n behind ++ rest ≡ decimal_loop rounds n (behind ++ rest)
unfolding decimal_loop
decimal_loop-append zero n behind rest = refl
decimal_loop-append (suc rounds) n behind rest = elim (Bool-cases (ltb n 10)) [
  | inl small ↦ rw small refl
  | inr large ↦ rw large (decimal_loop-append rounds (n / 10) ((b'0' + n % 10) ∷ behind) rest)
]

get_size-digits :
    (d n : ℕ) (tail rest : List ℕ)
    → is_digit d ≡ true
    → read_digits 0 (d ∷ tail) ≡ (n, rest)
    → n < 2 ^ 64
    → get_size (d ∷ tail) ≡ got n rest
unfolding get_size read_signed read_number skip_space
get_size-digits d n tail rest h e k =
    let no_space : is_space d ≡ false = ground (arith, h) in
    let no_minus : (d == b'-') ≡ false = ground (arith, h) in
    let no_plus : (d == b'+') ≡ false = ground (arith, h) in
    rw (no_space, no_minus, no_plus, h, e, lt→ltb n (2 ^ 64) k) refl

-- A size is read back up to a character that is no digit.
pub get_size-decimal :
    (n c : ℕ) (rest : List ℕ)
    → n < 2 ^ 64
    → is_digit c ≡ false
    → get_size (decimal n ++ (c ∷ rest)) ≡ got n (c ∷ rest)
unfolding decimal
get_size-decimal n c rest h k =
    let (d, tail, e, digit) = decimal_loop-digit (suc n) n (c ∷ rest) (omega arith) in
    ap get_size (decimal_loop-append (suc n) n [] (c ∷ rest) ∙ e)
    ∙ get_size-digits d n tail (c ∷ rest) digit
        (ap (read_digits 0) (sym e)
          ∙ read_digits-decimal_loop (suc n) n (c ∷ rest) (omega arith)
          ∙ read_digits-stop n c rest k)
        h
  where
    read_digits-stop :
        (v c : ℕ) (cs : List ℕ) → is_digit c ≡ false → read_digits v (c ∷ cs) ≡ (v, c ∷ cs)
    read_digits-stop v c cs h = unfold read_digits in rw h

pub hex_value-hex_digit : (d : ℕ) → d < 16 → hex_value (hex_digit d) ≡ some d
unfolding hex_value hex_digit
hex_value-hex_digit d h = ground arith

pub read_hex-digit :
    (v c d : ℕ) (cs : List ℕ)
    → hex_value c ≡ some d
    → read_hex v (c ∷ cs) ≡ read_hex (v * 16 + d) cs
unfolding read_hex
read_hex-digit v c d cs h = ground (arith, h)

-- The four digits behind a leading one.
read_hex-word :
    (n : ℕ)
    → n < 65536
    → read_hex
        (n / 2 ^ 12)
        (hex_digit (n / 2 ^ 8 % 16) ∷ hex_digit (n / 2 ^ 4 % 16) ∷ hex_digit (n % 16) ∷ [])
      ≡ n
read_hex-word n h =
    read_hex-digit _ _ (n / 2 ^ 8 % 16) _ (hex_value-hex_digit _ (omega arith))
    ∙ read_hex-digit _ _ (n / 2 ^ 4 % 16) _ (hex_value-hex_digit _ (omega arith))
    ∙ read_hex-digit _ _ (n % 16) _ (hex_value-hex_digit _ (omega arith))
    ∙ unfold read_hex in omega arith

hex_number-hex_word : (n : ℕ) → n < 65536 → hex_number (b'0' ∷ b'x' ∷ hex_word n) ≡ some n
unfolding hex_number hex_word
hex_number-hex_word n h =
    let first : hex_value (hex_digit (n / 2 ^ 12)) ≡ some (n / 2 ^ 12) =
      hex_value-hex_digit _ (omega arith) in
    rw first (ap some (read_hex-word n h))

-- A checksum is read back.
pub stoi_hex-hex_word : (n : ℕ) → n < 65536 → stoi_hex (b'0' ∷ b'x' ∷ hex_word n) ≡ some (pos n)
unfolding stoi_hex signed_hex skip_space mathlib.Core.Option.bind
stoi_hex-hex_word n h = rw (hex_number-hex_word n h, lt→ltb n (2 ^ 31) (omega arith)) refl
