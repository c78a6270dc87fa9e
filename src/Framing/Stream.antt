-- ===== src/Framing/Stream.antt =====
-- What parseIncomingMessage and encapsulateOutgoingMessage (src/transport.cpp) use of std::istream,
-- std::ostream and std::string, on the bytes of a stream buffer.
use ldcp_sdk.Prelude.{
  ℕ, zero, suc, ◌+◌, ◌-◌, ◌*◌, ◌/◌, ◌%◌, ◌^◌, Bool, true, false, ◌&&◌, ◌||◌, List, [], ◌∷◌, Option,
  none, some, ltb, leb, ◌==◌, if◌then◌else◌,
}
use ldcp_sdk.Prelude.Int.{ℤ, pos, negsuc}
use mathlib.Core.Option

-- An extraction: what it gets, or a stream that is no longer good; and the bytes left in the buffer.
pub data Extracted {ℓ} (A : Type ℓ) : Type ℓ where
  got : A → List ℕ → Extracted A
  bad : List ℕ → Extracted A

infixl 5 ◌>>=◌
abbrev pub ◌>>=◌ {ℓ κ} :
    {A : Type ℓ} {B : Type κ} → Extracted A → (A → List ℕ → Extracted B) → Extracted B
got a rest >>= f = f a rest
bad rest >>= f = bad rest

-- std::isspace
abbrev pub is_space : ℕ → Bool
is_space c = c == 32 || leb 9 c && leb c 13

unfoldable pub skip_space : List ℕ → List ℕ
skip_space [] = []
skip_space (c ∷ cs) = let rest = skip_space cs in if is_space c then rest else c ∷ cs

-- istream >> char
unfoldable pub get_char : List ℕ → Extracted ℕ
unfolding skip_space
get_char cs = elim (skip_space cs) [ [] ↦ bad [] | c ∷ rest ↦ got c rest ]

-- istream.read
unfoldable pub read_exactly : ℕ → List ℕ → Extracted (List ℕ)
read_exactly zero cs = got [] cs
read_exactly (suc n) [] = bad []
read_exactly (suc n) (c ∷ cs) = read_exactly n cs >>= λ more rest. got (c ∷ more) rest

abbrev pub is_digit : ℕ → Bool
is_digit c = leb b'0' c && leb c b'9'

-- The digits at the front, behind a number that is read already.
unfoldable pub read_digits : ℕ → List ℕ → ℕ × List ℕ
read_digits value [] = (value, [])
read_digits value (c ∷ cs) =
    let more = read_digits (value * 10 + (c - b'0')) cs in
    if is_digit c then more else (value, c ∷ cs)

-- Digits, the first of which must be there. From 2^64 on, the extraction fails.
unfoldable pub read_number : (ℕ → ℕ) → List ℕ → Extracted ℕ
read_number sign [] = bad []
read_number sign (c ∷ cs) =
    if is_digit c
    then (let (value, rest) = read_digits 0 (c ∷ cs) in
        if ltb value (2 ^ 64) then got (sign value) rest else bad rest)
    else bad (c ∷ cs)

-- A minus sign negates the number in its unsigned type.
abbrev pub negated : ℕ → ℕ
negated value = (2 ^ 64 - value) % 2 ^ 64

unfoldable pub read_signed : List ℕ → Extracted ℕ
unfolding read_number
read_signed [] = bad []
read_signed (c ∷ cs) =
    if c == b'-'
    then read_number negated cs
    else if c == b'+'
    then read_number (λ value. value) cs
    else read_number (λ value. value) (c ∷ cs)

-- istream >> size_t
unfoldable pub get_size : List ℕ → Extracted ℕ
unfolding skip_space read_signed
get_size cs = read_signed (skip_space cs)

-- ostream << std::dec << size_t. The count of rounds is no less than that of the digits.
unfoldable pub decimal_loop : ℕ → ℕ → List ℕ → List ℕ
decimal_loop zero n behind = behind
decimal_loop (suc rounds) n behind =
    let more = decimal_loop rounds (n / 10) ((b'0' + n % 10) ∷ behind) in
    if ltb n 10 then (b'0' + n) ∷ behind else more

unfoldable pub decimal : ℕ → List ℕ
unfolding decimal_loop
decimal n = decimal_loop (suc n) n []

unfoldable pub hex_digit : ℕ → ℕ
hex_digit d = if ltb d 10 then b'0' + d else b'A' + (d - 10)

-- std::hex << std::setw(4) << std::setfill('0') << std::uppercase of a uint16_t
unfoldable pub hex_word : ℕ → List ℕ
unfolding hex_digit
hex_word n =
    hex_digit (n / 2 ^ 12)
    ∷ hex_digit (n / 2 ^ 8 % 16)
    ∷ hex_digit (n / 2 ^ 4 % 16)
    ∷ hex_digit (n % 16)
    ∷ []

unfoldable pub hex_value : ℕ → Option ℕ
hex_value c =
    if is_digit c
    then some (c - b'0')
    else if leb b'A' c && leb c b'F'
    then some (c - b'A' + 10)
    else if leb b'a' c && leb c b'f'
    then some (c - b'a' + 10)
    else none

unfoldable pub read_hex : ℕ → List ℕ → ℕ
read_hex value [] = value
read_hex value (c ∷ cs) = elim (hex_value c) [
  | none ↦ value
  | some d ↦ read_hex (value * 16 + d) cs
]

-- "0x" or "0X" before a digit is passed over; with no digit there is nothing to convert.
unfoldable pub hex_number : List ℕ → Option ℕ
hex_number [] = none
hex_number (c ∷ []) = Option.map (λ d. d) (hex_value c)
hex_number (c ∷ x ∷ []) = Option.map (λ d. read_hex d (x ∷ [])) (hex_value c)
hex_number (c ∷ x ∷ h ∷ cs) =
    if c == b'0' && (x == b'x' || x == b'X')
    then (elim (hex_value h) [ none ↦ some 0 | some d ↦ some (read_hex d cs) ])
    else Option.map (λ d. read_hex d (x ∷ h ∷ cs)) (hex_value c)

abbrev pub int_of : Bool → ℕ → ℤ
int_of false n = pos n
int_of true zero = pos 0
int_of true (suc n) = negsuc n

unfoldable pub signed_hex : List ℕ → Option ℤ
unfolding hex_number
signed_hex [] = none
signed_hex (c ∷ cs) =
    if c == b'-'
    then Option.map (int_of true) (hex_number cs)
    else if c == b'+'
    then Option.map (int_of false) (hex_number cs)
    else Option.map (int_of false) (hex_number (c ∷ cs))

-- Within the range of int.
abbrev pub in_range : ℤ → Option ℤ
in_range (pos n) = if ltb n (2 ^ 31) then some (pos n) else none
in_range (negsuc n) = if ltb n (2 ^ 31) then some (negsuc n) else none

-- std::stoi(value, nullptr, 16). `none`: it throws.
unfoldable pub stoi_hex : List ℕ → Option ℤ
unfolding skip_space signed_hex
stoi_hex cs = Option.bind (signed_hex (skip_space cs)) in_range

-- find(c), and the two substrings around the character. `none`: there is no such character.
unfoldable pub split_at_char : ℕ → List ℕ → Option (List ℕ × List ℕ)
split_at_char c [] = none
split_at_char c (x ∷ xs) =
    let more = Option.map (λ parts. (x ∷ parts.0, parts.1)) (split_at_char c xs) in
    if x == c then some ([], xs) else more
