-- ===== src/Base64.antt =====
-- include/ldcp/utility.h, the Base64 functions of class Utility. Texts and byte buffers are lists
-- of numbers below 256; what is written to `dest` is the list that a function returns.
pub mod Digits
pub mod RoundTrip
pub mod Length
pub mod Overrun
pub mod Safety
use ldcp_sdk.Prelude.Int.{ℤ, sub_ℕ}
use ldcp_sdk.Prelude.{
  ℕ, zero, suc, ◌+◌, ◌*◌, ◌/◌, ◌^◌, bit_and, bit_or, List, [], ◌∷◌, ◌++◌, Option, none, some, leb,
  ◌==◌, if◌then◌else◌, length, get_or, codes,
}
use mathlib.Core.List.{reverse}
use mathlib.Core.Option

pub calculate_base64_encoded_length : ℕ → ℕ
calculate_base64_encoded_length src_len = (src_len + 2) / 3 * 4

unfoldable pub basis_64 : ℕ → ℕ
basis_64 i = get_or (codes "ABCDEFGHIJKLMNOPQRSTUVWXYZabcdefghijklmnopqrstuvwxyz0123456789+/") i 0

-- Three bytes at a time; the loop leaves at most two for the part behind it.
pub base64_encode : List ℕ → List ℕ
base64_encode [] = []
base64_encode (a ∷ []) =
    basis_64 (bit_and (a / 2 ^ 2) 0x3F) ∷ basis_64 (bit_and a 0x3 * 2 ^ 4) ∷ b'=' ∷ b'=' ∷ []
base64_encode (a ∷ b ∷ []) =
    basis_64 (bit_and (a / 2 ^ 2) 0x3F)
    ∷ basis_64 (bit_or (bit_and a 0x3 * 2 ^ 4) (bit_and b 0xF0 / 2 ^ 4))
    ∷ basis_64 (bit_and b 0xF * 2 ^ 2)
    ∷ b'='
    ∷ []
base64_encode (a ∷ b ∷ c ∷ rest) =
    basis_64 (bit_and (a / 2 ^ 2) 0x3F)
    ∷ basis_64 (bit_or (bit_and a 0x3 * 2 ^ 4) (bit_and b 0xF0 / 2 ^ 4))
    ∷ basis_64 (bit_or (bit_and b 0xF * 2 ^ 2) (bit_and c 0xC0 / 2 ^ 6))
    ∷ basis_64 (bit_and c 0x3F)
    ∷ base64_encode rest

-- The count of '=' from the end on. `none`: the loop reads before the first character.
pub trailing_padding : List ℕ → Option ℕ
trailing_padding [] = none
trailing_padding (c ∷ before) =
    if c == b'=' then Option.map suc (trailing_padding before) else some 0

-- An int, which is negative where the padding outweighs the characters.
pub calculate_base64_decoded_length : List ℕ → Option ℤ
calculate_base64_decoded_length src =
    Option.map (λ padding. sub_ℕ (length src * 3 / 4) padding) (trailing_padding (reverse src))

abbrev lut_table : List ℕ
lut_table =
    64 ∷ 64 ∷ 64 ∷ 64 ∷ 64 ∷ 64 ∷ 64 ∷ 64 ∷ 64 ∷ 64 ∷ 64 ∷ 64 ∷ 64 ∷ 64 ∷ 64 ∷ 64 ∷ 64 ∷ 64 ∷ 64
    ∷ 64 ∷ 64 ∷ 64 ∷ 64 ∷ 64 ∷ 64 ∷ 64 ∷ 64 ∷ 64 ∷ 64 ∷ 64 ∷ 64 ∷ 64 ∷ 64 ∷ 64 ∷ 64 ∷ 64 ∷ 64 ∷ 64
    ∷ 64 ∷ 64 ∷ 64 ∷ 64 ∷ 64 ∷ 62 ∷ 64 ∷ 64 ∷ 64 ∷ 63 ∷ 52 ∷ 53 ∷ 54 ∷ 55 ∷ 56 ∷ 57 ∷ 58 ∷ 59 ∷ 60
    ∷ 61 ∷ 64 ∷ 64 ∷ 64 ∷ 64 ∷ 64 ∷ 64 ∷ 64 ∷ 0 ∷ 1 ∷ 2 ∷ 3 ∷ 4 ∷ 5 ∷ 6 ∷ 7 ∷ 8 ∷ 9 ∷ 10 ∷ 11 ∷ 12
    ∷ 13 ∷ 14 ∷ 15 ∷ 16 ∷ 17 ∷ 18 ∷ 19 ∷ 20 ∷ 21 ∷ 22 ∷ 23 ∷ 24 ∷ 25 ∷ 64 ∷ 64 ∷ 64 ∷ 64 ∷ 64 ∷ 64
    ∷ 26 ∷ 27 ∷ 28 ∷ 29 ∷ 30 ∷ 31 ∷ 32 ∷ 33 ∷ 34 ∷ 35 ∷ 36 ∷ 37 ∷ 38 ∷ 39 ∷ 40 ∷ 41 ∷ 42 ∷ 43 ∷ 44
    ∷ 45 ∷ 46 ∷ 47 ∷ 48 ∷ 49 ∷ 50 ∷ 51 ∷ 64 ∷ 64 ∷ 64 ∷ 64 ∷ 64 ∷ 64 ∷ 64 ∷ 64 ∷ 64 ∷ 64 ∷ 64 ∷ 64
    ∷ 64 ∷ 64 ∷ 64 ∷ 64 ∷ 64 ∷ 64 ∷ 64 ∷ 64 ∷ 64 ∷ 64 ∷ 64 ∷ 64 ∷ 64 ∷ 64 ∷ 64 ∷ 64 ∷ 64 ∷ 64 ∷ 64
    ∷ 64 ∷ 64 ∷ 64 ∷ 64 ∷ 64 ∷ 64 ∷ 64 ∷ 64 ∷ 64 ∷ 64 ∷ 64 ∷ 64 ∷ 64 ∷ 64 ∷ 64 ∷ 64 ∷ 64 ∷ 64 ∷ 64
    ∷ 64 ∷ 64 ∷ 64 ∷ 64 ∷ 64 ∷ 64 ∷ 64 ∷ 64 ∷ 64 ∷ 64 ∷ 64 ∷ 64 ∷ 64 ∷ 64 ∷ 64 ∷ 64 ∷ 64 ∷ 64 ∷ 64
    ∷ 64 ∷ 64 ∷ 64 ∷ 64 ∷ 64 ∷ 64 ∷ 64 ∷ 64 ∷ 64 ∷ 64 ∷ 64 ∷ 64 ∷ 64 ∷ 64 ∷ 64 ∷ 64 ∷ 64 ∷ 64 ∷ 64
    ∷ 64 ∷ 64 ∷ 64 ∷ 64 ∷ 64 ∷ 64 ∷ 64 ∷ 64 ∷ 64 ∷ 64 ∷ 64 ∷ 64 ∷ 64 ∷ 64 ∷ 64 ∷ 64 ∷ 64 ∷ 64 ∷ 64
    ∷ 64 ∷ 64 ∷ 64 ∷ 64 ∷ 64 ∷ 64 ∷ 64 ∷ 64 ∷ 64 ∷ 64 ∷ 64 ∷ 64 ∷ 64 ∷ 64 ∷ 64 ∷ 64 ∷ 64 ∷ 64 ∷ 64
    ∷ 64 ∷ 64 ∷ 64 ∷ 64 ∷ 64 ∷ 64 ∷ 64 ∷ []

unfoldable pub lut : ℕ → ℕ
lut c = get_or lut_table c 64

-- The local variables of the loop, and what it has written.
pub record Decoder : Type 0 where
  pub value : ℕ
  pub count : ℕ
  pub dest : List ℕ

-- The body of the loop for a character other than '='.
pub decode_step : Decoder → ℕ → Decoder
decode_step d c =
    let value : ℕ = bit_or (d.value * 2 ^ 6) (lut c) in
    if d.count + 1 == 4
    then record {
      value = 0;
      count = 0;
      dest =
          d.dest
          ++ (bit_and (value / 2 ^ 16) 0xFF
              ∷ bit_and (value / 2 ^ 8) 0xFF
              ∷ bit_and value 0xFF
              ∷ []);
    }
    else record { value = value; count = d.count + 1; dest = d.dest }

-- What follows the loop.
pub decode_finish : Decoder → List ℕ
decode_finish d =
    if d.count == 3
    then d.dest ++ (bit_and (d.value / 2 ^ 10) 0xFF ∷ bit_and (d.value / 2 ^ 2) 0xFF ∷ [])
    else if d.count == 2
    then d.dest ++ (bit_and (d.value / 2 ^ 4) 0xFF ∷ [])
    else d.dest

-- `none`: a character from 128 on is negative as a signed char, and `lut[c]` lies outside the table.
pub decode_loop : Decoder → List ℕ → Option (List ℕ)
decode_loop d [] = some (decode_finish d)
decode_loop d (c ∷ rest) =
    let more = decode_loop (decode_step d c) rest in
    if c == b'=' then some (decode_finish d) else if leb 128 c then none else more

abbrev decode_start : Decoder
decode_start = record { value = 0; count = 0; dest = [] }

pub base64_decode : List ℕ → Option (List ℕ)
base64_decode src = decode_loop decode_start src
