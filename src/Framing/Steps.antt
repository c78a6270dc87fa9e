-- ===== src/Framing/Steps.antt =====
-- The parts of a frame (src/transport.cpp), read one by one.
use ldcp_sdk.Prelude.{
  codes, ℕ, suc, ◌+◌, ◌<◌, ◌≤◌, ◌≡◌, refl, ap, ◌∙◌, true, false, List, [], ◌∷◌, ◌++◌, none, some,
  arith, ltb, leb, ◌==◌, length, get_or, length-append, take-length_append, ==_refl, ==-eq-false,
}
use ldcp_sdk.Prelude.Int.{ℤ, pos}
use ldcp_sdk.Crc.{calculate_crc16}
use ldcp_sdk.Framing.{
  JsonText, read_prefix, read_header, checksum_from, read_content, read_body, header_loop,
}
use ldcp_sdk.Framing.Stream.{
  got, get_char, get_size, read_exactly, skip_space, decimal, hex_word, read_signed, read_number,
  read_digits, split_at_char,
}
use ldcp_sdk.Framing.Numbers.{get_size-decimal, stoi_hex-hex_word}

read_prefix-15 : (rest : List ℕ) → read_prefix (codes "15:" ++ rest) ≡ got 15 rest
unfolding read_prefix get_size get_char read_signed read_number read_digits skip_space
read_prefix-15 rest = refl

read_prefix-0 : (rest : List ℕ) → read_prefix (codes "0:" ++ rest) ≡ got 0 rest
unfolding read_prefix get_size get_char read_signed read_number read_digits skip_space
read_prefix-0 rest = refl

abbrev checksum_header : ℕ → List ℕ
checksum_header n = codes "checksum=0x" ++ hex_word n

read_header-checksum :
    (n : ℕ) (rest : List ℕ)
    → read_header 15 (checksum_header n ++ (codes "," ++ rest)) ≡ got (checksum_header n) rest
unfolding read_header read_exactly get_char skip_space hex_word
read_header-checksum n rest = refl

read_header-empty : (rest : List ℕ) → read_header 0 (codes "," ++ rest) ≡ got [] rest
unfolding read_header read_exactly get_char skip_space
read_header-empty rest = refl

checksum_from-checksum :
    (n : ℕ) (expected : ℤ) → n < 65536 → checksum_from (checksum_header n) expected ≡ some (pos n)
unfolding checksum_from split_at_char
checksum_from-checksum n expected h = stoi_hex-hex_word n h

read_prefix-decimal :
    (n : ℕ) (rest : List ℕ) → n ≤ 65535 → read_prefix (decimal n ++ (b':' ∷ rest)) ≡ got n rest
unfolding read_prefix get_char skip_space
read_prefix-decimal n rest h =
    let fits : leb n 65535 ≡ true = ground (arith, h) in
    rw (get_size-decimal n b':' rest (omega arith) refl, fits) refl

get_or-length-append :
    (xs : List ℕ) (c : ℕ) (rest : List ℕ) → get_or (xs ++ (c ∷ rest)) (length xs) 0 ≡ c
get_or-length-append [] c rest = refl
get_or-length-append (x ∷ xs) c rest = get_or-length-append xs c rest

-- A frame that says that its checksum is `n` and its length `len`.
unfoldable pub frame_with : ℕ → ℕ → List ℕ → List ℕ
frame_with n len body =
    codes "15:checksum=0x" ++ (hex_word n ++ (codes ",0:," ++ (decimal len ++ (b':' ∷ body))))

module _ {Value : Type 0} (j : JsonText Value) where
  header_loop-header :
      (fuel count : ℕ) (expected expected' : ℤ) (cs rest rest' header : List ℕ)
      → read_prefix cs ≡ got count rest
      → read_header count rest ≡ got header rest'
      → (count == 0) ≡ false
      → checksum_from header expected ≡ some expected'
      → header_loop j (suc fuel) expected cs ≡ header_loop j fuel expected' rest'
  unfolding header_loop
  header_loop-header fuel count expected expected' cs rest rest' header p q z c =
      ground (arith, p, q, z, c)

  header_loop-end :
      (fuel : ℕ) (expected : ℤ) (cs rest rest' header : List ℕ)
      → read_prefix cs ≡ got 0 rest
      → read_header 0 rest ≡ got header rest'
      → header_loop j (suc fuel) expected cs ≡ some (read_body j expected rest')
  unfolding header_loop
  header_loop-end fuel expected cs rest rest' header p q = ground (arith, p, q)

  read_body-prefix :
      (expected : ℤ) (count : ℕ) (cs rest : List ℕ)
      → read_prefix cs ≡ got count rest
      → read_body j expected cs ≡ read_content j expected count rest
  unfolding read_body
  read_body-prefix expected count cs rest p = ground (arith, p)

  -- The loop passes the two headers of a frame and comes to its content.
  pub header_loop-frame :
      (fuel n len : ℕ) (expected : ℤ) (body : List ℕ)
      → n < 65536
      → len ≤ 65535
      → header_loop j (suc (suc fuel)) expected (frame_with n len body)
        ≡ some (read_content j (pos n) len body)
  unfolding frame_with hex_word
  header_loop-frame fuel n len expected body h k =
      let content : List ℕ = decimal len ++ (b':' ∷ body) in
      header_loop-header (suc fuel) 15 expected (pos n) (frame_with n len body) _
        (codes "0:," ++ content) (checksum_header n)
        (read_prefix-15 (checksum_header n ++ (codes ",0:," ++ content)))
        (read_header-checksum n (codes "0:," ++ content)) refl (checksum_from-checksum n expected h)
      ∙ header_loop-end fuel (pos n) (codes "0:," ++ content) _ content []
          (read_prefix-0 (codes "," ++ content)) (read_header-empty content)
      ∙ ap some (read_body-prefix (pos n) len content body (read_prefix-decimal len body k))

  -- A content with the right checksum and a comma behind it is parsed; with a wrong one it is left.
  pub read_content-right :
      (json rest : List ℕ)
      → 0 < length json
      → read_content j (pos (calculate_crc16 json)) (length json) (json ++ (b',' ∷ rest))
        ≡ j.parse (json ++ (b',' ∷ rest))
  unfolding read_content
  read_content-right json rest h =
      let long : ltb (length (json ++ (b',' ∷ rest))) (length json + 1) ≡ false =
        ground (arith, length-append json (b',' ∷ rest)) in
      let some_bytes : (length json == 0) ≡ false = ground (arith, h) in
      rw
        (
          long,
          take-length_append json (b',' ∷ rest),
          ==_refl (calculate_crc16 json),
          get_or-length-append json b',' rest,
          some_bytes,
        )
        refl

  pub read_content-wrong :
      (n : ℕ) (content rest : List ℕ)
      → (calculate_crc16 content ≡ n → ⊥)
      → read_content j (pos n) (length content) (content ++ rest) ≡ (none, content ++ rest)
  unfolding read_content
  read_content-wrong n content rest h =
      ground (arith, take-length_append content rest, ==-eq-false (calculate_crc16 content) n h)
