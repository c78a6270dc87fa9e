-- ===== src/Base64/Overrun.antt =====
-- A text with more padding than its last quantum needs: the buffer that the caller makes room for
-- is smaller than what the decoder writes.
use mathlib.Core.List.{reverse, reverse-append}
use ldcp_sdk.Prelude.{
  ℕ, zero, suc, ◌+◌, ◌*◌, ◌/◌, ◌≡◌, refl, ap, ◌∙◌, List, [], ◌∷◌, ◌++◌, append_assoc, append-nil,
  some, All, arith, length, length-append, replicate, length-replicate,
}
use ldcp_sdk.Prelude.Int.{ℤ, pos, sub_ℕ, ◌<ℤ◌}
use ldcp_sdk.Base64.{
  base64_encode, base64_decode, decode_loop, decode_finish, trailing_padding,
  calculate_base64_decoded_length,
}
use ldcp_sdk.Base64.Digits.{digit_0, digit_1, digit_2, digit_3}
use ldcp_sdk.Base64.RoundTrip.{at, IsByte, decode_loop-quantum}
use ldcp_sdk.Base64.Length.{length-encode_upto, trailing_padding-encode, padding}

abbrev equals_signs : ℕ → List ℕ
equals_signs k = replicate k b'='

-- Whole quanta are decoded whatever follows them.
decode_loop-whole :
    (n : ℕ) (bytes dest rest : List ℕ)
    → All IsByte bytes
    → length bytes ≡ n * 3
    → decode_loop (at 0 0 dest) (base64_encode bytes ++ rest)
      ≡ decode_loop (at 0 0 (dest ++ bytes)) rest
unfolding base64_encode
decode_loop-whole n [] dest rest h e = rw append-nil
decode_loop-whole n (a ∷ []) dest rest h e = absurd (omega arith)
decode_loop-whole n (a ∷ b ∷ []) dest rest h e = absurd (omega arith)
decode_loop-whole zero (a ∷ b ∷ c ∷ more) dest rest h e = absurd (omega arith)
decode_loop-whole (suc n) (a ∷ b ∷ c ∷ more) dest rest h e =
    rw (digit_0 a h.0, digit_1 a b h.0 h.1.0, digit_2 b c h.1.0 h.1.1.0, digit_3 c)
      (decode_loop-quantum a b c dest _ h.0 h.1.0 h.1.1.0
        ∙ decode_loop-whole n more (dest ++ (a ∷ b ∷ c ∷ [])) rest h.1.1.1 (omega arith)
        ∙ ap (λ (t : List ℕ). decode_loop (at 0 0 t) rest)
            (append_assoc dest (a ∷ b ∷ c ∷ []) more))

decode-padded :
    (n k : ℕ) (bytes : List ℕ)
    → All IsByte bytes
    → length bytes ≡ n * 3
    → base64_decode (base64_encode bytes ++ equals_signs (suc k)) ≡ some bytes
unfolding base64_decode decode_loop decode_finish
decode-padded n k bytes h e = decode_loop-whole n bytes [] (equals_signs (suc k)) h e

trailing_padding-more :
    (k m : ℕ) (xs : List ℕ)
    → trailing_padding (reverse xs) ≡ some m
    → trailing_padding (reverse (xs ++ equals_signs k)) ≡ some (m + k)
trailing_padding-more zero m xs h = let e : m + 0 ≡ m = omega arith in rw (append-nil, e) h
trailing_padding-more (suc k) m xs h =
    let shift : m + suc k ≡ suc m + k = omega arith in
    let one : trailing_padding (reverse (xs ++ (b'=' ∷ []))) ≡ some (suc m) =
      rw reverse-append (unfold trailing_padding in rw h) in
    rw (← append_assoc xs (b'=' ∷ []) (equals_signs k), shift)
      (trailing_padding-more k (suc m) (xs ++ (b'=' ∷ [])) one)

padding-whole : (n : ℕ) (bytes : List ℕ) → length bytes ≡ n * 3 → padding bytes ≡ 0
padding-whole n [] e = refl
padding-whole n (a ∷ []) e = absurd (omega arith)
padding-whole n (a ∷ b ∷ []) e = absurd (omega arith)
padding-whole zero (a ∷ b ∷ c ∷ rest) e = absurd (omega arith)
padding-whole (suc n) (a ∷ b ∷ c ∷ rest) e = padding-whole n rest (omega arith)

room_too_small : (n k : ℕ) → sub_ℕ ((n * 4 + suc k) * 3 / 4) (suc k) <ℤ pos (n * 3)
room_too_small n k = ground arith

-- For any text of n > 0 whole quanta with further padding behind it, the decoder writes all 3 n
-- bytes, and the length computed for the buffer exists and is less than 3 n.
pub decode_overruns :
    (n k : ℕ) (bytes : List ℕ)
    → All IsByte bytes
    → length bytes ≡ suc n * 3
    → let src = base64_encode bytes ++ replicate (suc k) b'=' in
      (base64_decode src ≡ some bytes)
      × ((z : ℤ) × (calculate_base64_decoded_length src ≡ some z) × (z <ℤ pos (length bytes)))
unfolding calculate_base64_decoded_length
decode_overruns n k bytes h e =
    let counted : trailing_padding (reverse (base64_encode bytes ++ equals_signs (suc k)))
        ≡ some (suc k) =
      trailing_padding-more (suc k) 0 (base64_encode bytes) (
        trailing_padding-encode bytes h (λ z. absurd (omega (arith, ap length z)))
        ∙ ap some (padding-whole (suc n) bytes e))
      ∙ ap some (omega arith) in
    let size : length (base64_encode bytes ++ equals_signs (suc k)) ≡ suc n * 4 + suc k = omega (
      arith,
      length-append (base64_encode bytes) (equals_signs (suc k)),
      length-encode_upto bytes,
      length-replicate {A = ℕ} (suc k) b'=',
    ) in
    (
      decode-padded (suc n) k bytes h e,
      (
        sub_ℕ ((suc n * 4 + suc k) * 3 / 4) (suc k),
        rw (counted, size),
        rw e (room_too_small (suc n) k),
      ),
    )
