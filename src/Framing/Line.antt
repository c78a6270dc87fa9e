-- ===== src/Framing/Line.antt =====
-- How many bytes a read of incomingMessageHandler (src/transport.cpp) reports: async_read_until is
-- documented to end at the first CR LF in the buffer.
use ldcp_sdk.Prelude.{
  codes, ℕ, zero, suc, ◌+◌, ◌/◌, ◌%◌, ◌^◌, ◌≡◌, refl, ap, ◌∙◌, sym, Bool, false, ◌&&◌, ◌||◌, List,
  [], ◌∷◌, ◌++◌, arith, ltb, ◌==◌, if◌then◌else◌, length, All, All-append, length-append, if_cases,
}
use ldcp_sdk.Framing.Stream.{decimal_loop, decimal, hex_digit, hex_word}
use ldcp_sdk.Framing.Steps.{frame_with}
use ldcp_sdk.Framing.RoundTrip.{frame_end, frame_with-split}

-- A CR with an LF behind it.
abbrev pub is_line_end : ℕ → List ℕ → Bool
is_line_end c [] = false
is_line_end c (d ∷ cs) = c == 13 && d == 10

unfoldable pub has_line_end : List ℕ → Bool
has_line_end [] = false
has_line_end (c ∷ cs) = is_line_end c cs || has_line_end cs

-- The bytes up to the first CR LF, with it.
unfoldable pub line_length : List ℕ → ℕ
line_length [] = 0
line_length (c ∷ cs) = let behind = line_length cs in if is_line_end c cs then 2 else suc behind

abbrev IsPlain : List ℕ → Type 0
IsPlain = All (λ c. (c == 13) ≡ false)

plain-is_line_end : (c : ℕ) (cs : List ℕ) → (c == 13) ≡ false → is_line_end c cs ≡ false
plain-is_line_end c [] h = refl
plain-is_line_end c (d ∷ cs) h = rw h refl

line_length-plain :
    (xs ys : List ℕ) → IsPlain xs → line_length (xs ++ ys) ≡ length xs + line_length ys
unfolding line_length
line_length-plain [] ys p = omega arith
line_length-plain (x ∷ xs) ys (h, p) =
    rw (plain-is_line_end x (xs ++ ys) h) (ap suc (line_length-plain xs ys p) ∙ omega arith)

-- A text with no line end, and the end of a frame.
line_length-text :
    (text rest : List ℕ)
    → has_line_end text ≡ false
    → line_length ((text ++ frame_end) ++ rest) ≡ length (text ++ frame_end)
unfolding line_length has_line_end
line_length-text [] rest h = refl
line_length-text (c ∷ []) rest h = ground arith
line_length-text (c ∷ d ∷ cs) rest h = ground (arith, line_length-text (d ∷ cs) rest)

hex_digit-plain : (d : ℕ) → (hex_digit d == 13) ≡ false
unfolding hex_digit
hex_digit-plain d = ground arith

hex_word-IsPlain : (n : ℕ) → IsPlain (hex_word n)
unfolding hex_word
hex_word-IsPlain n = (
  hex_digit-plain (n / 2 ^ 12),
  (
    hex_digit-plain (n / 2 ^ 8 % 16),
    (hex_digit-plain (n / 2 ^ 4 % 16), (hex_digit-plain (n % 16), tt)),
  ),
)

digit-plain : (d : ℕ) → ((b'0' + d) == 13) ≡ false
digit-plain d = ground arith

decimal_loop-IsPlain :
    (rounds n : ℕ) (behind : List ℕ) → IsPlain behind → IsPlain (decimal_loop rounds n behind)
unfolding decimal_loop
decimal_loop-IsPlain zero n behind p = p
decimal_loop-IsPlain (suc rounds) n behind p =
    if_cases IsPlain (ltb n 10) (λ small. (digit-plain n, p))
      (λ large.
        decimal_loop-IsPlain rounds (n / 10) ((b'0' + n % 10) ∷ behind) (digit-plain (n % 10), p))

header-IsPlain : (n len : ℕ) → IsPlain (frame_with n len [])
unfolding frame_with decimal
header-IsPlain n len =
    let decimal_part = decimal_loop-IsPlain (suc len) len [] tt in
    let content : IsPlain (codes ",0:," ++ (decimal len ++ (b':' ∷ []))) = (
      refl,
      (
        refl,
        (
          refl,
          (
            refl,
            All-append (λ c. (c == 13) ≡ false) (decimal len) (b':' ∷ []) decimal_part (refl, tt),
          ),
        ),
      ),
    ) in
    All-append (λ c. (c == 13) ≡ false) (codes "15:checksum=0x") _
      (
        refl,
        (
          refl,
          (
            refl,
            (
              refl,
              (refl, (refl, (refl, (refl, (refl, (refl, (refl, (refl, (refl, (refl, tt)))))))))),
            ),
          ),
        ),
      )
      (All-append (λ c. (c == 13) ≡ false) (hex_word n) _ (hex_word-IsPlain n) content)

-- A read of a frame ends at its end, if no CR LF stands in its text.
pub line_length-frame_with :
    (n len : ℕ) (text rest : List ℕ)
    → has_line_end text ≡ false
    → line_length (frame_with n len ((text ++ frame_end) ++ rest))
      ≡ length (frame_with n len (text ++ frame_end))
line_length-frame_with n len text rest h =
    let front = frame_with n len [] in
    ap line_length (frame_with-split n len ((text ++ frame_end) ++ rest))
    ∙ line_length-plain front ((text ++ frame_end) ++ rest) (header-IsPlain n len)
    ∙ ap (λ k. length front + k) (line_length-text text rest h)
    ∙ sym (length-append front (text ++ frame_end))
    ∙ ap (length {A = ℕ}) (sym (frame_with-split n len (text ++ frame_end)))
