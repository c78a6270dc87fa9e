-- ===== src/Device/Block/Encoded.antt =====
-- Measurements as a device sends them: little-endian words, or bytes.
use mathlib.Core.Option
use ldcp_sdk.Prelude.{
  ℕ, ◌+◌, ◌*◌, ◌/◌, ◌%◌, ◌^◌, ◌<◌, ◌≡◌, refl, ap, ◌∙◌, List, [], ◌∷◌, ◌++◌, some, arith, length,
  All,
}
use ldcp_sdk.Device.Block.{words, elems}

abbrev pub IsWord : ℕ → Type 0
IsWord n = n < 65536

unfoldable pub le_word : ℕ → List ℕ → List ℕ
le_word n behind = n % 2 ^ 8 ∷ n / 2 ^ 8 ∷ behind

unfoldable pub le_words : List ℕ → List ℕ
unfolding le_word
le_words [] = []
le_words (n ∷ ns) = le_word n (le_words ns)

pub length-le_words : (ns : List ℕ) → length (le_words ns) ≡ length ns * 2
unfolding le_words
length-le_words [] = refl
length-le_words (n ∷ ns) = omega (arith, length-le_words ns)

pub le_words-byte : (ns : List ℕ) → All IsWord ns → All (λ b. b < 256) (le_words ns)
unfolding le_words
le_words-byte [] h = tt
le_words-byte (n ∷ ns) (h, hs) = (omega arith, (omega arith, le_words-byte ns hs))

pub words-le_words : (ns rest : List ℕ) → words (length ns) (le_words ns ++ rest) ≡ some ns
unfolding words le_words
words-le_words [] rest = refl
words-le_words (n ∷ ns) rest =
    ap (Option.map (λ ws. (n % 2 ^ 8 + n / 2 ^ 8 * 2 ^ 8) ∷ ws)) (words-le_words ns rest)
    ∙ ap (λ m. some (m ∷ ns)) (omega arith)

pub elems-append : (bs rest : List ℕ) → elems (length bs) (bs ++ rest) ≡ some bs
unfolding elems
elems-append [] rest = refl
elems-append (b ∷ bs) rest = ap (Option.map (λ xs. b ∷ xs)) (elems-append bs rest)
