-- ===== src/Crc/Detection.antt =====
-- What the checksum detects: two messages that differ only in one byte, or only within two
-- neighbouring bytes, never have the same checksum.
use ldcp_sdk.Prelude.{ℕ, ◌/◌, ◌<◌, ◌≡◌, refl, sym, ap, ◌∙◌, List, [], ◌∷◌, ◌++◌, All, arith}
use ldcp_sdk.Prelude.Xor.{xor_cancel_left, xor_cancel_right}
use ldcp_sdk.Crc.{crc_step, crc_loop, calculate_crc16}
use ldcp_sdk.Crc.Bits.{crc_step-lt, crc_step_injective, crc_step_low_injective}

abbrev pub IsByte : ℕ → Type 0
IsByte b = b < 256

pub crc_loop-lt : (c : ℕ) (bytes : List ℕ) → c < 65536 → crc_loop c bytes < 65536
unfolding crc_loop
crc_loop-lt c [] h = h
crc_loop-lt c (b ∷ bs) h = crc_loop-lt (crc_step c b) bs (crc_step-lt c b)

pub calculate_crc16-lt : (bytes : List ℕ) → calculate_crc16 bytes < 65536
unfolding calculate_crc16
calculate_crc16-lt bytes = crc_loop-lt 0xFFFF bytes (omega arith)

crc_loop-append : (c : ℕ) (xs ys : List ℕ) → crc_loop c (xs ++ ys) ≡ crc_loop (crc_loop c xs) ys
unfolding crc_loop
crc_loop-append c [] ys = refl
crc_loop-append c (x ∷ xs) ys = crc_loop-append (crc_step c x) xs ys

-- Reading the same byte keeps two registers apart.
same_byte : (c d b : ℕ) → c < 65536 → d < 65536 → b < 256 → crc_step c b ≡ crc_step d b → c ≡ d
same_byte c d b hc hd hb e =
    let (low, high) = crc_step_injective c d b b hc hd hb hb e in
    omega (arith, low, xor_cancel_right (c / 256) (d / 256) b high)

same_bytes :
    (c d : ℕ) (bytes : List ℕ)
    → c < 65536
    → d < 65536
    → All IsByte bytes
    → crc_loop c bytes ≡ crc_loop d bytes
    → c ≡ d
unfolding crc_loop
same_bytes c d [] hc hd h e = e
same_bytes c d (b ∷ bs) hc hd h e =
    same_byte c d b hc hd h.0
      (same_bytes (crc_step c b) (crc_step d b) bs (crc_step-lt c b) (crc_step-lt d b) h.1 e)

two_steps :
    (c a b a' b' : ℕ)
    → c < 65536
    → a < 256
    → b < 256
    → a' < 256
    → b' < 256
    → crc_step (crc_step c a) b ≡ crc_step (crc_step c a') b'
    → (a ≡ a') × (b ≡ b')
two_steps c a b a' b' hc ha hb ha' hb' e =
    let (low, high) =
      crc_step_injective (crc_step c a) (crc_step c a') b b' (crc_step-lt c a) (crc_step-lt c a') hb
        hb' e in
    let first : a ≡ a' = crc_step_low_injective c a a' hc ha ha' low in
    let same : crc_step c a ≡ crc_step c a' = ap (crc_step c) first in
    (first, xor_cancel_left (crc_step c a / 256) b b' (rw (← same) at high))

-- Two messages of bytes that agree but for two neighbouring bytes, and have the same checksum,
-- agree in those bytes too.
pub calculate_crc16-detects :
    (front : List ℕ) (a b a' b' : ℕ) (back : List ℕ)
    → a < 256
    → b < 256
    → a' < 256
    → b' < 256
    → All IsByte back
    → calculate_crc16 (front ++ (a ∷ b ∷ back)) ≡ calculate_crc16 (front ++ (a' ∷ b' ∷ back))
    → (a ≡ a') × (b ≡ b')
unfolding calculate_crc16 crc_loop
calculate_crc16-detects front a b a' b' back ha hb ha' hb' hs e =
    let c : ℕ = crc_loop 0xFFFF front in
    let hc : c < 65536 = crc_loop-lt 0xFFFF front (omega arith) in
    two_steps c a b a' b' hc ha hb ha' hb' (
      same_bytes _ _ back (crc_step-lt (crc_step c a) b) (crc_step-lt (crc_step c a') b') hs (
        sym (crc_loop-append 0xFFFF front (a ∷ b ∷ back))
        ∙ e
        ∙ crc_loop-append 0xFFFF front (a' ∷ b' ∷ back)))
