-- ===== src/Framing/Total.antt =====
-- parseIncomingMessage returns on every input (src/transport.cpp): each round of its loop takes at
-- least a byte, so the fuel of the model is enough.
use ldcp_sdk.Prelude.{
  ℕ, zero, suc, ◌+◌, ◌-◌, ◌*◌, ◌<◌, ◌≤◌, ◌≡◌, refl, ap, true, false, List, [], ◌∷◌, Option, none,
  some, arith, length, length-drop, if_keeps, if◌then◌else◌, Bool-cases, Option-cases, inl, inr,
  ◌⊎◌, subst, ◌==◌, Bool,
}
use ldcp_sdk.Prelude.Int.{ℤ, negsuc}
use ldcp_sdk.Framing.{
  JsonText, Parsed, read_prefix, read_header, checksum_from, read_content, read_body, header_loop,
  parse_buffer, finished, checked, parse_incoming_message,
}
use ldcp_sdk.Framing.Stream.{
  Extracted, got, bad, ◌>>=◌, get_char, get_size, read_exactly, skip_space, read_digits,
  read_number, read_signed, negated,
}

skip_space-le : (cs : List ℕ) → length (skip_space cs) ≤ length cs
unfolding skip_space
skip_space-le [] = omega arith
skip_space-le (c ∷ cs) = ground (arith, skip_space-le cs)

-- What an extraction leaves is at most `n` bytes.
abbrev pub Leaves {ℓ} : {A : Type ℓ} → ℕ → Extracted A → Type 0
Leaves n (got a rest) = length rest ≤ n
Leaves n (bad rest) = length rest ≤ n

-- One that succeeds leaves fewer.
abbrev pub Takes {ℓ} : {A : Type ℓ} → ℕ → Extracted A → Type 0
Takes n (got a rest) = length rest < n
Takes n (bad rest) = length rest ≤ n

Leaves-le {ℓ} : {A : Type ℓ} (m n : ℕ) (x : Extracted A) → m ≤ n → Leaves m x → Leaves n x
Leaves-le m n (got a rest) h k = omega arith
Leaves-le m n (bad rest) h k = omega arith

Takes-le {ℓ} : {A : Type ℓ} (m n : ℕ) (x : Extracted A) → m ≤ n → Takes m x → Takes n x
Takes-le m n (got a rest) h k = omega arith
Takes-le m n (bad rest) h k = omega arith

Leaves-lt {ℓ} : {A : Type ℓ} (m n : ℕ) (x : Extracted A) → m < n → Leaves m x → Takes n x
Leaves-lt m n (got a rest) h k = omega arith
Leaves-lt m n (bad rest) h k = omega arith

-- An extraction behind another.
Leaves-then {ℓ κ} :
    {A : Type ℓ} {B : Type κ} (n : ℕ) (x : Extracted A) (f : A → List ℕ → Extracted B)
    → Leaves n x
    → ((a : A) (rest : List ℕ) → Takes (length rest) (f a rest))
    → Takes n (x >>= f)
Leaves-then n (got a rest) f h k = Takes-le (length rest) n (f a rest) h (k a rest)
Leaves-then n (bad rest) f h k = h

Takes-then {ℓ κ} :
    {A : Type ℓ} {B : Type κ} (n : ℕ) (x : Extracted A) (f : A → List ℕ → Extracted B)
    → Takes n x
    → ((a : A) (rest : List ℕ) → Leaves (length rest) (f a rest))
    → Takes n (x >>= f)
Takes-then n (got a rest) f h k = Leaves-lt (length rest) n (f a rest) h (k a rest)
Takes-then n (bad rest) f h k = h

Extracted-cases {ℓ} :
    {A : Type ℓ} (x : Extracted A)
    → ((rest : List ℕ) × (x ≡ bad rest)) ⊎ ((a : A) × (rest : List ℕ) × (x ≡ got a rest))
Extracted-cases (got a rest) = inr (a, rest, refl)
Extracted-cases (bad rest) = inl (rest, refl)

-- The character is tested when it is taken.
tested :
    {A : Type 0} (b : Bool) (a : A) (rest : List ℕ)
    → Leaves (length rest) (if b then got a rest else bad rest)
tested true a rest = omega arith
tested false a rest = omega arith

get_char-Takes : (cs : List ℕ) → Takes (length cs) (get_char cs)
unfolding get_char
get_char-Takes cs = ground (arith, skip_space-le cs)

read_exactly-Leaves : (n : ℕ) (cs : List ℕ) → Leaves (length cs) (read_exactly n cs)
unfolding read_exactly
read_exactly-Leaves zero cs = omega arith
read_exactly-Leaves (suc n) [] = omega arith
read_exactly-Leaves (suc n) (c ∷ cs) = ground (arith, read_exactly-Leaves n cs)

read_digits-le : (v : ℕ) (cs : List ℕ) → length (read_digits v cs).1 ≤ length cs
unfolding read_digits
read_digits-le v [] = omega arith
read_digits-le v (c ∷ cs) = ground (arith, read_digits-le (v * 10 + (c - b'0')) cs)

read_number-Leaves : (sign : ℕ → ℕ) (cs : List ℕ) → Leaves (length cs) (read_number sign cs)
unfolding read_number
read_number-Leaves sign [] = omega arith
read_number-Leaves sign (c ∷ cs) = ground (arith, read_digits-le 0 (c ∷ cs))

get_size-Leaves : (cs : List ℕ) → Leaves (length cs) (get_size cs)
unfolding get_size read_signed
get_size-Leaves cs = Leaves-le _ _ _ (skip_space-le cs) (signed (skip_space cs))
  where
    signed : (cs : List ℕ) → Leaves (length cs) (read_signed cs)
    signed [] = omega arith
    signed (c ∷ cs) =
        let n : ℕ = suc (length cs) in
        if_keeps (Leaves n) (c == b'-')
          (Leaves-le (length cs) n _ (omega arith) (read_number-Leaves negated cs))
          (if_keeps (Leaves n) (c == b'+')
            (Leaves-le (length cs) n _ (omega arith) (read_number-Leaves (λ value. value) cs))
            (read_number-Leaves (λ value. value) (c ∷ cs)))

read_prefix-Takes : (cs : List ℕ) → Takes (length cs) (read_prefix cs)
unfolding read_prefix
read_prefix-Takes cs = Leaves-then (length cs) (get_size cs) _ (get_size-Leaves cs) (λ count rest.
    Takes-then (length rest) (get_char rest) _ (get_char-Takes rest)
      (λ colon rest'. tested _ count rest'))

read_header-Takes : (n : ℕ) (cs : List ℕ) → Takes (length cs) (read_header n cs)
unfolding read_header
read_header-Takes n cs =
    Leaves-then (length cs) (read_exactly n cs) _ (read_exactly-Leaves n cs) (λ header rest.
      Takes-then (length rest) (get_char rest) _ (get_char-Takes rest)
        (λ comma rest'. tested _ header rest'))

module _ {Value : Type 0} (j : JsonText Value) where
  -- The loop ends, and what it leaves is part of the buffer.
  abbrev Ends : ℕ → Option (Parsed Value) → Type 0
  Ends n o = (r : Parsed Value) × (o ≡ some r) × (length r.1 ≤ n)

  read_content-le :
      (expected : ℤ) (count : ℕ) (cs : List ℕ)
      → length (read_content j expected count cs).1 ≤ length cs
  unfolding read_content
  read_content-le expected count cs = ground (arith, j.parse-le cs)

  read_body-le : (expected : ℤ) (cs : List ℕ) → length (read_body j expected cs).1 ≤ length cs
  unfolding read_body
  read_body-le expected cs = elim (Extracted-cases (read_prefix cs)) [
    | inl (rest, e) ↦
        let left : Takes {A = ℕ} (length cs) (bad rest) =
          subst (Takes (length cs)) e (read_prefix-Takes cs) in
        ground (arith, e, left)
    | inr (count, rest, e) ↦
        let left : Takes (length cs) (got count rest) =
          subst (Takes (length cs)) e (read_prefix-Takes cs) in
        ground (arith, e, left, read_content-le expected count rest)
  ]

  header_loop-Ends :
      (fuel : ℕ) (expected : ℤ) (cs : List ℕ)
      → length cs < fuel
      → Ends (length cs) (header_loop j fuel expected cs)
  unfolding header_loop
  header_loop-Ends zero expected cs h = absurd (omega arith)
  header_loop-Ends (suc fuel) expected cs h = elim (Extracted-cases (read_prefix cs)) [
    | inl (rest, e) ↦
        let left : Takes {A = ℕ} (length cs) (bad rest) =
          subst (Takes (length cs)) e (read_prefix-Takes cs) in
        ((none, rest), ground (arith, e), left)
    | inr (count, rest, e) ↦
        let left : Takes (length cs) (got count rest) =
          subst (Takes (length cs)) e (read_prefix-Takes cs) in
        let headers = read_header-Takes count rest in
        elim (Extracted-cases (read_header count rest)) [
          | inl (rest', e') ↦
              let left' : Takes {A = List ℕ} (length rest) (bad rest') =
                subst (Takes (length rest)) e' headers in
              ((none, rest'), ground (arith, e, e'), omega arith)
          | inr (header, rest', e') ↦
              let left' : Takes (length rest) (got header rest') =
                subst (Takes (length rest)) e' headers in
              elim (Bool-cases (count == 0)) [
                | inl z ↦ (
                  read_body j expected rest',
                  ground (arith, e, e', z),
                  omega (arith, read_body-le expected rest'),
                )
                | inr z ↦ elim (Option-cases (checksum_from header expected)) [
                  | inl c ↦ ((none, rest'), ground (arith, e, e', z, c), omega arith)
                  | inr (x, c) ↦
                      let (r, done, le) = header_loop-Ends fuel x rest' (omega arith) in
                      (r, ground (arith, e, e', z, c, done), omega arith)
                ]
              ]
        ]
  ]

  parse_buffer-Ends : (buffer : List ℕ) → Ends (length buffer) (parse_buffer j buffer)
  unfolding parse_buffer
  parse_buffer-Ends [] = header_loop-Ends 1 (negsuc 0) [] (omega arith)
  parse_buffer-Ends (c ∷ cs) =
      if_keeps (Ends (suc (length cs))) (c == b'{') (j.parse (c ∷ cs), refl, j.parse-le (c ∷ cs))
        (header_loop-Ends (suc (suc (length cs))) (negsuc 0) (c ∷ cs) (omega arith))

  -- On every buffer parseIncomingMessage returns, and what it leaves is no longer than the buffer.
  pub parse_incoming_message-returns :
      (len : ℕ) (buffer : List ℕ)
      → (message : Option Value) × (rest : List ℕ) × (parse_incoming_message j len buffer
          ≡ some (message, rest))
        × (length rest ≤ length buffer)
  unfolding parse_incoming_message finished
  parse_incoming_message-returns len buffer =
      let ((message, rest), done, le) = parse_buffer-Ends buffer in
      (
        checked j message,
        _,
        ap (finished j len buffer) done,
        omega (arith, length-drop (len - (length buffer - length rest)) rest),
      )
