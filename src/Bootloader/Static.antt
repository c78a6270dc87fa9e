-- ===== src/Bootloader/Static.antt =====
-- The static text of Bootloader::writeData (src/bootloader.cpp), to which its requests refer until
-- the transport's thread writes them (src/transport.cpp).
use mathlib.Core.List.{foldl}
use ldcp_sdk.Prelude.{
  ℕ, ◌+◌, zero, suc, ◌≡◌, refl, ap, ◌∙◌, sym, true, List, [], ◌∷◌, ◌++◌, Option, none, some, map,
  ◌==◌, if◌then◌else◌, length, drop, replicate, All, arith, ==_refl, append_assoc, append-nil,
}
use ldcp_sdk.Base64.{base64_encode, calculate_base64_encoded_length}
use ldcp_sdk.Base64.Length.{length-base64_encode}
use ldcp_sdk.Outgoing.{Outgoing, new_outgoing, transmit, written, write_front, start_if_idle}
use ldcp_sdk.Outgoing.Order.{completed}

-- The static text; the queue, whose documents hold the length of the text that they refer to; and
-- the texts that the writes took, a list for each write.
pub record Uploading : Type 0 where
  pub encoded : List ℕ
  pub outgoing : Outgoing ℕ
  pub wire : List (List (Option (List ℕ)))

-- What a document with a reference reads. `none`: a text of another length is there, which may stand
-- elsewhere.
unfoldable pub referred : List ℕ → ℕ → Option (List ℕ)
referred encoded n = if n == length encoded then some encoded else none

-- The writes that a step of the thread starts take the text that is there.
unfoldable pub taken : List ℕ → Outgoing ℕ → Uploading → Uploading
taken encoded o s = record {
  encoded = encoded;
  outgoing = o;
  wire = s.wire ++ map (λ ns. map (referred encoded) ns) (drop (length s.outgoing.writes) o.writes);
}

-- Bootloader::writeData, up to the wait for the response
unfoldable pub uploads : Uploading → List ℕ → Uploading
uploads s content =
    let encoded = base64_encode content in taken encoded (transmit s.outgoing (length encoded)) s

-- A write completes, and the next one starts.
unfoldable pub finishes : Uploading → Uploading
finishes s = taken s.encoded (completed ℕ s.outgoing s.outgoing.writing) s

unfoldable pub finish_all : ℕ → Uploading → Uploading
finish_all zero s = s
finish_all (suc n) s = finish_all n (finishes s)

abbrev pub new_uploading : Uploading
new_uploading = record { encoded = []; outgoing = new_outgoing; wire = [] }

-- Their texts have that length.
abbrev AreLong : ℕ → List (List ℕ) → Type 0
AreLong n contents = All (λ c. length (base64_encode c) ≡ n) contents

-- A write under way, `k` documents behind it.
abbrev busy : ℕ → ℕ → List ℕ → List (List ℕ) → List (List (Option (List ℕ))) → Uploading
busy n k encoded writes wire = record {
  encoded = encoded;
  outgoing = record {
    queue = n ∷ replicate k n;
    buffers = n ∷ [];
    writing = true;
    writes = writes;
  };
  wire = wire;
}

drop-append : {A : Type 0} (xs ys : List A) → drop (length xs) (xs ++ ys) ≡ ys
drop-append [] ys = refl
drop-append (x ∷ xs) ys = drop-append xs ys

replicate_snoc : (k n : ℕ) → replicate k n ++ (n ∷ []) ≡ replicate (suc k) n
replicate_snoc zero n = refl
replicate_snoc (suc k) n = ap (λ ns. n ∷ ns) (replicate_snoc k n)

drop-length : {A : Type 0} (xs : List A) → drop (length xs) xs ≡ []
drop-length [] = refl
drop-length (x ∷ xs) = drop-length xs

-- A write of one document that reads the text.
abbrev pub read_as : List ℕ → List (Option (List ℕ))
read_as encoded = some encoded ∷ []

uploads-new :
    (c : List ℕ)
    → uploads new_uploading c
      ≡ busy
          (length (base64_encode c))
          0
          (base64_encode c)
          ((length (base64_encode c) ∷ []) ∷ [])
          (read_as (base64_encode c) ∷ [])
unfolding uploads taken transmit start_if_idle write_front referred new_outgoing
uploads-new c = rw (==_refl (length (base64_encode c))) refl

uploads-busy :
    (n k : ℕ) (encoded c : List ℕ) (writes : List (List ℕ)) (wire : List (List (Option (List ℕ))))
    → length (base64_encode c) ≡ n
    → uploads (busy n k encoded writes wire) c ≡ busy n (suc k) (base64_encode c) writes wire
unfolding uploads taken transmit start_if_idle write_front
uploads-busy n k encoded c writes wire h =
    rw (h, replicate_snoc k n, drop-length writes, append-nil wire) refl

finishes-busy :
    (n k : ℕ) (encoded : List ℕ) (writes : List (List ℕ)) (wire : List (List (Option (List ℕ))))
    → length encoded ≡ n
    → finishes (busy n (suc k) encoded writes wire)
      ≡ busy n k encoded (writes ++ ((n ∷ []) ∷ [])) (wire ++ (read_as encoded ∷ []))
unfolding finishes taken completed written write_front referred
finishes-busy n k encoded writes wire h = rw (drop-append writes ((n ∷ []) ∷ []), h, ==_refl n) refl

-- The calls behind the first one.
uploads_all :
    (n k : ℕ) (cs : List (List ℕ)) (c encoded : List ℕ) (writes : List (List ℕ))
    (wire : List (List (Option (List ℕ))))
    → AreLong n (cs ++ (c ∷ []))
    → foldl uploads (busy n k encoded writes wire) (cs ++ (c ∷ []))
      ≡ busy n (k + suc (length cs)) (base64_encode c) writes wire
uploads_all n k [] c encoded writes wire (h, _) =
    let one : suc k ≡ k + 1 = omega arith in
    uploads-busy n k encoded c writes wire h
    ∙ ap (λ (m : ℕ). busy n m (base64_encode c) writes wire) one
uploads_all n k (x ∷ cs) c encoded writes wire (h, a) =
    let more : suc k + suc (length cs) ≡ k + suc (suc (length cs)) = omega arith in
    ap (λ s. foldl uploads s (cs ++ (c ∷ []))) (uploads-busy n k encoded x writes wire h)
    ∙ uploads_all n (suc k) cs c (base64_encode x) writes wire a
    ∙ ap (λ (m : ℕ). busy n m (base64_encode c) writes wire) more

-- The writes behind the first one.
finish_all-busy :
    (n k : ℕ) (encoded : List ℕ) (writes : List (List ℕ)) (wire : List (List (Option (List ℕ))))
    → length encoded ≡ n
    → (finish_all k (busy n k encoded writes wire)).wire ≡ wire ++ replicate k (read_as encoded)
unfolding finish_all
finish_all-busy n zero encoded writes wire h = sym (append-nil wire)
finish_all-busy n (suc k) encoded writes wire h =
    ap (λ s. (finish_all k s).wire) (finishes-busy n k encoded writes wire h)
    ∙ finish_all-busy n k encoded (writes ++ ((n ∷ []) ∷ [])) (wire ++ (read_as encoded ∷ [])) h
    ∙ append_assoc wire (read_as encoded ∷ []) (replicate k (read_as encoded))

last-AreLong :
    (n : ℕ) (cs : List (List ℕ)) (c : List ℕ)
    → AreLong n (cs ++ (c ∷ []))
    → length (base64_encode c) ≡ n
last-AreLong n [] c (h, _) = h
last-AreLong n (x ∷ cs) c (_, a) = last-AreLong n cs c a

-- The contents have that length.
abbrev pub IsUniform : ℕ → List (List ℕ) → Type 0
IsUniform n contents = All (λ c. length c ≡ n) contents

IsUniform-AreLong :
    (first : List ℕ) (cs : List (List ℕ))
    → IsUniform (length first) cs
    → AreLong (length (base64_encode first)) cs
IsUniform-AreLong first [] u = tt
IsUniform-AreLong first (c ∷ cs) (h, u) = (
  length-base64_encode c ∙ ap calculate_base64_encoded_length h ∙ sym (length-base64_encode first),
  IsUniform-AreLong first cs u,
)

-- Calls of writeData whose contents are equally long, made while the write of the first one is under
-- way: once the writes behind it are done, the first document was sent with its own content, and
-- each of the others with that of the last call.
pub uploads-last :
    (first : List ℕ) (others : List (List ℕ)) (last : List ℕ)
    → IsUniform (length first) (others ++ (last ∷ []))
    → (finish_all
        (suc (length others))
        (foldl uploads new_uploading (first ∷ (others ++ (last ∷ []))))).wire
      ≡ read_as (base64_encode first)
        ∷ replicate (suc (length others)) (read_as (base64_encode last))
uploads-last first others last u =
    let a = IsUniform-AreLong first (others ++ (last ∷ [])) u in
    let n : ℕ = length (base64_encode first) in
    let wire = read_as (base64_encode first) ∷ [] in
    let behind : 0 + suc (length others) ≡ suc (length others) = omega arith in
    ap (λ s. (finish_all (suc (length others)) (foldl uploads s (others ++ (last ∷ [])))).wire)
      (uploads-new first)
    ∙ ap (λ s. (finish_all (suc (length others)) s).wire)
        (uploads_all n 0 others last (base64_encode first) ((n ∷ []) ∷ []) wire a
          ∙ ap (λ (m : ℕ). busy n m (base64_encode last) ((n ∷ []) ∷ []) wire) behind)
    ∙ finish_all-busy n (suc (length others)) (base64_encode last) ((n ∷ []) ∷ []) wire
        (last-AreLong n others last a)
