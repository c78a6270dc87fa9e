-- ===== src/Outgoing/Delivery.antt =====
-- From the outgoing queue of one transport to the receive handler of another (src/transport.cpp).
use mathlib.Core.List.{foldl, foldl-append}
use ldcp_sdk.Prelude.{
  ℕ, zero, suc, ◌+◌, ◌≤◌, ◌≡◌, refl, ap, ◌∙◌, sym, subst, true, List, [], ◌∷◌, ◌++◌, map, some, inl,
  inr, arith, length, replicate, All, append-nil, length-append,
}
use ldcp_sdk.Outgoing.{Outgoing, new_outgoing, written, write_front}
use ldcp_sdk.Outgoing.Order.{
  Event, completes, completed, step, handed_over, idle, alone, IsOrdered, completed_now,
  completes-IsOrdered, outgoing-IsOrdered,
}
use ldcp_sdk.Framing.{JsonText, encapsulate, handle_reads}
use ldcp_sdk.Framing.RoundTrip.{frames, handle_reads-frames}

module _ (Message : Type 0) where
  completes-shorter :
      (all : List Message) (s : Outgoing Message) (n : ℕ)
      → IsOrdered Message all s
      → length s.queue ≤ suc n
      → length (completed_now Message s).queue ≤ n
  unfolding completed_now completed written write_front
  completes-shorter all s n (inl e) h =
      subst (λ (x : Outgoing Message). length (completed_now Message x).queue ≤ n) (sym e)
        (omega arith)
  completes-shorter all s n (inr (sent, [], m, split, e)) h =
      subst (λ (x : Outgoing Message). length (completed_now Message x).queue ≤ n) (sym e)
        (omega arith)
  completes-shorter all s n (inr (sent, y ∷ rest, m, split, e)) h =
      let queued : length s.queue ≡ suc (suc (length rest)) =
        ap (λ (x : Outgoing Message). length x.queue) e in
      subst (λ (x : Outgoing Message). length (completed_now Message x).queue ≤ n) (sym e)
        (omega (arith, queued))

  -- Once as many writes complete as messages are in the queue, nothing is left to write.
  drained :
      (n : ℕ) (all : List Message) (s : Outgoing Message)
      → IsOrdered Message all s
      → length s.queue ≤ n
      → foldl (step Message) s (replicate n completes) ≡ idle Message all
  unfolding step completed_now
  drained zero all s (inl e) h = e
  drained zero all s (inr (sent, rest, m, split, e)) h =
      let queued : length s.queue ≡ suc (length rest) =
        ap (λ (x : Outgoing Message). length x.queue) e in
      absurd (omega (arith, queued))
  drained (suc n) all s o h =
      drained n all (completed_now Message s) (completes-IsOrdered Message all s o)
        (completes-shorter all s n o h)

  queue-le :
      (all : List Message) (s : Outgoing Message)
      → IsOrdered Message all s
      → length s.queue ≤ length all
  queue-le all s (inl e) =
      subst (λ (x : Outgoing Message). length x.queue ≤ length all) (sym e) (omega arith)
  queue-le all s (inr (sent, rest, m, split, e)) =
      let total : length sent + suc (length rest) ≡ length all =
        sym (length-append sent (m ∷ rest)) ∙ ap (length {A = Message}) split in
      subst (λ (x : Outgoing Message). length x.queue ≤ length all) (sym e) (omega (arith, total))

  -- The events, and then as many completed writes as there are messages.
  unfoldable pub run_out : List (Event Message) → Outgoing Message
  run_out es =
      foldl (step Message) new_outgoing
        (es ++ replicate (length (handed_over Message es)) completes)

  -- As long as no write fails, every message is written in the end: once as many writes complete as
  -- messages were handed over, the queue is empty, and each message has been written by itself, in
  -- their order.
  pub run_out-idle :
      (es : List (Event Message)) → run_out es ≡ idle Message (handed_over Message es)
  unfolding run_out
  run_out-idle es =
      let all = handed_over Message es in
      let s = foldl (step Message) new_outgoing es in
      foldl-append (step Message) new_outgoing es (replicate (length all) completes)
      ∙ drained (length all) all s (outgoing-IsOrdered Message es)
          (queue-le all s (outgoing-IsOrdered Message es))

module _ {Value : Type 0} (j : JsonText Value) where
  -- The bytes of the writes, one behind the other.
  unfoldable pub wire : List (List Value) → List ℕ
  wire [] = []
  wire (write ∷ writes) = frames j write ++ wire writes

  pub wire-alone : (vs : List Value) → wire (map (alone Value) vs) ≡ frames j vs
  unfolding wire alone frames
  wire-alone [] = refl
  wire-alone (v ∷ vs) =
      ap (λ (bytes : List ℕ). bytes ++ wire (map (alone Value) vs)) (append-nil (encapsulate j v))
      ∙ ap (λ (bytes : List ℕ). encapsulate j v ++ bytes) (wire-alone vs)

  -- What one transport is given, in any interleaving with its writes, another one reads off the
  -- bytes that are written: the same objects in the same order, provided that no write fails and
  -- no text is longer than the longest message that is accepted.
  pub handle_reads-wire :
      (es : List (Event Value))
      → All (λ v. (j.is_object v ≡ true) × (length (j.write v) ≤ 65535)) (handed_over Value es)
      → handle_reads j
          (map (λ v. length (encapsulate j v)) (handed_over Value es))
          (wire (run_out Value es).writes)
        ≡ some (handed_over Value es, [])
  handle_reads-wire es h =
      let vs = handed_over Value es in
      let bytes : wire (run_out Value es).writes ≡ frames j vs ++ [] =
        ap (λ (s : Outgoing Value). wire s.writes) (run_out-idle Value es)
        ∙ wire-alone vs
        ∙ sym (append-nil (frames j vs)) in
      rw bytes (handle_reads-frames j vs [] h)
