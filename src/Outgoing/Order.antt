-- ===== src/Outgoing/Order.antt =====
-- The outgoing queue of NetworkTransport (src/transport.cpp): order, and what an error does to it.
use mathlib.Core.List.{foldl}
use ldcp_sdk.Prelude.{
  ◌≡◌, refl, ap, ◌∙◌, sym, subst, Bool, true, false, List, [], ◌∷◌, ◌++◌, map, append-nil,
  append_assoc, ◌⊎◌, inl, inr,
}
use ldcp_sdk.Outgoing.{
  Outgoing, new_outgoing, write_front, start_if_idle, transmit, written, write_failed,
}

module _ (Message : Type 0) where
  -- A step of the worker thread. A handler runs while its write is outstanding, so an idle
  -- transport has nothing to complete.
  pub data Event : Type 0 where
    transmits : Message → Event
    completes : Event

  unfoldable pub completed : Outgoing Message → Bool → Outgoing Message
  completed s true = written s
  completed s false = s

  unfoldable pub step : Outgoing Message → Event → Outgoing Message
  step s (transmits m) = transmit s m
  step s completes = completed s s.writing

  -- The messages handed over by the events.
  unfoldable pub handed_over : List Event → List Message
  handed_over [] = []
  handed_over (transmits m ∷ es) = m ∷ handed_over es
  handed_over (completes ∷ es) = handed_over es

  unfoldable pub alone : Message → List Message
  alone m = m ∷ []

  -- The state with nothing to write, and the one while `m` is written behind `sent`, each in a
  -- write of its own.
  abbrev pub idle : List Message → Outgoing Message
  idle all = record { queue = []; buffers = []; writing = false; writes = map alone all }

  abbrev pub busy : List Message → List Message → Message → List (List Message) → Outgoing Message
  busy sent rest m writes = record {
    queue = m ∷ rest;
    buffers = m ∷ [];
    writing = true;
    writes = writes;
  }

  abbrev pub IsOrdered : List Message → Outgoing Message → Type 0
  IsOrdered all s =
      (s ≡ idle all)
      ⊎ ((sent rest : List Message) × (m : Message) × (sent ++ (m ∷ rest) ≡ all)
          × (s ≡ busy sent rest m (map alone (sent ++ (m ∷ [])))))

  map_snoc :
      (xs : List Message) (m : Message)
      → map alone xs ++ ((m ∷ []) ∷ []) ≡ map alone (xs ++ (m ∷ []))
  unfolding alone
  map_snoc [] m = refl
  map_snoc (x ∷ xs) m = ap (λ (t : List (List Message)). (x ∷ []) ∷ t) (map_snoc xs m)

  transmit-IsOrdered :
      (all : List Message) (s : Outgoing Message) (m : Message)
      → IsOrdered all s
      → IsOrdered (all ++ (m ∷ [])) (transmit s m)
  unfolding transmit start_if_idle write_front
  transmit-IsOrdered all s m (inl e) = inr (
    all,
    [],
    m,
    refl,
    ap (λ (x : Outgoing Message). transmit x m) e ∙ ap (busy all [] m) (map_snoc all m),
  )
  transmit-IsOrdered all s m (inr (sent, rest, x, split, e)) = inr (
    sent,
    rest ++ (m ∷ []),
    x,
    sym (append_assoc sent (x ∷ rest) (m ∷ [])) ∙ ap (λ (t : List Message). t ++ (m ∷ [])) split,
    ap (λ (y : Outgoing Message). transmit y m) e,
  )

  unfoldable pub completed_now : Outgoing Message → Outgoing Message
  completed_now s = completed s s.writing

  pub completes-IsOrdered :
      (all : List Message) (s : Outgoing Message)
      → IsOrdered all s
      → IsOrdered all (completed_now s)
  unfolding completed_now completed written write_front
  completes-IsOrdered all s (inl e) = inl (ap completed_now e)
  completes-IsOrdered all s (inr (sent, [], x, split, e)) = inl (ap completed_now e ∙ ap idle split)
  completes-IsOrdered all s (inr (sent, y ∷ rest, x, split, e)) = inr (
    sent ++ (x ∷ []),
    rest,
    y,
    append_assoc sent (x ∷ []) (y ∷ rest) ∙ split,
    ap completed_now e ∙ ap (busy (sent ++ (x ∷ [])) rest y) (map_snoc (sent ++ (x ∷ [])) y),
  )

  runs-IsOrdered :
      (es : List Event) (all : List Message) (s : Outgoing Message)
      → IsOrdered all s
      → IsOrdered (all ++ handed_over es) (foldl step s es)
  unfolding handed_over step completed_now
  runs-IsOrdered [] all s h = subst (λ (l : List Message). IsOrdered l s) (sym (append-nil all)) h
  runs-IsOrdered (transmits m ∷ es) all s h =
      subst (λ (l : List Message). IsOrdered l (foldl step (transmit s m) es))
        (append_assoc all (m ∷ []) (handed_over es))
        (runs-IsOrdered es (all ++ (m ∷ [])) (transmit s m) (transmit-IsOrdered all s m h))
  runs-IsOrdered (completes ∷ es) all s h =
      runs-IsOrdered es all (completed_now s) (completes-IsOrdered all s h)

  -- As long as no write fails, a new transport has written a prefix of the messages that it was
  -- given, in their order and each by itself; a write is outstanding if and only if the queue is
  -- not empty, whose front is then the message that is being written and whose other messages are
  -- the ones not written yet.
  pub outgoing-IsOrdered :
      (es : List Event) → IsOrdered (handed_over es) (foldl step new_outgoing es)
  unfolding new_outgoing
  outgoing-IsOrdered es = runs-IsOrdered es [] _ (inl refl)

  -- With messages in the queue and no write outstanding, nothing starts another write.
  stays_stuck :
      (es : List Event) (s : Outgoing Message) (m : Message) (rest : List Message)
      → s.queue ≡ m ∷ rest
      → s.writing ≡ false
      → (foldl step s es).writes ≡ s.writes
  unfolding step transmit start_if_idle completed
  stays_stuck [] s m rest h w = refl
  stays_stuck (transmits x ∷ es) s m rest h w =
      let s' : Outgoing Message = record s { queue = s.queue ++ (x ∷ []) } in
      ap (λ (q : List Message). (foldl step (start_if_idle s' q) es).writes) h
      ∙ stays_stuck es s' m (rest ++ (x ∷ [])) (ap (λ (q : List Message). q ++ (x ∷ [])) h) w
  stays_stuck (completes ∷ es) s m rest h w =
      ap (λ (b : Bool). (foldl step (completed s b) es).writes) w ∙ stays_stuck es s m rest h w

  -- Once a write has failed with messages in the queue, none is written again, whatever is handed
  -- over afterwards.
  pub write_failed-stuck :
      (m : Message) (rest : List Message) (s : Outgoing Message) (es : List Event)
      → s.queue ≡ m ∷ rest
      → (foldl step (write_failed s) es).writes ≡ s.writes
  unfolding write_failed
  write_failed-stuck m rest s es h = stays_stuck es (record s { writing = false }) m rest h refl
