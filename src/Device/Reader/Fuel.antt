-- ===== src/Device/Reader/Fuel.antt =====
-- The rounds of readScanFrame's loop (src/device.cpp): each reads a block that was there or that is
-- delivered.
use mathlib.Core.List.{foldl}
use ldcp_sdk.Prelude.{
  ℕ, zero, suc, ◌+◌, ◌≤◌, ◌<◌, ◌∙◌, ◌++◌, ◌==◌, ◌||◌, sym, drop, length-drop, length-append, ◌≡◌,
  refl, true, List, [], ◌∷◌, Option, none, some, arith, if_cases, if_keeps, length, ltb,
}
use ldcp_sdk.Error.{is_no_error}
use ldcp_sdk.Json.{Json}
use ldcp_sdk.Json.Data.{JsonData}
use ldcp_sdk.Transport.{Transport}
use ldcp_sdk.Session.{
  State, Event, message, oob_packet, Waited, Polled, wait_for, deliver, scan_block_ready,
  take_block, poll_for_scan_block, push_bounded, scan_block_buffering_count, on_message_received,
  on_oob_packet_received,
}
use ldcp_sdk.Device.Scan.{ScanFrame, Progress}
use ldcp_sdk.Device.Block.{LayeredBlock, BlockRead, read_scan_block}
use ldcp_sdk.Device.Reader.{
  Ended, faulted, Batches, delivered, available, read_loop, read_session_frame, behind_read,
  behind_decode, behind_step, started,
}

length-push_bounded :
    {A : Type 0} (n : ℕ) (xs : List A) (a : A) → length (push_bounded n xs a) ≤ suc (length xs)
unfolding push_bounded
length-push_bounded {A} n xs a =
    if_keeps (λ (ys : List A). length (ys ++ (a ∷ [])) ≤ suc (length xs)) (length xs == n)
      (omega (arith, length-append (drop 1 xs) (a ∷ []), length-drop 1 xs))
      (omega (arith, length-append xs (a ∷ [])))

module _ (j : Json) (t : Transport j.Value) where
  open j use {Value}

  -- The blocks in the queues.
  abbrev queued : State j t → ℕ
  queued s = length s.scan_block_queue_primary + length s.scan_block_queue_oob

  deliver-queued : (s : State j t) (e : Event Value) → queued (deliver j t s e) ≤ suc (queued s)
  unfolding deliver on_message_received on_oob_packet_received
  deliver-queued s (message m) =
      ground (arith, length-push_bounded scan_block_buffering_count s.scan_block_queue_primary m)
  deliver-queued s (oob_packet packet) =
      omega (arith, length-push_bounded scan_block_buffering_count s.scan_block_queue_oob packet)

  receive-queued :
      (batch : List (Event Value)) (s : State j t)
      → queued (foldl (deliver j t) s batch) ≤ length batch + queued s
  receive-queued [] s = omega arith
  receive-queued (e ∷ batch) s =
      omega (arith, receive-queued batch (deliver j t s e), deliver-queued s e)

  -- What is queued behind a wait, with what is still to be delivered.
  left : Waited (State j t) (Event Value) → ℕ
  left w = queued w.state + delivered j t w.later

  wait_for-left :
      (batches : Batches j t) (s : State j t)
      → left (wait_for (scan_block_ready j t) (deliver j t) batches s)
        ≤ queued s + delivered j t batches
  unfolding wait_for scan_block_ready delivered left
  wait_for-left [] s = omega arith
  wait_for-left (batch ∷ batches) s =
      if_keeps
        (λ (w : Waited (State j t) (Event Value)).
          left w ≤ queued s + delivered j t (batch ∷ batches))
        (scan_block_ready j t s).1 (omega arith)
        (omega (arith, wait_for-left batches (foldl (deliver j t) s batch), receive-queued batch s))

  wait_for-nonempty :
      (batches : Batches j t) (s : State j t)
      → let w = wait_for (scan_block_ready j t) (deliver j t) batches s in
        w.ready
        ≡ ltb 0 (length w.state.scan_block_queue_primary)
          || ltb 0 (length w.state.scan_block_queue_oob)
  unfolding wait_for scan_block_ready
  wait_for-nonempty [] s = refl
  wait_for-nonempty (batch ∷ batches) s =
      if_cases
        (λ (w : Waited (State j t) (Event Value)).
          w.ready
          ≡ ltb 0 (length w.state.scan_block_queue_primary)
            || ltb 0 (length w.state.scan_block_queue_oob))
        (scan_block_ready j t s).1 (λ e. sym e)
        (λ e. wait_for-nonempty batches (foldl (deliver j t) s batch))

  take_block-left :
      (q : List Value) (o : List (List ℕ)) (w : Waited (State j t) (Event Value))
      → w.state.scan_block_queue_primary ≡ q
      → w.state.scan_block_queue_oob ≡ o
      → ltb 0 (length q) || ltb 0 (length o) ≡ true
      → suc (available j t (take_block j t q o w).state (take_block j t q o w).later) ≡ left w
  unfolding take_block available left
  take_block-left (m ∷ q) o w e f h = ground (arith, e, f)
  take_block-left [] (packet ∷ o) w e f h = ground (arith, e, f)
  take_block-left [] [] w e f h = ground (arith, h)

  -- A poll that succeeds takes one of the blocks that there can be.
  poll-available :
      (s : State j t) (batches : Batches j t)
      → let p = poll_for_scan_block j t s batches in
        is_no_error p.result ≡ true → available j t p.state p.later < available j t s batches
  unfolding poll_for_scan_block available delivered
  poll-available s batches =
      let w = wait_for (scan_block_ready j t) (deliver j t) batches s in
      if_cases
        (λ (p : Polled (State j t) (Event Value) Value).
          is_no_error p.result ≡ true
          → available j t p.state p.later < queued s + delivered j t batches)
        w.ready
        (λ on e.
          let one =
            take_block-left w.state.scan_block_queue_primary w.state.scan_block_queue_oob w refl
              refl (sym (wait_for-nonempty batches s) ∙ on) in
          omega (arith, one, wait_for-left batches s))
        (λ off e. cc)

module _ {S E : Type 0} where
  -- A call that ends, and is no want of fuel.
  abbrev Ends : Option (Ended S E) → Type 0
  Ends o = (e : Ended S E) × (o ≡ some e)

  behind_step-Ends :
      (next : Progress → Option (Ended S E)) (o : Option Progress)
      → ((p : Progress) → Ends (next p))
      → Ends (behind_step next o)
  unfolding behind_step
  behind_step-Ends next none h = (faulted, refl)
  behind_step-Ends next (some p) h = h p

  behind_decode-Ends :
      (p : Progress) (next : Progress → LayeredBlock → Option (Ended S E)) (o : Option LayeredBlock)
      → ((p' : Progress) (b : LayeredBlock) → Ends (next p' b))
      → Ends (behind_decode p next o)
  unfolding behind_decode
  behind_decode-Ends p next none h = (faulted, refl)
  behind_decode-Ends p next (some b) h = behind_step-Ends (λ p'. next p' b) _ (λ p'. h p' b)

  behind_read-Ends :
      (p : Progress) (next : Progress → LayeredBlock → Option (Ended S E)) (r : BlockRead S E)
      → (is_no_error r.result ≡ true → (p' : Progress) (b : LayeredBlock) → Ends (next p' b))
      → Ends (behind_read p next r)
  unfolding behind_read
  behind_read-Ends p next r h =
      if_cases Ends (is_no_error r.result) (λ ok. behind_decode-Ends p next r.block (h ok))
        (λ no. (_, refl))

module _ (j : Json) (d : JsonData j) (t : Transport j.Value) where
  pub read-available :
      (s : State j t) (b : LayeredBlock) (batches : Batches j t)
      → let r = read_scan_block j d t s b batches in
        is_no_error r.result ≡ true → available j t r.state r.later < available j t s batches
  unfolding read_scan_block
  read-available s b batches ok = poll-available j t s batches ok

  read_loop-Ends :
      (fuel : ℕ) (p : Progress) (b : LayeredBlock) (s : State j t) (batches : Batches j t)
      → available j t s batches < fuel
      → Ends (read_loop j d t fuel p b s batches)
  unfolding read_loop
  read_loop-Ends zero p b s batches h = absurd (omega (arith, h))
  read_loop-Ends (suc fuel) p b s batches h =
      let r = read_scan_block j d t s b batches in
      if_keeps Ends (ltb p.expected_block_index p.block_count)
        (behind_read-Ends p (λ p' b'. read_loop j d t fuel p' b' r.state r.later) r
          (λ ok p' b'.
            read_loop-Ends fuel p' b' r.state r.later
              (omega (arith, h, read-available s b batches ok))))
        (_, refl)

  -- readScanFrame ends, whatever is in the queues and is delivered meanwhile, within one round
  -- more than there are blocks in the queues and deliveries.
  pub read_session_frame-ends :
      (s : State j t) (scan_block : LayeredBlock) (frame : ScanFrame) (batches : Batches j t)
      → (e : Ended (State j t) (Event j.Value)) × (read_session_frame j d t s scan_block frame
            batches
          ≡ some e)
  unfolding read_session_frame
  read_session_frame-ends s scan_block frame batches =
      read_loop-Ends (suc (available j t s batches)) (started frame) scan_block s batches
        (omega arith)
