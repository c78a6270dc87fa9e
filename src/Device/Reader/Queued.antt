-- ===== src/Device/Reader/Queued.antt =====
-- readScanFrame over a session (src/device.cpp) and the loop over a list of blocks; the frame that
-- the queues of a session hold.
use ldcp_sdk.Prelude.{
  ℕ, zero, suc, ◌<◌, ◌≤◌, ◌≡◌, refl, ap, ◌∙◌, sym, subst, Bool, true, false, ◌⊎◌, inl, inr, List,
  [], ◌∷◌, ◌++◌, some, arith, if◌then◌else◌, length, ltb, bind-eq-some,
}
use mathlib.Core.Option.{some-injective}
use ldcp_sdk.Error.{no_error, unknown, is_no_error}
use ldcp_sdk.Json.{Json}
use ldcp_sdk.Json.Data.{JsonData}
use ldcp_sdk.Transport.{Transport}
use ldcp_sdk.Session.{State, oob_data, wait_for, scan_block_ready, take_block, poll_for_scan_block}
use ldcp_sdk.Device.Scan.{
  ScanBlock, ScanFrame, FrameRead, Progress, frame_step, frame_loop, read_scan_frame,
}
use ldcp_sdk.Device.Block.{LayeredBlock, read_scan_block, decoded_data, read_oob}
use ldcp_sdk.Device.Reader.Fuel.{read-available}
use ldcp_sdk.Device.Reader.{
  returned, Batches, available, read_loop, read_session_frame, behind_read, behind_decode,
  behind_step, front_block, started,
}

if-eq :
    {A : Type 0} (b : Bool) {x y z : A}
    → (if b then x else y) ≡ z
    → ((b ≡ true) × (x ≡ z)) ⊎ ((b ≡ false) × (y ≡ z))
if-eq true e = inl (refl, e)
if-eq false e = inr (refl, e)

-- The loop at its end, and before a block that it reads.
frame_loop-nil :
    (p : Progress) (f : FrameRead)
    → frame_loop p [] unknown ≡ some f
    → f.result ≡ no_error
    → (ltb p.expected_block_index p.block_count ≡ false) × (p.frame ≡ f.frame)
unfolding frame_loop
frame_loop-nil p f e ok =
    let same = some-injective _ _ e in
    (
      elim (if-eq (ltb p.expected_block_index p.block_count)
          (ap (λ (g : FrameRead). g.result) same ∙ ok)) [
            | inl (more, wrong) ↦ cc
            | inr (stops, _) ↦ stops
          ],
      ap (λ (g : FrameRead). g.frame) same,
    )

frame_loop-cons :
    (x : ScanBlock) (xs : List ScanBlock) (p : Progress) (f : FrameRead)
    → frame_loop p (x ∷ xs) unknown ≡ some f
    → f.unread ≡ []
    → (p' : Progress) × (ltb p.expected_block_index p.block_count ≡ true)
      × (frame_step p x ≡ some p')
      × (frame_loop p' xs unknown ≡ some f)
unfolding frame_loop
frame_loop-cons x xs p f e all = elim (if-eq (ltb p.expected_block_index p.block_count) e) [
  | inl (more, on) ↦
      let (p', done, rest) = bind-eq-some _ (frame_step p x) on in (p', more, done, rest)
  | inr (stops, end) ↦
      let left = sym (ap (λ (g : FrameRead). g.unread) (some-injective _ _ end)) in cc
]

module _ (j : Json) (d : JsonData j) (t : Transport j.Value) where
  open j use {Value}

  -- Successive calls of readScanBlock hand out these blocks, and leave the session, the block and
  -- the batches as given.
  abbrev pub Reads :
      List ScanBlock
      → State j t
      → LayeredBlock
      → Batches j t
      → State j t × LayeredBlock × Batches j t
      → Type 0
  Reads [] s b batches end = (s, b, batches) ≡ end
  Reads (x ∷ xs) s b batches end =
      let r = read_scan_block j d t s b batches in
      (b' : LayeredBlock) × (is_no_error r.result ≡ true)
      × (r.block ≡ some b')
      × (front_block b' ≡ x)
      × Reads xs r.state b' r.later end

  read_loop-Reads :
      (xs : List ScanBlock) (p : Progress) (s : State j t) (b : LayeredBlock)
      (batches : Batches j t) (end : State j t × LayeredBlock × Batches j t) (f : FrameRead)
      (fuel : ℕ)
      → Reads xs s b batches end
      → frame_loop p xs unknown ≡ some f
      → f.result ≡ no_error
      → f.unread ≡ []
      → length xs < fuel
      → read_loop j d t fuel p b s batches ≡ some (returned end.0 no_error f.frame end.2)
  unfolding read_loop frame_loop behind_read behind_decode behind_step
  read_loop-Reads xs p s b batches end f zero rs e ok all h = absurd (omega (arith, h))
  read_loop-Reads [] p s b batches end f (suc fuel) rs e ok all h =
      let (stops, same) = frame_loop-nil p f e ok in
      rw stops (
        ap
          (λ (q : State j t × LayeredBlock × Batches j t). some (returned q.0 no_error p.frame q.2))
          rs
        ∙ ap (λ (g : ScanFrame). some (returned end.0 no_error g end.2)) same)
  read_loop-Reads (x ∷ xs) p s b batches end f (suc fuel) (b', fine, decoded, same, rs) e ok all h =
      let r = read_scan_block j d t s b batches in
      let (p', more, done, rest) = frame_loop-cons x xs p f e all in
      let step : frame_step p (front_block b') ≡ some p' = ap (frame_step p) same ∙ done in
      rw (more, fine, decoded, step)
        (read_loop-Reads xs p' r.state b' r.later end f fuel rs rest ok all (omega (arith, h)))

  pub Reads-append :
      (xs ys : List ScanBlock) (s : State j t) (b : LayeredBlock) (batches : Batches j t)
      (mid end : State j t × LayeredBlock × Batches j t)
      → Reads xs s b batches mid
      → Reads ys mid.0 mid.1 mid.2 end
      → Reads (xs ++ ys) s b batches end
  Reads-append [] ys s b batches mid end first more =
      subst (λ (q : State j t × LayeredBlock × Batches j t). Reads ys q.0 q.1 q.2 end) (sym first)
        more
  Reads-append (x ∷ xs) ys s b batches mid end (b', fine, decoded, same, first) more =
      let r = read_scan_block j d t s b batches in
      (b', fine, decoded, same, Reads-append xs ys r.state b' r.later mid end first more)

  Reads-available :
      (xs : List ScanBlock) (s : State j t) (b : LayeredBlock) (batches : Batches j t)
      (end : State j t × LayeredBlock × Batches j t)
      → Reads xs s b batches end
      → length xs ≤ available j t s batches
  Reads-available [] s b batches end rs = omega arith
  Reads-available (x ∷ xs) s b batches end (b', fine, decoded, same, rs) =
      let r = read_scan_block j d t s b batches in
      omega
        (arith, Reads-available xs r.state b' r.later end rs, read-available j d t s b batches fine)

  -- Blocks that make a frame, read one by one, make it through the session too.
  pub read_session_frame-Reads :
      (xs : List ScanBlock) (s : State j t) (b : LayeredBlock) (frame : ScanFrame)
      (batches : Batches j t) (end : State j t × LayeredBlock × Batches j t) (f : FrameRead)
      → Reads xs s b batches end
      → read_scan_frame frame xs unknown ≡ some f
      → f.result ≡ no_error
      → f.unread ≡ []
      → read_session_frame j d t s b frame batches ≡ some (returned end.0 no_error f.frame end.2)
  unfolding read_session_frame read_scan_frame
  read_session_frame-Reads xs s b frame batches end f rs e ok all =
      read_loop-Reads xs (started frame) s b batches end f _ rs e ok all
        (omega (arith, Reads-available xs s b batches end rs))

  poll-queued :
      (batches : Batches j t) (s : State j t) (packet : List ℕ) (rest : List (List ℕ))
      → s.scan_block_queue_primary ≡ []
      → s.scan_block_queue_oob ≡ packet ∷ rest
      → poll_for_scan_block j t s batches ≡ record {
        state = record s { scan_block_queue_oob = rest };
        result = no_error;
        block = oob_data packet;
        later = batches;
      }
  unfolding poll_for_scan_block wait_for scan_block_ready take_block
  poll-queued [] s packet rest e f =
      let waits_not : ltb 0 (suc (length rest)) ≡ true = ground arith in rw (e, f, waits_not) refl
  poll-queued (batch ∷ batches) s packet rest e f =
      let waits_not : ltb 0 (suc (length rest)) ≡ true = ground arith in rw (e, f, waits_not) refl

  -- A packet in the queue, where no notification is queued, is the next block.
  pub read-queued :
      (s : State j t) (b b' : LayeredBlock) (batches : Batches j t) (c : ℕ) (packet : List ℕ)
      (rest : List (List ℕ))
      → s.scan_block_queue_primary ≡ []
      → s.scan_block_queue_oob ≡ (c ∷ packet) ∷ rest
      → read_oob (c ∷ packet) ≡ some b'
      → read_scan_block j d t s b batches ≡ record {
        state = record s { scan_block_queue_oob = rest };
        result = no_error;
        block = some b';
        later = batches;
      }
  unfolding read_scan_block decoded_data
  read-queued s b b' batches c packet rest e f g =
      rw (poll-queued batches s (c ∷ packet) rest e f, g) refl
