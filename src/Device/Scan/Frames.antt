-- ===== src/Device/Scan/Frames.antt =====
-- Device::readScanFrame (src/device.cpp): which frame a stream of blocks makes.
use ldcp_sdk.Prelude.{
  suc, ◌+◌, ◌*◌, ◌<◌, ◌≡◌, refl, ap, ◌∙◌, sym, false, List, [], ◌∷◌, ◌++◌, ℕ, some, length, arith,
  All, append_assoc,
}
use ldcp_sdk.Prelude.Int.{pos, eq_ℤ}
use ldcp_sdk.Error.{ErrorCode, no_error}
use ldcp_sdk.Device.Scan.{
  ScanBlock, ScanFrame, Progress, FrameRead, begin_frame, frame_loop, resize, read_scan_frame,
}
use ldcp_sdk.Device.Scan.Assembly.{
  Run, concat_map, Completed, Filled, frame_loop-stops, frame_loop-goes_on, frame_step-later,
  frame_step-first, frame_step-skips, frame_step-mismatch, copy_block-Filled, length-resize,
}

empty_of_length : (xs : List ℕ) → length xs ≡ 0 → xs ≡ []
empty_of_length [] h = refl
empty_of_length (x ∷ xs) h = absurd (omega arith)

-- The loop from a block that is not the first of its frame.
frame_loop-completes :
    (bs tail : List ScanBlock) (p : Progress) (r i : List ℕ) (failure : ErrorCode)
    → Run p.block_length p.expected_block_index bs
    → 0 < p.expected_block_index
    → p.expected_block_index + length bs ≡ p.block_count
    → Filled p r i (length bs)
    → (f : FrameRead) × (frame_loop p (bs ++ tail) failure ≡ some f)
      × Completed bs tail r i p.frame f
unfolding concat_map
frame_loop-completes [] tail p r i failure run h n f =
    let (old, er, lo) = f.ranges_room in
    let (old', ei, lo') = f.intensities_room in
    (
      _,
      frame_loop-stops p tail failure (omega (arith, n)),
      record {
        succeeds = refl;
        left = refl;
        all_ranges = er ∙ ap (λ (l : List ℕ). r ++ l) (empty_of_length old (omega (arith, lo)));
        all_intensities =
            ei ∙ ap (λ (l : List ℕ). i ++ l) (empty_of_length old' (omega (arith, lo')));
        same_timestamp = refl;
        same_fov = refl;
      },
    )
frame_loop-completes (b ∷ bs) tail p r i failure (index, wr, wi, run) h n f =
    let (p', copied, filled, next, count, width, time, fov) =
      copy_block-Filled p b r i (length bs) f wr wi in
    let (e, done, c) =
      frame_loop-completes bs tail p' (r ++ b.ranges) (i ++ b.intensities) failure
        (rw (width, next) run) (omega (arith, next)) (omega (arith, next, count, n)) filled in
    (
      e,
      frame_loop-goes_on p p' b (bs ++ tail) failure (omega (arith, n))
            (frame_step-later p b index h ∙ copied)
          ∙ done,
      record {
        succeeds = c.succeeds;
        left = c.left;
        all_ranges = c.all_ranges ∙ append_assoc r b.ranges _;
        all_intensities = c.all_intensities ∙ append_assoc i b.intensities _;
        same_timestamp = c.same_timestamp ∙ time;
        same_fov = c.same_fov ∙ fov;
      },
    )

begin_frame-Filled :
    (p : Progress) (b : ScanBlock) (m : ℕ)
    → p.expected_block_index ≡ 0
    → m ≡ b.block_count
    → Filled (begin_frame p b) [] [] m
unfolding begin_frame
begin_frame-Filled p b m z n =
    let room : (xs : List ℕ)
        → length (resize (b.block_count * b.block_length) xs) ≡ m * b.block_length =
      λ xs.
        length-resize (b.block_count * b.block_length) xs
        ∙ ap (λ (c : ℕ). c * b.block_length) (sym n) in
    record {
      filled_ranges = rw z (omega arith);
      filled_intensities = rw z (omega arith);
      ranges_room = (_, refl, room p.frame.ranges);
      intensities_room = (_, refl, room p.frame.intensities);
    }

-- The loop from the first block on.
frame_loop-frame :
    (b : ScanBlock) (bs tail : List ScanBlock) (p : Progress) (failure : ErrorCode)
    → Run b.block_length 0 (b ∷ bs)
    → p.expected_block_index ≡ 0
    → 0 < p.block_count
    → suc (length bs) ≡ b.block_count
    → (f : FrameRead) × (frame_loop p (b ∷ (bs ++ tail)) failure ≡ some f)
      × Completed (b ∷ bs) tail [] [] (begin_frame p b).frame f
unfolding concat_map begin_frame
frame_loop-frame b bs tail p failure (index, wr, wi, run) z h n =
    let (p', copied, filled, next, count, width, time, fov) =
      copy_block-Filled (begin_frame p b) b [] [] (length bs)
        (begin_frame-Filled p b (suc (length bs)) z n) wr wi in
    let one : p'.expected_block_index ≡ 1 = next ∙ ap suc z in
    let (e, done, c) =
      frame_loop-completes bs tail p' b.ranges b.intensities failure (rw (width, one) run)
        (omega (arith, one)) (omega (arith, one, count, n)) filled in
    (
      e,
      frame_loop-goes_on p p' b (bs ++ tail) failure (omega (arith, z, h))
            (frame_step-first p b index z ∙ copied)
          ∙ done,
      record {
        succeeds = c.succeeds;
        left = c.left;
        all_ranges = c.all_ranges;
        all_intensities = c.all_intensities;
        same_timestamp = c.same_timestamp ∙ time;
        same_fov = c.same_fov ∙ fov;
      },
    )

-- Before the first block, the blocks of an earlier frame are read and dropped.
frame_loop-skips :
    (skipped blocks : List ScanBlock) (p : Progress) (failure : ErrorCode)
    → All (λ b. eq_ℤ b.block_index (pos 0) ≡ false) skipped
    → p.expected_block_index ≡ 0
    → 0 < p.block_count
    → frame_loop p (skipped ++ blocks) failure
      ≡ frame_loop (record p { expected_block_index = 0 }) blocks failure
frame_loop-skips [] blocks p failure a z h =
    ap (λ (e : ℕ). frame_loop (record p { expected_block_index = e }) blocks failure) z
frame_loop-skips (b ∷ skipped) blocks p failure (other, a) z h =
    frame_loop-goes_on p (record p { expected_block_index = 0 }) b (skipped ++ blocks) failure
      (omega (arith, z, h)) (frame_step-skips p b other z)
    ∙ frame_loop-skips skipped blocks (record p { expected_block_index = 0 }) failure a refl h

-- Blocks that are not the first of a frame are dropped; then a frame whose blocks arrive in order,
-- each as wide as the first one says, is handed out with the ranges and intensities of its blocks in
-- order and the time and the angle of its first block, and the blocks behind it are left unread.
pub read_scan_frame-completes :
    (frame : ScanFrame) (skipped : List ScanBlock) (b : ScanBlock) (bs tail : List ScanBlock)
    (failure : ErrorCode)
    → All (λ x. eq_ℤ x.block_index (pos 0) ≡ false) skipped
    → Run b.block_length 0 (b ∷ bs)
    → suc (length bs) ≡ b.block_count
    → (f : FrameRead) × (read_scan_frame frame (skipped ++ (b ∷ (bs ++ tail))) failure ≡ some f)
      × (f.result ≡ no_error)
      × (f.unread ≡ tail)
      × (f.frame.ranges ≡ concat_map (λ x. x.ranges) (b ∷ bs))
      × (f.frame.intensities ≡ concat_map (λ x. x.intensities) (b ∷ bs))
      × (f.frame.timestamp ≡ b.timestamp)
      × (f.frame.angular_fov ≡ b.angular_fov)
unfolding read_scan_frame begin_frame
read_scan_frame-completes frame skipped b bs tail failure a run n =
    let p : Progress = record {
      expected_block_index = 0;
      block_count = 2147483647;
      block_length = 0;
      frame = frame;
    } in
    let (f, done, c) = frame_loop-frame b bs tail p failure run refl (omega arith) n in
    (
      f,
      frame_loop-skips skipped (b ∷ (bs ++ tail)) p failure a refl (omega arith) ∙ done,
      c.succeeds,
      c.left,
      c.all_ranges,
      c.all_intensities,
      c.same_timestamp,
      c.same_fov,
    )

-- While a frame is incomplete, the first block of another one ends it and is dropped itself: of two
-- whole frames that follow, with no further first block among the others of the earlier one, the
-- earlier one is lost and the later one is handed out.
pub frame_loop-loses :
    (p : Progress) (lost : ScanBlock) (skipped : List ScanBlock) (b : ScanBlock)
    (bs tail : List ScanBlock) (failure : ErrorCode)
    → 0 < p.expected_block_index
    → p.expected_block_index < p.block_count
    → lost.block_index ≡ pos 0
    → All (λ x. eq_ℤ x.block_index (pos 0) ≡ false) skipped
    → Run b.block_length 0 (b ∷ bs)
    → suc (length bs) ≡ b.block_count
    → (f : FrameRead) × (frame_loop p (lost ∷ (skipped ++ (b ∷ (bs ++ tail)))) failure ≡ some f)
      × (f.result ≡ no_error)
      × (f.unread ≡ tail)
      × (f.frame.ranges ≡ concat_map (λ x. x.ranges) (b ∷ bs))
unfolding begin_frame
frame_loop-loses p lost skipped b bs tail failure started unfinished first a run n =
    let q : Progress = record p { expected_block_index = 0 } in
    let (f, done, c) =
      frame_loop-frame b bs tail q failure run refl (omega (arith, unfinished)) n in
    (
      f,
      frame_loop-goes_on p q lost (skipped ++ (b ∷ (bs ++ tail))) failure unfinished
            (frame_step-mismatch p lost (rw first (ground (arith, started))))
          ∙ frame_loop-skips skipped (b ∷ (bs ++ tail)) q failure a refl (omega (arith, unfinished))
          ∙ done,
      c.succeeds,
      c.left,
      c.all_ranges,
    )
