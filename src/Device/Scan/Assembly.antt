-- ===== src/Device/Scan/Assembly.antt =====
-- Device::readScanFrame: a frame is put together from its blocks (src/device.cpp).
use mathlib.Core.Option
use ldcp_sdk.Prelude.{
  ℕ, zero, suc, ◌+◌, ◌*◌, ◌-◌, ◌≡◌, refl, ap, ◌∙◌, sym, true, false, List, [], ◌∷◌, ◌++◌, some,
  ◌==◌, length, length-append, append_assoc, take, replicate, length-take, length-replicate, ◌<◌,
  arith,
}
use ldcp_sdk.Prelude.Int.{pos, eq_ℤ, eq_ℤ_iff}
use ldcp_sdk.Error.{ErrorCode, no_error}
use ldcp_sdk.Device.Scan.{
  ScanBlock, ScanFrame, Progress, FrameRead, resize, set_elem, copy_elems, begin_frame, copy_block,
  frame_step, frame_loop,
}

set_elem-append :
    (done : List ℕ) (x v : ℕ) (rest : List ℕ)
    → set_elem (done ++ (x ∷ rest)) (length done) v ≡ some (done ++ (v ∷ rest))
unfolding set_elem
set_elem-append [] x v rest = refl
set_elem-append (y ∷ done) x v rest = rw (set_elem-append done x v rest) refl

-- Copying over a stretch of the same length replaces it.
copy_elems-append :
    (from old done rest : List ℕ)
    → length from ≡ length old
    → copy_elems (length from) (length done) from (done ++ (old ++ rest))
      ≡ some (done ++ (from ++ rest))
unfolding copy_elems mathlib.Core.Option.bind
copy_elems-append [] [] done rest h = refl
copy_elems-append [] (x ∷ old) done rest h = absurd (omega arith)
copy_elems-append (v ∷ from) [] done rest h = absurd (omega arith)
copy_elems-append (v ∷ from) (x ∷ old) done rest h =
    let one : List ℕ = v ∷ [] in
    let longer : length (done ++ one) ≡ suc (length done) = omega (arith, length-append done one) in
    let next = copy_elems-append from old (done ++ one) rest (omega arith) in
    rw (set_elem-append done x v (old ++ rest)) (
      rw (longer, append_assoc done one (old ++ rest), append_assoc done one (from ++ rest)) at
        next)

-- Blocks that belong together: numbered from `index` on, each with `width` ranges and intensities.
abbrev pub Run : ℕ → ℕ → List ScanBlock → Type 0
Run width index [] = Unit
Run width index (block ∷ blocks) =
    (block.block_index ≡ pos index)
    × (length block.ranges ≡ width)
    × (length block.intensities ≡ width)
    × Run width (suc index) blocks

unfoldable pub concat_map : (ScanBlock → List ℕ) → List ScanBlock → List ℕ
concat_map f [] = []
concat_map f (block ∷ blocks) = f block ++ concat_map f blocks

-- A stretch of `old` for the blocks that are still to come.
split_off :
    (n m : ℕ) (xs : List ℕ)
    → length xs ≡ n + m
    → (ys zs : List ℕ) × (xs ≡ ys ++ zs) × (length ys ≡ n) × (length zs ≡ m)
split_off zero m xs h = ([], xs, refl, refl, omega (arith, h))
split_off (suc n) m [] h = absurd (omega arith)
split_off (suc n) m (x ∷ xs) h =
    let (ys, zs, e, a, b) = split_off n m xs (omega arith) in
    (x ∷ ys, zs, ap (λ (l : List ℕ). x ∷ l) e, omega (arith, a), b)

-- A block in sequence fills its stretch of the frame.
copy_block-filled :
    (p : Progress) (block : ScanBlock) (r old r' i old' i' : List ℕ)
    → length block.ranges ≡ p.block_length
    → length block.intensities ≡ p.block_length
    → length old ≡ p.block_length
    → length old' ≡ p.block_length
    → length r ≡ p.expected_block_index * p.block_length
    → length i ≡ p.expected_block_index * p.block_length
    → p.frame.ranges ≡ r ++ (old ++ r')
    → p.frame.intensities ≡ i ++ (old' ++ i')
    → copy_block p block
      ≡ some (record p {
        expected_block_index = suc p.expected_block_index;
        frame = record p.frame {
          ranges = r ++ (block.ranges ++ r');
          intensities = i ++ (block.intensities ++ i');
        };
      })
unfolding copy_block mathlib.Core.Option.bind
copy_block-filled p block r old r' i old' i' wr wi lo lo' lr li er ei =
    let a : copy_elems p.block_length (p.expected_block_index * p.block_length) block.ranges
          p.frame.ranges
        ≡ some (r ++ (block.ranges ++ r')) =
      rw (er, ← lr, ← wr) (copy_elems-append block.ranges old r r' (wr ∙ sym lo)) in
    let b : copy_elems p.block_length (p.expected_block_index * p.block_length) block.intensities
          p.frame.intensities
        ≡ some (i ++ (block.intensities ++ i')) =
      rw (ei, ← li, ← wi) (copy_elems-append block.intensities old' i i' (wi ∙ sym lo')) in
    rw (a, b) refl

pub length-resize : (n : ℕ) (xs : List ℕ) → length (resize n xs) ≡ n
unfolding resize
length-resize n xs = omega (
  arith,
  length-append (take n xs) (replicate (n - length xs) 0),
  length-take n xs,
  length-replicate {A = ℕ} (n - length xs) 0,
)

-- The frame that a call hands out, and the blocks that it leaves: what two lists of blocks make it.
pub record Completed (bs tail : List ScanBlock) (r i : List ℕ) (frame : ScanFrame) (f : FrameRead)
    : Type 0 where
  pub succeeds : f.result ≡ no_error
  pub left : f.unread ≡ tail
  pub all_ranges : f.frame.ranges ≡ r ++ concat_map (λ b. b.ranges) bs
  pub all_intensities : f.frame.intensities ≡ i ++ concat_map (λ b. b.intensities) bs
  pub same_timestamp : f.frame.timestamp ≡ frame.timestamp
  pub same_fov : f.frame.angular_fov ≡ frame.angular_fov

pub frame_loop-stops :
    (p : Progress) (tail : List ScanBlock) (failure : ErrorCode)
    → p.expected_block_index ≡ p.block_count
    → frame_loop p tail failure
      ≡ some (record { result = no_error; frame = p.frame; unread = tail })
unfolding frame_loop
frame_loop-stops p [] failure h = ground arith
frame_loop-stops p (b ∷ tail) failure h = ground arith

pub frame_loop-goes_on :
    (p p' : Progress) (block : ScanBlock) (blocks : List ScanBlock) (failure : ErrorCode)
    → p.expected_block_index < p.block_count
    → frame_step p block ≡ some p'
    → frame_loop p (block ∷ blocks) failure ≡ frame_loop p' blocks failure
unfolding frame_loop mathlib.Core.Option.bind
frame_loop-goes_on p p' block blocks failure h e = rw e (ground arith)

pub frame_step-later :
    (p : Progress) (block : ScanBlock)
    → block.block_index ≡ pos p.expected_block_index
    → 0 < p.expected_block_index
    → frame_step p block ≡ copy_block p block
unfolding frame_step
frame_step-later p block e h =
    let same : eq_ℤ block.block_index (pos p.expected_block_index) ≡ true = (eq_ℤ_iff _ _).1 e in
    let later : (p.expected_block_index == 0) ≡ false = ground (arith, h) in rw (same, later) refl

pub frame_step-first :
    (p : Progress) (block : ScanBlock)
    → block.block_index ≡ pos 0
    → p.expected_block_index ≡ 0
    → frame_step p block ≡ copy_block (begin_frame p block) block
unfolding frame_step
frame_step-first p block e h =
    let same : eq_ℤ block.block_index (pos 0) ≡ true = (eq_ℤ_iff _ _).1 e in rw (h, same) refl

pub frame_step-mismatch :
    (p : Progress) (block : ScanBlock)
    → eq_ℤ block.block_index (pos p.expected_block_index) ≡ false
    → frame_step p block ≡ some (record p { expected_block_index = 0 })
unfolding frame_step
frame_step-mismatch p block e = rw e refl

pub frame_step-skips :
    (p : Progress) (block : ScanBlock)
    → eq_ℤ block.block_index (pos 0) ≡ false
    → p.expected_block_index ≡ 0
    → frame_step p block ≡ some (record p { expected_block_index = 0 })
frame_step-skips p block e h = frame_step-mismatch p block (rw h e)

-- What a frame holds while its blocks come in: `r` and `i` are filled, and the rest has room.
pub record Filled (p : Progress) (r i : List ℕ) (missing : ℕ) : Type 0 where
  pub filled_ranges : length r ≡ p.expected_block_index * p.block_length
  pub filled_intensities : length i ≡ p.expected_block_index * p.block_length
  pub ranges_room :
      (old : List ℕ) × (p.frame.ranges ≡ r ++ old) × (length old ≡ missing * p.block_length)
  pub intensities_room :
      (old : List ℕ) × (p.frame.intensities ≡ i ++ old) × (length old ≡ missing * p.block_length)

-- One block more.
pub copy_block-Filled :
    (p : Progress) (block : ScanBlock) (r i : List ℕ) (missing : ℕ)
    → Filled p r i (suc missing)
    → length block.ranges ≡ p.block_length
    → length block.intensities ≡ p.block_length
    → (p' : Progress) × (copy_block p block ≡ some p')
      × Filled p' (r ++ block.ranges) (i ++ block.intensities) missing
      × (p'.expected_block_index ≡ suc p.expected_block_index)
      × (p'.block_count ≡ p.block_count)
      × (p'.block_length ≡ p.block_length)
      × (p'.frame.timestamp ≡ p.frame.timestamp)
      × (p'.frame.angular_fov ≡ p.frame.angular_fov)
copy_block-Filled p block r i missing f wr wi =
    let (old, er, lo) = f.ranges_room in
    let (old', ei, lo') = f.intensities_room in
    let (a, b, e, la, lb) =
      split_off p.block_length (missing * p.block_length) old (omega (arith, lo)) in
    let (a', b', e', la', lb') =
      split_off p.block_length (missing * p.block_length) old' (omega (arith, lo')) in
    (
      _,
      copy_block-filled p block r a b i a' b' wr wi la la' f.filled_ranges f.filled_intensities
          (er ∙ ap (λ (l : List ℕ). r ++ l) e) (ei ∙ ap (λ (l : List ℕ). i ++ l) e'),
      record {
        filled_ranges = omega (arith, length-append r block.ranges, f.filled_ranges, wr);
        filled_intensities =
            omega (arith, length-append i block.intensities, f.filled_intensities, wi);
        ranges_room = (b, sym (append_assoc r block.ranges b), lb);
        intensities_room = (b', sym (append_assoc i block.intensities b'), lb');
      },
      refl,
      refl,
      refl,
      refl,
      refl,
    )
