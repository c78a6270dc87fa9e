-- ===== src/Device/Scan.antt =====
-- Device::readScanFrame (src/device.cpp) over the blocks that readScanBlock hands out, and the data
-- types of include/ldcp/data_types.h. The calls of readScanBlock are a list: each of its blocks is
-- one call that succeeds, and the call behind the last one fails with a given error.
pub mod Assembly
pub mod Frames
use mathlib.Core.Option
use ldcp_sdk.Prelude.{
  ℕ, zero, suc, ◌+◌, ◌*◌, ◌-◌, Bool, List, [], ◌∷◌, ◌++◌, Option, none, some, ltb, ◌==◌,
  if◌then◌else◌, length, take, replicate,
}
use ldcp_sdk.Prelude.Int.{ℤ, pos, eq_ℤ}
use ldcp_sdk.Error.{ErrorCode, no_error}
use ldcp_sdk.Device.{AngularFov}

-- ScanBlock, with its first layer, the one that is read.
pub record ScanBlock : Type 0 where
  pub block_index : ℤ
  pub block_count : ℕ
  pub block_length : ℕ
  pub timestamp : ℕ
  pub angular_fov : AngularFov
  pub ranges : List ℕ
  pub intensities : List ℕ

-- ScanFrame, with its first layer.
pub record ScanFrame : Type 0 where
  pub timestamp : ℕ
  pub angular_fov : AngularFov
  pub ranges : List ℕ
  pub intensities : List ℕ

-- The local variables of readScanFrame and the frame that it is given a reference to.
pub record Progress : Type 0 where
  pub expected_block_index : ℕ
  pub block_count : ℕ
  pub block_length : ℕ
  pub frame : ScanFrame

pub record FrameRead : Type 0 where
  pub result : ErrorCode
  pub frame : ScanFrame
  pub unread : List ScanBlock

-- vector::resize
unfoldable pub resize : ℕ → List ℕ → List ℕ
resize n xs = take n xs ++ replicate (n - length xs) 0

-- xs[i] = v. `none`: the index is out of range.
unfoldable pub set_elem : List ℕ → ℕ → ℕ → Option (List ℕ)
set_elem [] i v = none
set_elem (x ∷ xs) zero v = some (v ∷ xs)
set_elem (x ∷ xs) (suc i) v = Option.map (λ ys. x ∷ ys) (set_elem xs i v)

-- The loop that copies: to[offset + i] = from[i] for i = 0, ..., count - 1.
unfoldable pub copy_elems : ℕ → ℕ → List ℕ → List ℕ → Option (List ℕ)
copy_elems zero offset from to = some to
copy_elems (suc count) offset [] to = none
copy_elems (suc count) offset (v ∷ from) to =
    Option.bind (set_elem to offset v) (copy_elems count (suc offset) from)

-- What block 0 sets.
unfoldable pub begin_frame : Progress → ScanBlock → Progress
begin_frame p block = record p {
  block_count = block.block_count;
  block_length = block.block_length;
  frame = record {
    timestamp = block.timestamp;
    angular_fov = block.angular_fov;
    ranges = resize (block.block_count * block.block_length) p.frame.ranges;
    intensities = resize (block.block_count * block.block_length) p.frame.intensities;
  };
}

-- The copy of a block that is in sequence.
unfoldable pub copy_block : Progress → ScanBlock → Option Progress
copy_block p block =
    let offset : ℕ = p.expected_block_index * p.block_length in
    Option.bind (copy_elems p.block_length offset block.ranges p.frame.ranges) (λ ranges.
      Option.map
        (λ intensities. record p {
          expected_block_index = suc p.expected_block_index;
          frame = record p.frame { ranges = ranges; intensities = intensities };
        })
        (copy_elems p.block_length offset block.intensities p.frame.intensities))

-- The body of the loop behind the read. `none`: an index out of range.
unfoldable pub frame_step : Progress → ScanBlock → Option Progress
frame_step p block =
    if eq_ℤ block.block_index (pos p.expected_block_index)
    then copy_block (if p.expected_block_index == 0 then begin_frame p block else p) block
    else some (record p { expected_block_index = 0 })

-- The loop.
unfoldable pub frame_loop : Progress → List ScanBlock → ErrorCode → Option FrameRead
frame_loop p [] failure = some (record {
  result = if ltb p.expected_block_index p.block_count then failure else no_error;
  frame = p.frame;
  unread = [];
})
frame_loop p (block ∷ blocks) failure =
    let rest = Option.bind (frame_step p block) (λ p'. frame_loop p' blocks failure) in
    if ltb p.expected_block_index p.block_count
    then rest
    else some (record { result = no_error; frame = p.frame; unread = block ∷ blocks })

-- Device::readScanFrame; INT_MAX is the count until block 0 tells it.
unfoldable pub read_scan_frame : ScanFrame → List ScanBlock → ErrorCode → Option FrameRead
read_scan_frame frame blocks failure =
    frame_loop
      (record {
        expected_block_index = 0;
        block_count = 2147483647;
        block_length = 0;
        frame = frame;
      })
      blocks failure
