-- ===== src/Device/Reader.antt =====
-- Device::readScanFrame (src/device.cpp) over a session: the loop with its calls of readScanBlock.
pub mod Fuel
pub mod Queued
pub mod Packets
pub mod Sealed
pub mod Datagrams
pub mod Stream
use ldcp_sdk.Prelude.{
  ℕ, zero, suc, ◌+◌, List, [], ◌∷◌, Option, none, some, ltb, if◌then◌else◌, length,
}
use ldcp_sdk.Error.{ErrorCode, no_error, is_no_error}
use ldcp_sdk.Json.{Json}
use ldcp_sdk.Json.Data.{JsonData}
use ldcp_sdk.Transport.{Transport}
use ldcp_sdk.Session.{State, Event}
use ldcp_sdk.Device.Scan.{ScanBlock, ScanFrame, Progress, frame_step}
use ldcp_sdk.Device.Block.{LayeredBlock, BlockData, BlockRead, read_scan_block}

-- A call that returns, and one that throws or whose index is out of range.
pub data Ended (S E : Type 0) : Type 0 where
  returned : S → ErrorCode → ScanFrame → List (List E) → Ended S E
  faulted : Ended S E

-- layers[0]; a layer that is not there has no element that an index reaches.
unfoldable pub front_layer : List BlockData → BlockData
front_layer [] = record { ranges = []; intensities = [] }
front_layer (layer ∷ layers) = layer

-- The block as the body of the loop reads it.
unfoldable pub front_block : LayeredBlock → ScanBlock
front_block b = record {
  block_index = b.block_index;
  block_count = b.block_count;
  block_length = b.block_length;
  timestamp = b.timestamp;
  angular_fov = b.angular_fov;
  ranges = (front_layer b.layers).ranges;
  intensities = (front_layer b.layers).intensities;
}

-- The local variables of readScanFrame at its start.
abbrev pub started : ScanFrame → Progress
started frame = record {
  expected_block_index = 0;
  block_count = 2147483647;
  block_length = 0;
  frame = frame;
}

module _ {S E : Type 0} where
  -- The rest of a round behind the body, and behind the read.
  unfoldable pub behind_step :
      (Progress → Option (Ended S E)) → Option Progress → Option (Ended S E)
  behind_step next none = some faulted
  behind_step next (some p) = next p

  unfoldable pub behind_decode :
      Progress
      → (Progress → LayeredBlock → Option (Ended S E))
      → Option LayeredBlock
      → Option (Ended S E)
  behind_decode p next none = some faulted
  behind_decode p next (some b) = behind_step (λ p'. next p' b) (frame_step p (front_block b))

  unfoldable pub behind_read :
      Progress → (Progress → LayeredBlock → Option (Ended S E)) → BlockRead S E → Option (Ended S E)
  behind_read p next r =
      if is_no_error r.result
      then behind_decode p next r.block
      else some (returned r.state r.result p.frame r.later)

module _ (j : Json) (t : Transport j.Value) where
  open j use {Value}

  abbrev pub Batches : Type 0
  Batches = List (List (Event Value))

  -- What is delivered in the batches.
  unfoldable pub delivered : Batches → ℕ
  delivered [] = 0
  delivered (batch ∷ batches) = length batch + delivered batches

  -- The blocks that there can be.
  unfoldable pub available : State j t → Batches → ℕ
  available s batches =
      length s.scan_block_queue_primary + length s.scan_block_queue_oob + delivered batches

module _ (j : Json) (d : JsonData j) (t : Transport j.Value) where
  -- The loop, in at most `fuel` rounds. `none`: there was not enough fuel.
  unfoldable pub read_loop :
      ℕ
      → Progress
      → LayeredBlock
      → State j t
      → Batches j t
      → Option (Ended (State j t) (Event j.Value))
  read_loop zero p b s batches = none
  read_loop (suc fuel) p b s batches =
      let r = read_scan_block j d t s b batches in
      let on : Option (Ended (State j t) (Event j.Value)) =
        behind_read p (λ p' b'. read_loop fuel p' b' r.state r.later) r in
      if ltb p.expected_block_index p.block_count
      then on
      else some (returned s no_error p.frame batches)

  -- Device::readScanFrame; `scan_block` is its local variable.
  unfoldable pub read_session_frame :
      State j t
      → LayeredBlock
      → ScanFrame
      → Batches j t
      → Option (Ended (State j t) (Event j.Value))
  read_session_frame s scan_block frame batches =
      read_loop (suc (available j t s batches)) (started frame) scan_block s batches
