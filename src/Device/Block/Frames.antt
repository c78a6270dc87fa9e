-- ===== src/Device/Block/Frames.antt =====
-- A frame from the OOB packets of a device to readScanFrame (src/device.cpp).
use mathlib.Core.Option
use ldcp_sdk.Prelude.{
  ℕ, suc, ◌≡◌, refl, ap, ◌∙◌, sym, subst, Bool, List, [], ◌∷◌, ◌++◌, Option, some, ◌==◌,
  if◌then◌else◌, length, All,
}
use ldcp_sdk.Prelude.Int.{pos}
use ldcp_sdk.Error.{ErrorCode, no_error}
use ldcp_sdk.Device.{angular_fov_270deg, angular_fov_360deg}
use ldcp_sdk.Device.Scan.{ScanBlock, ScanFrame, FrameRead, read_scan_frame}
use ldcp_sdk.Device.Scan.Assembly.{Run, concat_map}
use ldcp_sdk.Device.Scan.Frames.{read_scan_frame-completes}
use ldcp_sdk.Device.Block.{BlockData, first_layer, read_oob}
use ldcp_sdk.Device.Block.Packets.{oob_packet, read_oob-packet}

-- The blocks that readScanBlock makes of packets, one behind the other.
unfoldable pub read_packets : List (List ℕ) → Option (List ScanBlock)
read_packets [] = some []
read_packets (packet ∷ packets) =
    Option.bind (Option.bind (read_oob packet) first_layer)
      (λ block. Option.map (λ blocks. block ∷ blocks) (read_packets packets))

-- The measurements of all layers, one behind the other.
unfoldable pub joined : (BlockData → List ℕ) → List BlockData → List ℕ
joined f [] = []
joined f (layer ∷ layers) = f layer ++ joined f layers

-- As many ranges and intensities as `n`.
abbrev pub IsWide : ℕ → BlockData → Type 0
IsWide n layer = (length layer.ranges ≡ n) × (length layer.intensities ≡ n)

-- What the packets of one frame have in common.
pub record Stamp : Type 0 where
  pub frame_index : ℕ
  pub count : ℕ
  pub time : ℕ
  pub checksum : ℕ → ℕ
  pub wide : Bool
  pub full : Bool

module _ (h : Stamp) where
  open h use {frame_index, count, time, checksum, wide, full}

  -- The packets of a device from the block with the given index on, a layer each.
  unfoldable pub packets_from : ℕ → List BlockData → List (List ℕ)
  packets_from index [] = []
  packets_from index (layer ∷ layers) =
      oob_packet frame_index index count time (checksum index) wide full layer.ranges
        layer.intensities
      ∷ packets_from (suc index) layers

  unfoldable pub block_at : ℕ → BlockData → ScanBlock
  block_at index layer = record {
    block_index = pos index;
    block_count = if count == 0 then 8 else count;
    block_length = length layer.ranges;
    timestamp = time;
    angular_fov = if full then angular_fov_360deg else angular_fov_270deg;
    ranges = layer.ranges;
    intensities = layer.intensities;
  }

  unfoldable pub blocks_from : ℕ → List BlockData → List ScanBlock
  blocks_from index [] = []
  blocks_from index (layer ∷ layers) = block_at index layer ∷ blocks_from (suc index) layers

  read_packets-packets_from :
      (n index : ℕ) (layers : List BlockData)
      → All (IsWide n) layers
      → read_packets (packets_from index layers) ≡ some (blocks_from index layers)
  unfolding read_packets packets_from blocks_from block_at first_layer Option.bind
  read_packets-packets_from n index [] a = refl
  read_packets-packets_from n index (layer ∷ layers) ((r, i), a) =
      rw
        (
          read_oob-packet frame_index index count time (checksum index) wide full layer.ranges
              layer.intensities (i ∙ sym r),
          read_packets-packets_from n (suc index) layers a,
        )
        refl

  pub blocks_from-Run :
      (n index : ℕ) (layers : List BlockData)
      → All (IsWide n) layers
      → Run n index (blocks_from index layers)
  unfolding blocks_from block_at
  blocks_from-Run n index [] a = tt
  blocks_from-Run n index (layer ∷ layers) ((r, i), a) =
      (refl, r, i, blocks_from-Run n (suc index) layers a)

  pub length-blocks_from :
      (index : ℕ) (layers : List BlockData) → length (blocks_from index layers) ≡ length layers
  unfolding blocks_from
  length-blocks_from index [] = refl
  length-blocks_from index (layer ∷ layers) =
      ap (λ (k : ℕ). suc k) (length-blocks_from (suc index) layers)

  pub ranges-joined :
      (index : ℕ) (layers : List BlockData)
      → concat_map (λ b. b.ranges) (blocks_from index layers) ≡ joined (λ l. l.ranges) layers
  unfolding blocks_from block_at joined concat_map
  ranges-joined index [] = refl
  ranges-joined index (layer ∷ layers) =
      ap (λ (xs : List ℕ). layer.ranges ++ xs) (ranges-joined (suc index) layers)

  pub intensities-joined :
      (index : ℕ) (layers : List BlockData)
      → concat_map (λ b. b.intensities) (blocks_from index layers)
        ≡ joined (λ l. l.intensities) layers
  unfolding blocks_from block_at joined concat_map
  intensities-joined index [] = refl
  intensities-joined index (layer ∷ layers) =
      ap (λ (xs : List ℕ). layer.intensities ++ xs) (intensities-joined (suc index) layers)

  -- The packets of a device that hold the blocks of one frame, all of one width and as many as the
  -- count that they tell (8 for 0), are read as blocks from which readScanFrame puts the frame
  -- together: with their ranges and intensities in order, and their time and angle of view.
  pub read_scan_frame-packets :
      (n : ℕ) (layer : BlockData) (layers : List BlockData) (old : ScanFrame)
      (tail : List ScanBlock) (failure : ErrorCode)
      → All (IsWide n) (layer ∷ layers)
      → suc (length layers) ≡ (if count == 0 then 8 else count)
      → (blocks : List ScanBlock) × (f : FrameRead) × (read_packets
            (packets_from 0 (layer ∷ layers))
          ≡ some blocks)
        × (read_scan_frame old (blocks ++ tail) failure ≡ some f)
        × (f.result ≡ no_error)
        × (f.unread ≡ tail)
        × (f.frame.ranges ≡ joined (λ l. l.ranges) (layer ∷ layers))
        × (f.frame.intensities ≡ joined (λ l. l.intensities) (layer ∷ layers))
        × (f.frame.timestamp ≡ time)
        × (f.frame.angular_fov ≡ (if full then angular_fov_360deg else angular_fov_270deg))
  unfolding blocks_from block_at
  read_scan_frame-packets n layer layers old tail failure a many =
      let all = layer ∷ layers in
      let width : length layer.ranges ≡ n = a.0.0 in
      let (f, done, succeeds, left, ranges, intensities, timestamp, fov) =
        read_scan_frame-completes old [] (block_at 0 layer) (blocks_from 1 layers) tail failure tt
          (subst (λ k. Run k 0 (blocks_from 0 all)) (sym width) (blocks_from-Run n 0 all a))
          (ap (λ (k : ℕ). suc k) (length-blocks_from 1 layers) ∙ many) in
      (
        blocks_from 0 all,
        f,
        read_packets-packets_from n 0 all a,
        done,
        succeeds,
        left,
        ranges ∙ ranges-joined 0 all,
        intensities ∙ intensities-joined 0 all,
        timestamp,
        fov,
      )
