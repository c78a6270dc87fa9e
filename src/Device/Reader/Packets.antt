-- ===== src/Device/Reader/Packets.antt =====
-- The frame that the OOB packets in the queue of a session hold, and readScanFrame (src/device.cpp).
use ldcp_sdk.Prelude.{
  ℕ, suc, ◌≡◌, refl, ap, ◌∙◌, sym, subst, false, List, [], ◌∷◌, ◌++◌, some, arith, if◌then◌else◌,
  length, ◌==◌, All, append-nil, length-append, ◌<◌,
}
use ldcp_sdk.Prelude.Int.{pos, eq_ℤ}
use ldcp_sdk.Error.{no_error, unknown}
use ldcp_sdk.Json.{Json}
use ldcp_sdk.Json.Data.{JsonData}
use ldcp_sdk.Transport.{Transport}
use ldcp_sdk.Session.{State}
use ldcp_sdk.Device.{angular_fov_270deg, angular_fov_360deg}
use ldcp_sdk.Device.Scan.{ScanBlock, ScanFrame, FrameRead, read_scan_frame}
use ldcp_sdk.Device.Scan.Frames.{read_scan_frame-completes}
use ldcp_sdk.Device.Scan.Assembly.{Run}
use ldcp_sdk.Device.Block.{BlockData, LayeredBlock}
use ldcp_sdk.Device.Block.Packets.{oob_packet, read_oob-packet}
use ldcp_sdk.Device.Block.Frames.{
  IsWide, Stamp, packets_from, block_at, blocks_from, blocks_from-Run, length-blocks_from,
  ranges-joined, intensities-joined, joined,
}
use ldcp_sdk.Device.Reader.{returned, Batches, read_session_frame, front_block, front_layer}
use ldcp_sdk.Device.Reader.Queued.{Reads, Reads-append, read-queued, read_session_frame-Reads}

module _ (h : Stamp) where
  -- The number of blocks that a count tells.
  abbrev pub block_total : ℕ
  block_total = if h.count == 0 then 8 else h.count

  blocks-later :
      (k : ℕ) (layers : List BlockData)
      → All (λ x. eq_ℤ x.block_index (pos 0) ≡ false) (blocks_from h (suc k) layers)
  unfolding blocks_from block_at
  blocks-later k [] = tt
  blocks-later k (layer ∷ layers) = (ground arith, blocks-later (suc k) layers)

  -- The frame of the blocks.
  read_scan_frame-blocks :
      (m : ℕ) (layer : BlockData) (layers : List BlockData) (old : ScanFrame)
      (skipped : List ScanBlock)
      → All (λ x. eq_ℤ x.block_index (pos 0) ≡ false) skipped
      → All (IsWide m) (layer ∷ layers)
      → suc (length layers) ≡ block_total
      → (f : FrameRead) × (read_scan_frame old (skipped ++ blocks_from h 0 (layer ∷ layers)) unknown
          ≡ some f)
        × (f.result ≡ no_error)
        × (f.unread ≡ [])
        × (f.frame.ranges ≡ joined (λ l. l.ranges) (layer ∷ layers))
        × (f.frame.intensities ≡ joined (λ l. l.intensities) (layer ∷ layers))
        × (f.frame.timestamp ≡ h.time)
        × (f.frame.angular_fov ≡ (if h.full then angular_fov_360deg else angular_fov_270deg))
  unfolding blocks_from block_at
  read_scan_frame-blocks m layer layers old skipped later wide many =
      let first : ScanBlock = block_at h 0 layer in
      let width : length layer.ranges ≡ m = wide.0.0 in
      let (f, done, ok, left, ranges, intensities, timestamp, fov) =
        read_scan_frame-completes old skipped first (blocks_from h 1 layers) [] unknown later
          (subst (λ w. Run w 0 (blocks_from h 0 (layer ∷ layers))) (sym width)
            (blocks_from-Run h m 0 (layer ∷ layers) wide))
          (ap suc (length-blocks_from h 1 layers) ∙ many) in
      (
        f,
        ap (λ bs. read_scan_frame old (skipped ++ (first ∷ bs)) unknown)
              (sym (append-nil (blocks_from h 1 layers)))
            ∙ done,
        ok,
        left,
        ranges ∙ ranges-joined h 0 (layer ∷ layers),
        intensities ∙ intensities-joined h 0 (layer ∷ layers),
        timestamp,
        fov,
      )

module _ (j : Json) (d : JsonData j) (t : Transport j.Value) where
  open j use {Value}

  -- What the packets of a device in the queue are read as.
  Reads-packets :
      (h : Stamp) (n index : ℕ) (layers : List BlockData) (rest : List (List ℕ)) (s : State j t)
      (b : LayeredBlock) (batches : Batches j t)
      → All (IsWide n) layers
      → s.scan_block_queue_primary ≡ []
      → s.scan_block_queue_oob ≡ packets_from h index layers ++ rest
      → (b' : LayeredBlock) × Reads j d t
          (blocks_from h index layers)
          s
          b
          batches
          (record s { scan_block_queue_oob = rest }, b', batches)
  unfolding packets_from blocks_from block_at oob_packet front_block front_layer
  Reads-packets h n index [] rest s b batches a e f =
      (b, ap (λ (o : List (List ℕ)). (record s { scan_block_queue_oob = o }, b, batches)) f)
  Reads-packets h n index (layer ∷ layers) rest s b batches ((r, i), a) e f =
      let s' : State j t = record s {
        scan_block_queue_oob = packets_from h (suc index) layers ++ rest;
      } in
      let b₁ : LayeredBlock = record {
        block_index = pos index;
        block_count = block_total h;
        block_length = length layer.ranges;
        timestamp = h.time;
        angular_fov = if h.full then angular_fov_360deg else angular_fov_270deg;
        layers = layer ∷ [];
      } in
      let (b', more) = Reads-packets h n (suc index) layers rest s' b₁ batches a e refl in
      let one =
        read-queued j d t s b b₁ batches _ _ (packets_from h (suc index) layers ++ rest) e f (
          read_oob-packet h.frame_index index h.count h.time (h.checksum index) h.wide h.full
            layer.ranges layer.intensities (i ∙ sym r)) in
      (b', rw one (b₁, refl, refl, refl, more))

  -- The blocks that are read where the queue holds the packets of a frame.
  pub record FrameReads (h : Stamp) (layers : List BlockData) (rest : List (List ℕ)) (s : State j t)
      (scan_block : LayeredBlock) (old : ScanFrame) (batches : Batches j t) : Type 0 where
    pub blocks : List ScanBlock
    pub last : LayeredBlock
    pub read : FrameRead
    pub reads :
        Reads j d t blocks s scan_block batches
          (record s { scan_block_queue_oob = rest }, last, batches)
    pub some_block : 0 < length blocks
    pub completes : read_scan_frame old blocks unknown ≡ some read
    pub succeeds : read.result ≡ no_error
    pub all_read : read.unread ≡ []
    pub ranges : read.frame.ranges ≡ joined (λ l. l.ranges) layers
    pub intensities : read.frame.intensities ≡ joined (λ l. l.intensities) layers
    pub timestamp : read.frame.timestamp ≡ h.time
    pub fov : read.frame.angular_fov ≡ (if h.full then angular_fov_360deg else angular_fov_270deg)

  pub packets-FrameReads :
      (earlier h : Stamp) (n k m : ℕ) (dropped : List BlockData) (layer : BlockData)
      (layers : List BlockData) (rest : List (List ℕ)) (s : State j t) (scan_block : LayeredBlock)
      (old : ScanFrame) (batches : Batches j t)
      → All (IsWide n) dropped
      → All (IsWide m) (layer ∷ layers)
      → suc (length layers) ≡ block_total h
      → s.scan_block_queue_primary ≡ []
      → s.scan_block_queue_oob
        ≡ packets_from earlier (suc k) dropped ++ (packets_from h 0 (layer ∷ layers) ++ rest)
      → FrameReads h (layer ∷ layers) rest s scan_block old batches
  unfolding blocks_from block_at
  packets-FrameReads earlier h n k m dropped layer layers rest s scan_block old batches first wide
        many quiet queue =
      let all = layer ∷ layers in
      let s' : State j t = record s { scan_block_queue_oob = packets_from h 0 all ++ rest } in
      let (b₁, before) =
        Reads-packets earlier n (suc k) dropped (packets_from h 0 all ++ rest) s scan_block batches
          first quiet queue in
      let (b₂, after) = Reads-packets h m 0 all rest s' b₁ batches wide quiet refl in
      let (f, done, ok, left, ranges, intensities, timestamp, fov) =
        read_scan_frame-blocks h m layer layers old (blocks_from earlier (suc k) dropped)
          (blocks-later earlier k dropped) wide many in
      record {
        blocks = blocks_from earlier (suc k) dropped ++ blocks_from h 0 all;
        last = b₂;
        read = f;
        reads =
            Reads-append j d t (blocks_from earlier (suc k) dropped) (blocks_from h 0 all) s
              scan_block batches (s', b₁, batches)
              (record s { scan_block_queue_oob = rest }, b₂, batches) before after;
        some_block =
            omega
              (arith, length-append (blocks_from earlier (suc k) dropped) (blocks_from h 0 all));
        completes = done;
        succeeds = ok;
        all_read = left;
        ranges = ranges;
        intensities = intensities;
        timestamp = timestamp;
        fov = fov;
      }

  -- Where the OOB queue of a session holds the packets of the end of an earlier frame, then those of
  -- a frame, all of one width and as many as the count that they tell (8 for 0), and no notification
  -- is queued, readScanFrame returns that frame at once: the ranges and intensities of its packets
  -- in order, with its time and angle of view; the packets behind it stay in the queue.
  pub read_session_frame-packets :
      (earlier h : Stamp) (n k m : ℕ) (dropped : List BlockData) (layer : BlockData)
      (layers : List BlockData) (rest : List (List ℕ)) (s : State j t) (scan_block : LayeredBlock)
      (old : ScanFrame) (batches : Batches j t)
      → All (IsWide n) dropped
      → All (IsWide m) (layer ∷ layers)
      → suc (length layers) ≡ block_total h
      → s.scan_block_queue_primary ≡ []
      → s.scan_block_queue_oob
        ≡ packets_from earlier (suc k) dropped ++ (packets_from h 0 (layer ∷ layers) ++ rest)
      → (frame : ScanFrame) × (read_session_frame j d t s scan_block old batches
          ≡ some (returned (record s { scan_block_queue_oob = rest }) no_error frame batches))
        × (frame.ranges ≡ joined (λ l. l.ranges) (layer ∷ layers))
        × (frame.intensities ≡ joined (λ l. l.intensities) (layer ∷ layers))
        × (frame.timestamp ≡ h.time)
        × (frame.angular_fov ≡ (if h.full then angular_fov_360deg else angular_fov_270deg))
  read_session_frame-packets earlier h n k m dropped layer layers rest s scan_block old batches
        first wide many quiet queue =
      let r =
        packets-FrameReads earlier h n k m dropped layer layers rest s scan_block old batches first
          wide many quiet queue in
      (
        r.read.frame,
        read_session_frame-Reads j d t r.blocks s scan_block old batches
            (record s { scan_block_queue_oob = rest }, r.last, batches) r.read r.reads r.completes
            r.succeeds r.all_read,
        r.ranges,
        r.intensities,
        r.timestamp,
        r.fov,
      )
