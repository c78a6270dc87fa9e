-- ===== src/Device/Reader/Stream.antt =====
-- Successive calls of readScanFrame (src/device.cpp) over the OOB packets of several frames.
use mathlib.Core.Option
use ldcp_sdk.Prelude.{
  ℕ, zero, suc, ◌≡◌, refl, ap, ◌∙◌, List, [], ◌∷◌, ◌++◌, Option, none, some, if◌then◌else◌, length,
  All, append_assoc,
}
use ldcp_sdk.Error.{no_error, is_no_error}
use ldcp_sdk.Json.{Json}
use ldcp_sdk.Json.Data.{JsonData}
use ldcp_sdk.Transport.{Transport}
use ldcp_sdk.Session.{State, Event}
use ldcp_sdk.Device.{angular_fov_270deg, angular_fov_360deg}
use ldcp_sdk.Device.Scan.{ScanFrame}
use ldcp_sdk.Device.Block.{BlockData, LayeredBlock}
use ldcp_sdk.Device.Block.Frames.{IsWide, Stamp, packets_from, joined}
use ldcp_sdk.Device.Reader.{Ended, returned, faulted, Batches, read_session_frame}
use ldcp_sdk.Device.Reader.Packets.{block_total, read_session_frame-packets}

-- A frame of a device: the layers of its packets, of one width and as many as the count that they
-- tell (8 for 0).
pub record Whole : Type 0 where
  pub stamp : Stamp
  pub width : ℕ
  pub first : BlockData
  pub others : List BlockData
  pub wide : All (IsWide width) (first ∷ others)
  pub many : suc (length others) ≡ block_total stamp

abbrev pub packets_of : Whole → List (List ℕ)
packets_of w = packets_from w.stamp 0 (w.first ∷ w.others)

abbrev pub all_packets : List Whole → List (List ℕ)
all_packets [] = []
all_packets (w ∷ ws) = packets_of w ++ all_packets ws

-- The ranges and intensities of the packets in order, with their time and angle of view.
pub record Shows (w : Whole) (f : ScanFrame) : Type 0 where
  pub ranges : f.ranges ≡ joined (λ l. l.ranges) (w.first ∷ w.others)
  pub intensities : f.intensities ≡ joined (λ l. l.intensities) (w.first ∷ w.others)
  pub timestamp : f.timestamp ≡ w.stamp.time
  pub fov : f.angular_fov ≡ (if w.stamp.full then angular_fov_360deg else angular_fov_270deg)

-- One frame for each, in order.
abbrev pub AllShown : List Whole → List ScanFrame → Type 0
AllShown [] [] = Unit
AllShown [] (f ∷ fs) = ⊥
AllShown (w ∷ ws) [] = ⊥
AllShown (w ∷ ws) (f ∷ fs) = Shows w f × AllShown ws fs

module _ (j : Json) (d : JsonData j) (t : Transport j.Value) (scan_block : LayeredBlock) where
  open j use {Value}

  abbrev pub Frames : Type 0
  Frames = Option (State j t × List ScanFrame)

  -- The calls behind one that has returned a frame; the others are the last.
  unfoldable pub after_frame :
      (State j t → ScanFrame → Batches j t → Frames) → Ended (State j t) (Event Value) → Frames
  after_frame next (returned s result frame later) =
      if is_no_error result
      then Option.map (λ more. (more.0, frame ∷ more.1)) (next s frame later)
      else some (s, [])
  after_frame next faulted = none

  -- As many calls of readScanFrame with the same frame object: the frames that it holds behind each.
  unfoldable pub read_frames : ℕ → State j t → ScanFrame → Batches j t → Frames
  read_frames zero s frame batches = some (s, [])
  read_frames (suc n) s frame batches =
      Option.bind (read_session_frame j d t s scan_block frame batches)
        (after_frame (read_frames n))

  read_frames-next :
      (n : ℕ) (s s' : State j t) (old frame : ScanFrame) (batches : Batches j t)
      → read_session_frame j d t s scan_block old batches
        ≡ some (returned s' no_error frame batches)
      → read_frames (suc n) s old batches
        ≡ Option.map (λ more. (more.0, frame ∷ more.1)) (read_frames n s' frame batches)
  unfolding read_frames after_frame mathlib.Core.Option.bind
  read_frames-next n s s' old frame batches e = rw e refl

  all_packets-cons :
      (h : Stamp) (w : Whole) (ws : List Whole) (rest : List (List ℕ))
      → all_packets (w ∷ ws) ++ rest
        ≡ packets_from h 1 [] ++ (packets_of w ++ (all_packets ws ++ rest))
  unfolding packets_from
  all_packets-cons h w ws rest = append_assoc (packets_of w) (all_packets ws) rest

  FramesRead : List Whole → List (List ℕ) → State j t → ScanFrame → Batches j t → Type 0
  FramesRead ws rest s old batches =
      (fs : List ScanFrame) × (read_frames (length ws) s old batches
        ≡ some (record s { scan_block_queue_oob = rest }, fs))
      × AllShown ws fs

  -- The first frame, given the others.
  first-FramesRead :
      (earlier : Stamp) (n k : ℕ) (dropped : List BlockData) (w : Whole) (ws : List Whole)
      (rest : List (List ℕ)) (s : State j t) (old : ScanFrame) (batches : Batches j t)
      → ((s' : State j t) (frame : ScanFrame)
          → s'.scan_block_queue_primary ≡ []
          → s'.scan_block_queue_oob ≡ all_packets ws ++ rest
          → FramesRead ws rest s' frame batches)
      → All (IsWide n) dropped
      → s.scan_block_queue_primary ≡ []
      → s.scan_block_queue_oob
        ≡ packets_from earlier (suc k) dropped ++ (packets_of w ++ (all_packets ws ++ rest))
      → FramesRead (w ∷ ws) rest s old batches
  unfolding FramesRead
  first-FramesRead earlier n k dropped w ws rest s old batches go_on a quiet queue =
      let (frame, done, ranges, intensities, timestamp, fov) =
        read_session_frame-packets j d t earlier w.stamp n k w.width dropped w.first w.others
          (all_packets ws ++ rest) s scan_block old batches a w.wide w.many quiet queue in
      let s' : State j t = record s { scan_block_queue_oob = all_packets ws ++ rest } in
      let (fs, others, shown) = go_on s' frame quiet refl in
      let shows : Shows w frame = record {
        ranges = ranges;
        intensities = intensities;
        timestamp = timestamp;
        fov = fov;
      } in
      (
        frame ∷ fs,
        read_frames-next (length ws) s s' old frame batches done
            ∙ ap (Option.map (λ more. (more.0, frame ∷ more.1))) others,
        (shows, shown),
      )

  others-FramesRead :
      (ws : List Whole) (rest : List (List ℕ)) (batches : Batches j t) (s : State j t)
      (old : ScanFrame)
      → s.scan_block_queue_primary ≡ []
      → s.scan_block_queue_oob ≡ all_packets ws ++ rest
      → FramesRead ws rest s old batches
  unfolding FramesRead read_frames
  others-FramesRead [] rest batches s old quiet queue =
      ([], ap (λ (o : List (List ℕ)). some (record s { scan_block_queue_oob = o }, [])) queue, tt)
  others-FramesRead (w ∷ ws) rest batches s old quiet queue =
      first-FramesRead w.stamp 0 0 [] w ws rest s old batches
        (λ s' frame quiet' queue'. others-FramesRead ws rest batches s' frame quiet' queue') tt
        quiet (queue ∙ all_packets-cons w.stamp w ws rest)

  -- Where the OOB queue of a session holds the packets of the end of a frame, then those of one frame
  -- after the other, each with packets of one width and as many as the count that they tell (8 for
  -- 0), and no notification is queued, as many calls of readScanFrame return these frames, one each
  -- and in order: the ranges and intensities of its packets in order, with its time and angle of view;
  -- the packets behind them stay in the queue.
  pub read_frames-packets :
      (earlier : Stamp) (n k : ℕ) (dropped : List BlockData) (w : Whole) (ws : List Whole)
      (rest : List (List ℕ)) (s : State j t) (old : ScanFrame) (batches : Batches j t)
      → All (IsWide n) dropped
      → s.scan_block_queue_primary ≡ []
      → s.scan_block_queue_oob
        ≡ packets_from earlier (suc k) dropped ++ (all_packets (w ∷ ws) ++ rest)
      → (fs : List ScanFrame) × (read_frames (length (w ∷ ws)) s old batches
          ≡ some (record s { scan_block_queue_oob = rest }, fs))
        × AllShown (w ∷ ws) fs
  unfolding FramesRead
  read_frames-packets earlier n k dropped w ws rest s old batches a quiet queue =
      first-FramesRead earlier n k dropped w ws rest s old batches
        (λ s' frame quiet' queue'. others-FramesRead ws rest batches s' frame quiet' queue') a quiet
        (queue
          ∙ ap (λ ps. packets_from earlier (suc k) dropped ++ ps)
              (append_assoc (packets_of w) (all_packets ws) rest))
