-- ===== src/Device/Reader/Datagrams.antt =====
-- A frame from the datagrams that NetworkTransport receives (src/transport.cpp) through the session
-- (src/session.cpp) to readScanFrame (src/device.cpp).
use ldcp_sdk.Prelude.{
  ℕ, suc, ◌<◌, ◌≤◌, ◌≡◌, refl, ap, ◌∙◌, sym, true, false, ◌||◌, List, [], ◌∷◌, ◌++◌, some, arith,
  length, All-append, All, if◌then◌else◌, append-nil, ltb,
}
use ldcp_sdk.Error.{no_error}
use ldcp_sdk.Json.{Json}
use ldcp_sdk.Json.Data.{JsonData}
use ldcp_sdk.Transport.{Transport}
use ldcp_sdk.Packet.{verify_oob_packet}
use ldcp_sdk.Network.{Network}
use ldcp_sdk.Session.{
  State, Event, wait_for, deliver, scan_block_ready, poll_for_scan_block,
  scan_block_buffering_count,
}
use ldcp_sdk.Session.Queues.{newest, newest_all}
use ldcp_sdk.Session.Receive.{receive, scan_messages, oob_packets, receive-primary, receive-oob}
use ldcp_sdk.Device.{angular_fov_270deg, angular_fov_360deg}
use ldcp_sdk.Device.Scan.{ScanBlock, ScanFrame}
use ldcp_sdk.Device.Block.{BlockData, LayeredBlock, read_scan_block}
use ldcp_sdk.Device.Block.Frames.{IsWide, Stamp, packets_from, joined}
use ldcp_sdk.Device.Reader.{returned, Batches, read_session_frame}
use ldcp_sdk.Device.Reader.Queued.{Reads, read_session_frame-Reads}
use ldcp_sdk.Device.Reader.Sealed.{IsSealed, packets-verified}
use ldcp_sdk.Device.Reader.Packets.{block_total, packets-FrameReads}
use ldcp_sdk.Network.Datagrams.{Datagram, Carries, oob_received, oob_received-Carries}

module _ (j : Json) (t : Transport j.Value) where
  open j use {Value}

  wait-goes_on :
      (s : State j t) (batch : List (Event Value)) (later : Batches j t)
      → (scan_block_ready j t s).1 ≡ false
      → wait_for (scan_block_ready j t) (deliver j t) (batch ∷ later) s
        ≡ wait_for (scan_block_ready j t) (deliver j t) later (receive j t s batch)
  unfolding wait_for scan_block_ready
  wait-goes_on s batch later h = rw h refl

  not-scan_block_ready :
      (s : State j t)
      → s.scan_block_queue_primary ≡ []
      → s.scan_block_queue_oob ≡ []
      → (scan_block_ready j t s).1 ≡ false
  unfolding scan_block_ready
  not-scan_block_ready s e f =
      ap (λ q. ltb 0 (length q) || ltb 0 (length s.scan_block_queue_oob)) e
      ∙ ap (λ (q : List (List ℕ)). ltb 0 (length q)) f

  -- With nothing in the queues a read waits for the first batch.
  read-waits :
      (d : JsonData j) (s : State j t) (b : LayeredBlock) (batch : List (Event Value))
      (later : Batches j t)
      → s.scan_block_queue_primary ≡ []
      → s.scan_block_queue_oob ≡ []
      → read_scan_block j d t s b (batch ∷ later)
        ≡ read_scan_block j d t (receive j t s batch) b later
  unfolding read_scan_block poll_for_scan_block
  read-waits d s b batch later e f =
      rw (wait-goes_on s batch later (not-scan_block_ready s e f)) refl

  Reads-waits :
      (d : JsonData j) (xs : List ScanBlock) (s : State j t) (b : LayeredBlock)
      (batch : List (Event Value)) (later : Batches j t)
      (end : State j t × LayeredBlock × Batches j t)
      → 0 < length xs
      → s.scan_block_queue_primary ≡ []
      → s.scan_block_queue_oob ≡ []
      → Reads j d t xs (receive j t s batch) b later end
      → Reads j d t xs s b (batch ∷ later) end
  Reads-waits d [] s b batch later end h e f rs = absurd (omega (arith, h))
  Reads-waits d (x ∷ xs) s b batch later end h e f rs = rw (read-waits d s b batch later e f) rs

  whole :
      (packets : List (List ℕ))
      → length packets ≤ scan_block_buffering_count
      → newest scan_block_buffering_count packets ≡ packets
  whole packets fits =
      ap (newest scan_block_buffering_count) (sym (append-nil packets))
      ∙ newest_all scan_block_buffering_count packets fits

  -- What a batch with no scan notification leaves in empty queues.
  receive-queues :
      (s : State j t) (batch : List (Event Value)) (packets : List (List ℕ))
      → s.scan_block_queue_primary ≡ []
      → s.scan_block_queue_oob ≡ []
      → scan_messages j t batch ≡ []
      → oob_packets j t batch ≡ packets
      → length packets ≤ scan_block_buffering_count
      → ((receive j t s batch).scan_block_queue_primary ≡ [])
        × ((receive j t s batch).scan_block_queue_oob ≡ packets)
  receive-queues s batch packets e f quiet only fits = (
    receive-primary j t s batch (rw e (omega arith))
        ∙ ap (λ q. newest scan_block_buffering_count (q ++ scan_messages j t batch)) e
        ∙ ap (newest scan_block_buffering_count) quiet,
    receive-oob j t s batch (rw f (omega arith))
        ∙ ap (λ q. newest scan_block_buffering_count (q ++ oob_packets j t batch)) f
        ∙ ap (newest scan_block_buffering_count) only
        ∙ whole packets fits,
  )

  -- What NetworkTransport hands on of the datagrams that carry a frame.
  oob_received-frame :
      (earlier h : Stamp) (k : ℕ) (dropped layers : List BlockData) (rest : List (List ℕ))
      (x : Network Value) (ds : List Datagram)
      → IsSealed earlier (suc k) dropped
      → IsSealed h 0 layers
      → All (λ p. verify_oob_packet p ≡ true) rest
      → Carries x.device_address ds
          (packets_from earlier (suc k) dropped ++ (packets_from h 0 layers ++ rest))
      → (oob_received x ds).1
        ≡ packets_from earlier (suc k) dropped ++ (packets_from h 0 layers ++ rest)
  oob_received-frame earlier h k dropped layers rest x ds sealed₁ sealed₂ checked c =
      oob_received-Carries x.device_address x ds _ refl c (
        All-append (λ p. verify_oob_packet p ≡ true) (packets_from earlier (suc k) dropped)
          (packets_from h 0 layers ++ rest) (packets-verified earlier (suc k) dropped sealed₁)
          (All-append (λ p. verify_oob_packet p ≡ true) (packets_from h 0 layers) rest
            (packets-verified h 0 layers sealed₂) checked))

  -- A transport receives datagrams of which those of its device carry the end of an earlier frame,
  -- then the packets of a frame, all of one width and as many as the count that they tell (8 for 0),
  -- and checked packets behind them: each with its checksum, 32 packets at most, and any datagrams
  -- of others or with a wrong packet in between. A session with empty queues, which waits in
  -- readScanFrame, is delivered the packets that the transport hands on, with no scan notification
  -- among them. Then readScanFrame returns the frame: the ranges and intensities of its packets in
  -- order, with its time and angle of view; the packets behind it stay in the queue.
  pub read_session_frame-datagrams :
      (d : JsonData j) (earlier h : Stamp) (n k m : ℕ) (dropped : List BlockData)
      (layer : BlockData) (layers : List BlockData) (rest : List (List ℕ)) (x : Network Value)
      (ds : List Datagram) (s : State j t) (scan_block : LayeredBlock) (old : ScanFrame)
      (batch : List (Event Value)) (later : Batches j t)
      → All (IsWide n) dropped
      → All (IsWide m) (layer ∷ layers)
      → suc (length layers) ≡ block_total h
      → IsSealed earlier (suc k) dropped
      → IsSealed h 0 (layer ∷ layers)
      → All (λ p. verify_oob_packet p ≡ true) rest
      → Carries x.device_address ds
          (packets_from earlier (suc k) dropped ++ (packets_from h 0 (layer ∷ layers) ++ rest))
      → length (packets_from earlier (suc k) dropped ++ (packets_from h 0 (layer ∷ layers) ++ rest))
        ≤ scan_block_buffering_count
      → s.scan_block_queue_primary ≡ []
      → s.scan_block_queue_oob ≡ []
      → scan_messages j t batch ≡ []
      → oob_packets j t batch ≡ (oob_received x ds).1
      → (frame : ScanFrame) × (read_session_frame j d t s scan_block old (batch ∷ later)
          ≡ some (
              returned
                (record (receive j t s batch) { scan_block_queue_oob = rest })
                no_error
                frame
                later))
        × (frame.ranges ≡ joined (λ l. l.ranges) (layer ∷ layers))
        × (frame.intensities ≡ joined (λ l. l.intensities) (layer ∷ layers))
        × (frame.timestamp ≡ h.time)
        × (frame.angular_fov ≡ (if h.full then angular_fov_360deg else angular_fov_270deg))
  read_session_frame-datagrams d earlier h n k m dropped layer layers rest x ds s scan_block old
        batch later first wide many sealed₁ sealed₂ checked carried fits e f quiet handed =
      let handed_on =
        oob_received-frame earlier h k dropped (layer ∷ layers) rest x ds sealed₁ sealed₂ checked
          carried in
      let (primary, oob) = receive-queues s batch _ e f quiet (handed ∙ handed_on) fits in
      let r =
        packets-FrameReads j d t earlier h n k m dropped layer layers rest (receive j t s batch)
          scan_block old later first wide many primary oob in
      (
        r.read.frame,
        read_session_frame-Reads j d t r.blocks s scan_block old (batch ∷ later)
            (record (receive j t s batch) { scan_block_queue_oob = rest }, r.last, later) r.read
            (Reads-waits d r.blocks s scan_block batch later _ r.some_block e f r.reads) r.completes
            r.succeeds r.all_read,
        r.ranges,
        r.intensities,
        r.timestamp,
        r.fov,
      )
