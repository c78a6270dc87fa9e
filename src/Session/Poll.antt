-- ===== src/Session/Poll.antt =====
-- Session::pollForScanBlock: what a poll hands out.
use ldcp_sdk.Prelude.{ℕ, ◌≡◌, List, [], ◌∷◌, arith}
use ldcp_sdk.Error.{ErrorCode, no_error, timed_out}
use ldcp_sdk.Json.{Json}
use ldcp_sdk.Transport.{Transport}
use ldcp_sdk.Session.{
  State, Event, Polled, ScanData, nothing, notification, oob_data, wait_for, scan_block_ready,
  take_block, poll_for_scan_block, scan_block_buffering_count,
}
use ldcp_sdk.Session.Queues.{newest}
use ldcp_sdk.Session.Receive.{receive, scan_messages, oob_packets, receive-primary, receive-oob}

module _ (j : Json) (t : Transport j.Value) where
  open j use {Value}

  abbrev pub Queues : Type 0
  Queues = List Value × List (List ℕ)

  -- The queues when the wait ends: at once if one of them holds something, else after the first
  -- batch that brings something.
  pub ready_queues : List Value → List (List ℕ) → List (List (Event Value)) → Queues
  ready_queues (m ∷ q) o batches = (m ∷ q, o)
  ready_queues [] (p ∷ o) batches = ([], p ∷ o)
  ready_queues [] [] [] = ([], [])
  ready_queues [] [] (batch ∷ batches) =
      ready_queues (newest scan_block_buffering_count (scan_messages j t batch))
        (newest scan_block_buffering_count (oob_packets j t batch)) batches

  -- The front of the primary queue comes first, then that of the OOB queue.
  pub polled : Queues → ErrorCode × ScanData Value × Queues
  polled (m ∷ q, o) = (no_error, notification m, (q, o))
  polled ([], p ∷ o) = (no_error, oob_data p, ([], o))
  polled ([], []) = (timed_out, nothing, ([], []))

  abbrev pub result_of :
      Polled (State j t) (Event Value) Value → ErrorCode × ScanData Value × Queues
  result_of p =
      (p.result, p.block, (p.state.scan_block_queue_primary, p.state.scan_block_queue_oob))

  -- A poll returns the oldest buffered block, notifications before OOB packets, and removes only
  -- that from the queues; with nothing buffered it waits for the first batch that brings a block,
  -- of which the newest 32 of either kind are kept, and times out if none does.
  pub poll_for_scan_block-polled :
      (batches : List (List (Event Value))) (s : State j t) (q : List Value) (o : List (List ℕ))
      → s.scan_block_queue_primary ≡ q
      → s.scan_block_queue_oob ≡ o
      → result_of (poll_for_scan_block j t s batches) ≡ polled (ready_queues q o batches)
  unfolding poll_for_scan_block ready_queues polled scan_block_ready wait_for take_block
  poll_for_scan_block-polled [] s (m ∷ q) o e f = ground arith
  poll_for_scan_block-polled (batch ∷ batches) s (m ∷ q) o e f = ground arith
  poll_for_scan_block-polled [] s [] (p ∷ o) e f = ground arith
  poll_for_scan_block-polled (batch ∷ batches) s [] (p ∷ o) e f = ground arith
  poll_for_scan_block-polled [] s [] [] e f = ground arith
  poll_for_scan_block-polled (batch ∷ batches) s [] [] e f = ground (
    arith,
    receive-primary j t s batch,
    receive-oob j t s batch,
    poll_for_scan_block-polled batches (receive j t s batch)
        (newest scan_block_buffering_count (scan_messages j t batch))
        (newest scan_block_buffering_count (oob_packets j t batch)),
  )
