-- ===== src/Session/State.antt =====
-- The state of class Session (include/ldcp/session.h), the queues' operations, and the wait on a
-- condition variable.
use mathlib.Core.List.{foldl}
use ldcp_sdk.Prelude.{
  ℕ, Bool, true, List, [], ◌∷◌, ◌++◌, map, Option, ◌==◌, if◌then◌else◌, if_keeps, length, drop,
}
use ldcp_sdk.Prelude.Int.{ℤ, pos}
use ldcp_sdk.Error.{ErrorCode}

abbrev pub scan_block_buffering_count : ℕ
scan_block_buffering_count = 32

abbrev pub default_timeout : ℤ
default_timeout = pos 3000

-- `id` is the number of the last request; `transport` is null when the session is not open.
pub record Session (Value TransportState : Type 0) : Type 0 where
  pub timeout : ℤ
  pub transport : Option TransportState
  pub id : ℤ
  pub response_queue : List Value
  pub scan_block_queue_primary : List Value
  pub scan_block_queue_oob : List (List ℕ)

-- std::remove_if with no erase behind it: the kept elements move to the front, and the places
-- behind them keep what stood there, moved from where it was kept.
module _ {A : Type 0} (moved : A → A) (p : A → Bool) where
  abbrev pub kept : List A → List A
  kept [] = []
  kept (x ∷ xs) = if p x then kept xs else x ∷ kept xs

  unfoldable pub remove_if : List A → List A
  remove_if xs = kept xs ++ map (λ x. if p x then x else moved x) (drop (length (kept xs)) xs)

-- push_back, with pop_front before it when the queue is full.
unfoldable pub push_bounded {ℓ} : {A : Type ℓ} → ℕ → List A → A → List A
push_bounded bound xs a = (if length xs == bound then drop 1 xs else xs) ++ (a ∷ [])

-- What the receiving thread hands to the session.
pub data Event (Value : Type 0) : Type 0 where
  message : Value → Event Value
  oob_packet : List ℕ → Event Value

-- The result of a wait on a condition variable: whether the predicate held in the end, and the
-- batches that were not delivered when it ended.
pub record Waited (S E : Type 0) : Type 0 where
  pub state : S
  pub ready : Bool
  pub later : List (List E)

-- condition_variable::wait_for with a predicate that may change the state: it is tested at first and
-- after each batch of deliveries, and once more at the timeout, which comes behind the last batch.
unfoldable pub wait_for :
    {S E : Type 0} → (S → S × Bool) → (S → E → S) → List (List E) → S → Waited S E
wait_for test deliver [] s =
    let (s', ready) = test s in record { state = s'; ready = ready; later = [] }
wait_for test deliver (batch ∷ batches) s =
    let (s', ready) = test s in
    let rest = wait_for test deliver batches (foldl deliver s' batch) in
    if ready then record { state = s'; ready = true; later = batch ∷ batches } else rest

-- A call of executeCommand: the session behind it, the result, and the document that the reference
-- parameter `response` is given, if any.
pub record Executed (S E Value : Type 0) : Type 0 where
  pub state : S
  pub result : ErrorCode
  pub response : Option Value
  pub later : List (List E)

-- What pollForScanBlock hands out through its two reference parameters.
pub data ScanData (Value : Type 0) : Type 0 where
  nothing : ScanData Value
  notification : Value → ScanData Value
  oob_data : List ℕ → ScanData Value

pub record Polled (S E Value : Type 0) : Type 0 where
  pub state : S
  pub result : ErrorCode
  pub block : ScanData Value
  pub later : List (List E)

-- A call of open or close, with the transport objects that it destroys.
pub record Switched (S T : Type 0) : Type 0 where
  pub state : S
  pub result : ErrorCode
  pub destroyed : List T

-- What the test and every delivery keep holds at the end of a wait.
pub wait_for-keeps {ℓ} :
    {S E : Type 0} (P : S → Type ℓ) (test : S → S × Bool) (deliver : S → E → S)
    → ((s : S) → P s → P (test s).0)
    → ((s : S) (e : E) → P s → P (deliver s e))
    → (batches : List (List E)) (s : S) → P s
    → P (wait_for test deliver batches s).state
unfolding wait_for
wait_for-keeps P test deliver tested delivered [] s h = tested s h
wait_for-keeps {S} {E} P test deliver tested delivered (batch ∷ batches) s h =
    if_keeps (λ (w : Waited S E). P w.state) (test s).1 (tested s h)
      (wait_for-keeps P test deliver tested delivered batches (foldl deliver (test s).0 batch)
        (received batch (test s).0 (tested s h)))
  where
    received : (es : List E) (x : S) → P x → P (foldl deliver x es)
    received [] x p = p
    received (e ∷ es) x p = received es (deliver x e) (delivered x e p)
