-- ===== src/Notifier/Windows/Round.antt =====
-- The loop over the pending requests in NetworkDeviceNotifierWindows::start (src/device_notifier.cpp):
-- a list that the callbacks change meanwhile.
pub mod Behind
pub mod Once
use ldcp_sdk.Prelude.{
  ℕ, zero, suc, Bool, true, false, List, [], ◌∷◌, Option, none, some, ◌==◌, if◌then◌else◌,
}
use mathlib.Core.Option
use ldcp_sdk.Notifier.Windows.{Sockets, Windows}
use ldcp_sdk.Notifier.Windows.Requests.{Event, run}

-- An element of the list, each of which stands there once.
unfoldable pub holds : ℕ → List ℕ → Bool
holds x [] = false
holds x (y ∷ ys) = let rest = holds x ys in if y == x then true else rest

-- Iterators of std::list: the element, or `none` at the end.
unfoldable pub begin : List ℕ → Option ℕ
begin [] = none
begin (x ∷ xs) = some x

-- iter++
unfoldable pub next : ℕ → List ℕ → Option ℕ
next x [] = none
next x (y ∷ ys) = let rest = next x ys in if y == x then begin ys else rest

-- The element is there still, or the iterator is at the end.
unfoldable pub is_valid : Option ℕ → List ℕ → Bool
is_valid none xs = true
is_valid (some x) xs = holds x xs

-- `ready` is copyed_read_set_; `answers` are the callbacks that DNSServiceProcessResult calls for a
-- request.
module _ (w : Sockets) (txt_items : List ℕ → List (List ℕ × List ℕ)) (ready : w.Set)
    (answers : ℕ → List Event) where
  -- The body of the loop behind iter++.
  unfoldable pub process_ready : Windows w → ℕ → Option (Windows w)
  process_ready s current =
      if w.fd_isset (w.socket current) ready then run w txt_items s (answers current) else some s

  -- The inner loop, in at most `fuel` rounds. `none`: it takes more, a callback fails, or the
  -- element that the iterator points to is gone.
  unfoldable pub round : ℕ → Windows w → Option ℕ → Option (Windows w)
  round zero s iter = none
  round (suc fuel) s none = some s
  round (suc fuel) s (some current) =
      let iter = next current s.pending_requests in
      Option.bind (process_ready s current) (λ s'.
        let rest = round fuel s' iter in if is_valid iter s'.pending_requests then rest else none)

  -- The inner loop from the front of the list.
  unfoldable pub poll_round : Windows w → ℕ → Option (Windows w)
  poll_round s fuel = round fuel s (begin s.pending_requests)

  -- Each of the requests that is ready, once, in order.
  unfoldable pub process_all : Windows w → List ℕ → Option (Windows w)
  process_all s [] = some s
  process_all s (r ∷ rs) = Option.bind (process_ready s r) (λ s'. process_all s' rs)
