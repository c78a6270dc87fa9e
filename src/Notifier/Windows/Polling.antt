-- ===== src/Notifier/Windows/Polling.antt =====
-- The thread of NetworkDeviceNotifierWindows (src/device_notifier.cpp), and start and stop around it.
use mathlib.Core.List.{foldl}
use ldcp_sdk.Prelude.{
  ℕ, zero, suc, ◌≡◌, refl, ap, ◌∙◌, Bool, true, false, List, [], ◌∷◌, ◌++◌, All, replicate,
  if◌then◌else◌, if_cases, ◌⊎◌, inl, inr,
}

-- thread_: none, one that has not run yet, one in its loop, and one that has returned.
pub data Thread : Type 0 where
  absent created looping returned : Thread

-- std::thread::joinable
unfoldable pub joinable : Thread → Bool
joinable absent = false
joinable created = true
joinable looping = true
joinable returned = true

pub record Poller : Type 0 where
  pub active_flag : Bool
  pub thread : Thread
  -- stop waits for the thread.
  pub joining : Bool
  -- A std::thread that can be joined was assigned to.
  pub terminated : Bool

-- NetworkDeviceNotifierWindows::NetworkDeviceNotifierWindows
abbrev pub new_poller : Poller
new_poller = record { active_flag = false; thread = absent; joining = false; terminated = false }

-- NetworkDeviceNotifierWindows::start
unfoldable pub start_polling : Poller → Poller
start_polling s =
    if joinable s.thread then record s { terminated = true } else record s { thread = created }

-- NetworkDeviceNotifierWindows::stop, up to the join
unfoldable pub stop_polling : Poller → Poller
stop_polling s = if s.active_flag then record s { active_flag = false; joining = true } else s

-- The thread goes on: it sets the flag, or tests it.
unfoldable pub thread_step : Thread → Poller → Poller
thread_step absent s = s
thread_step created s = record s { active_flag = true; thread = looping }
thread_step looping s = if s.active_flag then s else record s { thread = returned }
thread_step returned s = s

-- The join returns when the thread has.
unfoldable pub join_step : Thread → Poller → Poller
join_step absent s = s
join_step created s = s
join_step looping s = s
join_step returned s = record s { thread = absent; joining = false }

pub data Move : Type 0 where
  starts stops runs joins : Move

-- A caller that waits in stop calls nothing.
unfoldable pub move : Poller → Move → Poller
move s starts = if s.joining then s else start_polling s
move s stops = if s.joining then s else stop_polling s
move s runs = thread_step s.thread s
move s joins = if s.joining then join_step s.thread s else s

-- A thread that nothing stops.
record IsRunaway (s : Poller) : Type 0 where
  free : s.joining ≡ false
  goes_on :
      ((s.thread ≡ created) × (s.active_flag ≡ false))
      ⊎ ((s.thread ≡ looping) × (s.active_flag ≡ true))

-- Neither of the two calls.
abbrev pub IsOwn : Move → Type 0
IsOwn starts = ⊥
IsOwn stops = ⊥
IsOwn runs = Unit
IsOwn joins = Unit

move-IsRunaway : (s : Poller) (m : Move) → IsOwn m → IsRunaway s → IsRunaway (move s m)
unfolding move thread_step
move-IsRunaway s starts own r = absurd own
move-IsRunaway s stops own r = absurd own
move-IsRunaway s joins own r =
    if_cases IsRunaway s.joining (λ on. absurd (cc (on, r.free))) (λ off. r)
move-IsRunaway s runs own r = elim r.goes_on [
  | inl (first, off) ↦ rw first (record { free = r.free; goes_on = inr (refl, refl) })
  | inr (inside, on) ↦ rw (inside, on) (record { free = r.free; goes_on = inr (refl, refl) })
]

moves-IsRunaway :
    (ms : List Move) (s : Poller) → All IsOwn ms → IsRunaway s → IsRunaway (foldl move s ms)
moves-IsRunaway [] s own r = r
moves-IsRunaway (m ∷ ms) s (one, own) r =
    moves-IsRunaway ms (move s m) own (move-IsRunaway s m one r)

early-IsRunaway : IsRunaway (foldl move new_poller (starts ∷ stops ∷ []))
unfolding move start_polling stop_polling joinable
early-IsRunaway = record { free = refl; goes_on = inl (refl, refl) }

IsRunaway-starts : (s : Poller) → IsRunaway s → (move s starts).terminated ≡ true
unfolding move start_polling joinable
IsRunaway-starts s r = elim r.goes_on [
  | inl (first, off) ↦ rw (r.free, first) refl
  | inr (inside, on) ↦ rw (r.free, inside) refl
]

IsRunaway-thread : (s : Poller) → IsRunaway s → (s.thread ≡ created) ⊎ (s.thread ≡ looping)
IsRunaway-thread s r = elim r.goes_on [
  | inl (first, off) ↦ inl first
  | inr (inside, on) ↦ inr inside
]

-- A stop that follows a start before the thread has run stops nothing: whatever the thread does from
-- then on, it does not return, and the next start assigns to it, which terminates the program.
pub stop_polling-early :
    (ms : List Move)
    → All IsOwn ms
    → let s = foldl move new_poller (starts ∷ stops ∷ ms) in
      ((s.thread ≡ created) ⊎ (s.thread ≡ looping)) × ((move s starts).terminated ≡ true)
stop_polling-early ms own =
    let runaway =
      moves-IsRunaway ms (foldl move new_poller (starts ∷ stops ∷ [])) own early-IsRunaway in
    (IsRunaway-thread _ runaway, IsRunaway-starts _ runaway)

-- A thread in its loop goes round, and one that has returned stays so.
looping-stays :
    (n : ℕ) (ms : List Move) (s : Poller)
    → thread_step s.thread s ≡ s
    → foldl move s (replicate n runs ++ ms) ≡ foldl move s ms
unfolding move
looping-stays zero ms s h = refl
looping-stays (suc n) ms s h =
    ap (λ x. foldl move x (replicate n runs ++ ms)) h ∙ looping-stays n ms s h

-- A stop that comes once the thread has run stops it: the thread returns at its next step, then so
-- does the join, and the notifier is as it was before the start.
pub stop_polling-returns :
    (k n : ℕ)
    → foldl move new_poller
        (starts ∷ runs ∷ (replicate k runs ++ (stops ∷ runs ∷ (replicate n runs ++ (joins ∷ [])))))
      ≡ new_poller
unfolding move start_polling stop_polling joinable thread_step join_step
stop_polling-returns k n =
    looping-stays k (stops ∷ runs ∷ (replicate n runs ++ (joins ∷ [])))
      (record { active_flag = true; thread = looping; joining = false; terminated = false }) refl
    ∙ looping-stays n (joins ∷ [])
        (record { active_flag = false; thread = returned; joining = true; terminated = false }) refl
