-- ===== src/Notifier/Windows/Round/Once.antt =====
-- Which requests a round of NetworkDeviceNotifierWindows::start processes (src/device_notifier.cpp).
use mathlib.Core.Option
use ldcp_sdk.Prelude.{
  ℕ, zero, suc, ◌<◌, ◌≡◌, refl, subst, false, List, [], ◌∷◌, some, arith, if_cases, All, length,
  Option-cases, inl, inr,
}
use mathlib.Core.Option.{some-injective}
use ldcp_sdk.Notifier.Windows.{Sockets, Windows}
use ldcp_sdk.Notifier.Windows.Requests.{Event}
use ldcp_sdk.Notifier.Windows.Round.{holds, begin, process_ready, round, poll_round, process_all}
use ldcp_sdk.Notifier.Windows.Round.Behind.{
  Behind, Behind-all, Behind-next, Behind-valid, IsDistinct, IsFor, Keeps, run-Keeps,
}

module _ (w : Sockets) (txt_items : List ℕ → List (List ℕ × List ℕ)) (ready : w.Set)
    (answers : ℕ → List Event) where
  -- The callbacks for each request are for it, and what they make is none of the requests behind.
  abbrev pub IsAnswered : List ℕ → Type 0
  IsAnswered [] = Unit
  IsAnswered (r ∷ rs) = All (IsFor rs r) (answers r) × IsAnswered rs

  process_ready-Keeps :
      (rs : List ℕ) (s s' : Windows w) (r : ℕ)
      → holds r rs ≡ false
      → All (IsFor rs r) (answers r)
      → process_ready w txt_items ready answers s r ≡ some s'
      → Keeps w txt_items rs s
      → Keeps w txt_items rs s'
  unfolding process_ready
  process_ready-Keeps rs s s' r once own e b =
      if_cases (λ o. o ≡ some s' → Keeps w txt_items rs s') (w.fd_isset (w.socket r) ready)
        (λ is e'. run-Keeps w txt_items rs (answers r) s s' r once own e' b)
        (λ not e'. subst (Keeps w txt_items rs) (some-injective _ _ e') b) e

  round-process_all :
      (rs : List ℕ) (fuel : ℕ) (s : Windows w)
      → IsDistinct rs
      → IsAnswered rs
      → Behind rs s.pending_requests
      → length rs < fuel
      → round w txt_items ready answers fuel s (begin rs)
        ≡ process_all w txt_items ready answers s rs
  unfolding round process_all begin mathlib.Core.Option.bind
  round-process_all rs zero s d own b h = absurd (omega (arith, h))
  round-process_all [] (suc fuel) s d own b h = refl
  round-process_all (r ∷ rs) (suc fuel) s (once, d) (one, own) b h =
      let (steps, later) = Behind-next r rs s.pending_requests once b in
      elim (Option-cases (process_ready w txt_items ready answers s r)) [
        | inl fails ↦ rw fails refl
        | inr (s', done) ↦
            let b' : Behind rs s'.pending_requests =
              process_ready-Keeps rs s s' r once one done later in
            rw (done, steps, Behind-valid rs s'.pending_requests b')
              (round-process_all rs fuel s' d own b' (omega (arith, h)))
      ]

  -- Where no request is in the list twice, and Bonjour calls for each of them callbacks with that
  -- request, which make none of the requests behind it, a round of the thread's loop processes each
  -- request that was in the list at its start and is ready, once and in order, whatever the
  -- callbacks add and remove: the iterator stays valid.
  pub poll_round-once :
      (s : Windows w)
      → IsDistinct s.pending_requests
      → IsAnswered s.pending_requests
      → poll_round w txt_items ready answers s (suc (length s.pending_requests))
        ≡ process_all w txt_items ready answers s s.pending_requests
  unfolding poll_round
  poll_round-once s d own =
      round-process_all s.pending_requests (suc (length s.pending_requests)) s d own
        (Behind-all s.pending_requests) (omega arith)
