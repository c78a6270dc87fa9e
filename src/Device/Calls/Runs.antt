-- ===== src/Device/Calls/Runs.antt =====
-- What a command of a device (src/device.cpp) calls on its session (src/session.cpp).
use mathlib.Core.Option
use mathlib.Core.Option.{some-injective}
use ldcp_sdk.Prelude.{
  ◌≡◌, refl, ap, ◌∙◌, sym, subst, List, [], ◌∷◌, some, map-eq-some, bind-eq-some, All,
}
use ldcp_sdk.Json.{Json}
use ldcp_sdk.Transport.{Transport}
use ldcp_sdk.Session.{State, Event, Executed, execute_command, poll_for_scan_block}
use ldcp_sdk.Session.History.{Call, executes, polls, step, run}
use ldcp_sdk.Session.Transports.{Asks}
use ldcp_sdk.Device.Documents.{IsRequest}
use ldcp_sdk.Device.{Returned, Output, ask, returned}

module _ (j : Json) (t : Transport j.Value) where
  open j use {Value}

  -- A call whose request, if it is given one, is a request of JSON-RPC.
  abbrev pub IsOwn : Call j t → Type 0
  IsOwn = Asks j t (IsRequest j)

  -- The session gets from one state to the other by some such calls.
  abbrev pub Runs : State j t → State j t → Type 0
  Runs s s' = (cs : List (Call j t)) × All IsOwn cs × (run j t s cs ≡ some s')

  pub Runs-refl : (s : State j t) → Runs s s
  unfolding run
  Runs-refl s = ([], tt, refl)

  run-append :
      (s₁ s₂ : State j t) (cs : List (Call j t)) (s : State j t)
      → All IsOwn cs
      → run j t s cs ≡ some s₁
      → Runs s₁ s₂
      → Runs s s₂
  unfolding run mathlib.Core.Option.bind
  run-append s₁ s₂ [] s g e more = subst (λ x. Runs x s₂) (sym (some-injective _ _ e)) more
  run-append s₁ s₂ (c ∷ cs) s (g, gs) e more =
      let (u, done, rest) = bind-eq-some _ (step j t s c) e in
      let (cs', gs', e') = run-append s₁ s₂ cs u gs rest more in
      (c ∷ cs', (g, gs'), ap (λ o. Option.bind o (λ u'. run j t u' cs')) done ∙ e')

  pub Runs-trans : (s s₁ s₂ : State j t) → Runs s s₁ → Runs s₁ s₂ → Runs s s₂
  Runs-trans s s₁ s₂ (cs, g, e) more = run-append s₁ s₂ cs s g e more

  pub Runs-step : (s s' : State j t) (c : Call j t) → IsOwn c → step j t s c ≡ some s' → Runs s s'
  unfolding run mathlib.Core.Option.bind
  Runs-step s s' c g e = (c ∷ [], (g, tt), rw e refl)

  pub execute_command-Runs :
      (s : State j t) (request : Value) (batches : List (List (Event Value)))
      (e : Executed (State j t) (Event Value) Value)
      → IsRequest j request
      → execute_command j t s request batches ≡ some e
      → Runs s e.state
  unfolding step
  execute_command-Runs s request batches e g done =
      Runs-step s e.state (executes request batches) g (rw done refl)

  pub ask-Runs :
      {A : Type 0} (s : State j t) (request : Value) (convert : Value → Output A)
      (batches : List (List (Event Value))) (r : Returned (State j t) (Event Value) A)
      → IsRequest j request
      → ask j t s request convert batches ≡ some r
      → Runs s r.state
  unfolding ask returned
  ask-Runs s request convert batches r g done =
      let (e, sent, same) = map-eq-some _ (execute_command j t s request batches) done in
      subst (λ (r' : Returned (State j t) (Event Value) _). Runs s r'.state) same
        (execute_command-Runs s request batches e g sent)

  pub poll-Runs :
      (s : State j t) (batches : List (List (Event Value)))
      → Runs s (poll_for_scan_block j t s batches).state
  unfolding step
  poll-Runs s batches = Runs-step s _ (polls batches) tt refl
