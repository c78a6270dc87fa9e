-- ===== src/Session/History.antt =====
-- Histories of a session: any sequence of calls and deliveries.
use mathlib.Core.Option
use mathlib.Core.Option.{some-injective}
use ldcp_sdk.Prelude.{
  ◌≡◌, subst, List, [], ◌∷◌, Option, some, arith, if_keeps, map-eq-some, bind-eq-some,
}
use ldcp_sdk.Prelude.Int.{ℤ}
use ldcp_sdk.Error.{ErrorCode}
use ldcp_sdk.Location.{NetworkLocation}
use ldcp_sdk.Json.{Json}
use ldcp_sdk.Transport.{Transport}
use ldcp_sdk.Session.{
  State, Event, Switched, deliver, send_request, execute_command, poll_for_scan_block, new_session,
  set_timeout, open_session, close, enable_oob_transport,
}
use ldcp_sdk.Session.Invariant.{
  IsWellFormed, deliver-IsWellFormed, send_request-IsWellFormed, execute_command-IsWellFormed,
  poll-IsWellFormed,
}

module _ (j : Json) (t : Transport j.Value) where
  open j use {Value}

  -- Every call of the public interface, and every delivery by the receiving thread.
  pub data Call : Type 0 where
    sets_timeout : ℤ → Call
    opens : NetworkLocation → Call
    closes : Call
    enables_oob : NetworkLocation → Call
    sends : Value → Call
    executes : Value → List (List (Event Value)) → Call
    polls : List (List (Event Value)) → Call
    receives : Event Value → Call

  -- `none`: the call goes through a null transport.
  unfoldable pub step : State j t → Call → Option (State j t)
  step s (sets_timeout timeout) = some (set_timeout j t s timeout)
  step s (opens location) = some (open_session j t s location).state
  step s closes = some (close j t s).state
  step s (enables_oob location) = Option.map (λ x. x.0) (enable_oob_transport j t s location)
  step s (sends request) = send_request j t s request
  step s (executes request batches) =
      Option.map (λ e. e.state) (execute_command j t s request batches)
  step s (polls batches) = some (poll_for_scan_block j t s batches).state
  step s (receives e) = some (deliver j t s e)

  unfoldable pub run : State j t → List Call → Option (State j t)
  run s [] = some s
  run s (c ∷ cs) = Option.bind (step s c) (λ s'. run s' cs)

  new_session-IsWellFormed : IsWellFormed j t (new_session j t)
  unfolding new_session
  new_session-IsWellFormed = record {
    single = omega arith;
    known = tt;
    primary_bounded = omega arith;
    oob_bounded = omega arith;
  }

  open_session-IsWellFormed :
      (s : State j t) (l : NetworkLocation)
      → IsWellFormed j t s
      → IsWellFormed j t (open_session j t s l).state
  unfolding open_session
  open_session-IsWellFormed s l v =
      if_keeps (λ (x : Switched (State j t) t.State). IsWellFormed j t x.state) _ (same _) (same _)
    where
      same : (o : Option t.State) → IsWellFormed j t (record s { transport = o })
      same o = record {
        single = v.single;
        known = v.known;
        primary_bounded = v.primary_bounded;
        oob_bounded = v.oob_bounded;
      }

  enable_oob_transport-IsWellFormed :
      (s : State j t) (l : NetworkLocation) (x : State j t × ErrorCode)
      → enable_oob_transport j t s l ≡ some x
      → IsWellFormed j t s
      → IsWellFormed j t x.0
  unfolding enable_oob_transport
  enable_oob_transport-IsWellFormed s l x e v =
      let (y, _, same) = map-eq-some _ s.transport e in
      subst (λ (r : State j t × ErrorCode). IsWellFormed j t r.0) same
        (record {
          single = v.single;
          known = v.known;
          primary_bounded = v.primary_bounded;
          oob_bounded = v.oob_bounded;
        })

  set_timeout-IsWellFormed :
      (s : State j t) (timeout : ℤ)
      → IsWellFormed j t s
      → IsWellFormed j t (set_timeout j t s timeout)
  unfolding set_timeout
  set_timeout-IsWellFormed s timeout v = record {
    single = v.single;
    known = v.known;
    primary_bounded = v.primary_bounded;
    oob_bounded = v.oob_bounded;
  }

  close-IsWellFormed : (s : State j t) → IsWellFormed j t s → IsWellFormed j t (close j t s).state
  unfolding close
  close-IsWellFormed s v = record {
    single = omega arith;
    known = tt;
    primary_bounded = omega arith;
    oob_bounded = omega arith;
  }

  -- Every call and every delivery keeps the session well formed.
  pub step-IsWellFormed :
      (s s' : State j t) (c : Call) → step s c ≡ some s' → IsWellFormed j t s → IsWellFormed j t s'
  unfolding step
  step-IsWellFormed s s' (sets_timeout timeout) e v =
      subst (IsWellFormed j t) (some-injective _ _ e) (set_timeout-IsWellFormed s timeout v)
  step-IsWellFormed s s' (opens location) e v =
      subst (IsWellFormed j t) (some-injective _ _ e) (open_session-IsWellFormed s location v)
  step-IsWellFormed s s' closes e v =
      subst (IsWellFormed j t) (some-injective _ _ e) (close-IsWellFormed s v)
  step-IsWellFormed s s' (enables_oob location) e v =
      let (x, done, same) = map-eq-some _ (enable_oob_transport j t s location) e in
      subst (IsWellFormed j t) same (enable_oob_transport-IsWellFormed s location x done v)
  step-IsWellFormed s s' (sends request) e v = send_request-IsWellFormed j t s s' request e v
  step-IsWellFormed s s' (executes request batches) e v =
      let (x, done, same) = map-eq-some _ (execute_command j t s request batches) e in
      subst (IsWellFormed j t) same (execute_command-IsWellFormed j t s request batches x done v)
  step-IsWellFormed s s' (polls batches) e v =
      subst (IsWellFormed j t) (some-injective _ _ e) (poll-IsWellFormed j t s batches v)
  step-IsWellFormed s s' (receives d) e v =
      subst (IsWellFormed j t) (some-injective _ _ e) (deliver-IsWellFormed j t s d v)

  run-keeps :
      (cs : List Call) (s s' : State j t)
      → run s cs ≡ some s'
      → IsWellFormed j t s
      → IsWellFormed j t s'
  unfolding run
  run-keeps [] s s' e v = subst (IsWellFormed j t) (some-injective _ _ e) v
  run-keeps (c ∷ cs) s s' e v =
      let (u, next, rest) = bind-eq-some _ (step s c) e in
      run-keeps cs u s' rest (step-IsWellFormed s u c next v)

  -- After any history of calls and deliveries from its construction, a session queues at most one
  -- response, whose id is a number up to that of the last request (-1 before the first one), and at
  -- most 32 scan blocks of either kind.
  pub run-IsWellFormed :
      (cs : List Call) (s : State j t) → run (new_session j t) cs ≡ some s → IsWellFormed j t s
  run-IsWellFormed cs s e = run-keeps cs (new_session j t) s e new_session-IsWellFormed
