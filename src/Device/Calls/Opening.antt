-- ===== src/Device/Calls/Opening.antt =====
-- What Device::open (src/device.cpp) calls on the session (src/session.cpp).
use mathlib.Core.Option
use mathlib.Core.Option.{some-injective}
use ldcp_sdk.Prelude.{
  ℕ, ◌≡◌, refl, ap, subst, Bool, false, List, Option, some, if_cases, ◌&&◌, map-eq-some,
  bind-eq-some,
}
use ldcp_sdk.Error.{ErrorCode, is_no_error}
use ldcp_sdk.Location.{NetworkLocation}
use ldcp_sdk.Json.{Json}
use ldcp_sdk.Transport.{Transport}
use ldcp_sdk.Session.History
use ldcp_sdk.Session.{State, Event, enable_oob_transport, open_session}
use ldcp_sdk.Session.History.{step}
use ldcp_sdk.Device.{Returned, is_oob_enabled, get_oob_target_port, get_setting}
use ldcp_sdk.Device.Documents.{entry_request-IsRequest}
use ldcp_sdk.Device.Open.{
  any_thread, open_device, after_enabled, after_port, open_oob, closed, Opened, value_of,
}
use ldcp_sdk.Device.Calls.Runs.{Runs, Runs-refl, Runs-step, Runs-trans, ask-Runs}

module _ (j : Json) (t : Transport j.Value) where
  open j use {Value}

  -- Where a call ends, if it does, is a state that calls of the session lead to.
  abbrev Reaches : State j t → Option (State j t) → Type 0
  Reaches s o = (s' : State j t) → o ≡ some s' → Runs j t s s'

  closed-Runs : (s : State j t) (c : ErrorCode) → Runs j t s (closed j t s c).0
  unfolding closed step
  closed-Runs s c = Runs-step j t s _ History.closes tt refl

  open_oob-Runs :
      (s : State j t) (port : ℕ) (r : Opened j t) → open_oob j t s port ≡ some r → Runs j t s r.0
  unfolding open_oob step
  open_oob-Runs s port r e =
      let any : NetworkLocation = record { address = 0; port = port } in
      let (x, done, same) = map-eq-some _ (enable_oob_transport j t s any) e in
      let first : Runs j t s x.0 =
        Runs-step j t s x.0 (History.enables_oob any) tt (ap (Option.map (λ y. y.0)) done) in
      subst (λ (q : Opened j t). Runs j t s q.0) same
        (if_cases (λ (q : Opened j t). Runs j t s q.0) (is_no_error x.1) (λ ok. first)
          (λ no. Runs-trans j t s x.0 _ first (closed-Runs x.0 x.1)))

  after_port-Runs :
      (p : Returned (State j t) (Event Value) ℕ) (r : Opened j t)
      → after_port j t p ≡ some r
      → Runs j t p.state r.0
  unfolding after_port
  after_port-Runs p r =
      if_cases (λ (o : Option (Opened j t)). o ≡ some r → Runs j t p.state r.0)
        (is_no_error p.result) (λ ok e. open_oob-Runs p.state _ r e)
        (λ no e.
          subst (λ (q : Opened j t). Runs j t p.state q.0) (some-injective _ _ e)
            (closed-Runs p.state _))

  after_enabled-Runs :
      (p : Returned (State j t) (Event Value) Bool) (r : Opened j t)
      → after_enabled j t p ≡ some r
      → Runs j t p.state r.0
  unfolding after_enabled get_oob_target_port get_setting
  after_enabled-Runs p r =
      if_cases (λ (o : Option (Opened j t)). o ≡ some r → Runs j t p.state r.0)
        (is_no_error p.result && value_of j t false p.output)
        (λ on e.
          let (q, asked, rest) = bind-eq-some _ (get_oob_target_port j t p.state p.later) e in
          Runs-trans j t p.state q.state r.0
            (ask-Runs j t p.state _ _ p.later q (entry_request-IsRequest j t _ _) asked)
            (after_port-Runs q r rest))
        (λ off e.
          subst (λ (q : Opened j t). Runs j t p.state q.0) (some-injective _ _ e)
            (Runs-refl j t p.state))

  pub open_device-Runs :
      (s : State j t) (location : NetworkLocation) (batches : List (List (Event Value)))
      (r : Opened j t)
      → open_device j t s location batches ≡ some r
      → Runs j t s r.0
  unfolding open_device is_oob_enabled get_setting step
  open_device-Runs s location batches r =
      let s₁ : State j t = (open_session j t s location).state in
      let first : Runs j t s s₁ = Runs-step j t s s₁ (History.opens location) tt refl in
      if_cases (λ (o : Option (Opened j t)). o ≡ some r → Runs j t s r.0)
        (any_thread j t (open_session j t s location).destroyed) (λ terminates e. cc)
        (λ goes_on.
          if_cases (λ (o : Option (Opened j t)). o ≡ some r → Runs j t s r.0)
            (is_no_error (open_session j t s location).result)
            (λ ok e.
              let (p, asked, rest) = bind-eq-some _ (is_oob_enabled j t s₁ batches) e in
              Runs-trans j t s s₁ r.0 first (
                Runs-trans j t s₁ p.state r.0
                  (ask-Runs j t s₁ _ _ batches p (entry_request-IsRequest j t _ _) asked)
                  (after_enabled-Runs p r rest)))
            (λ no e. subst (λ (q : Opened j t). Runs j t s q.0) (some-injective _ _ e) first))
