-- ===== src/Network/Threads.antt =====
-- The worker threads of a session's transports (src/session.cpp over src/transport.cpp). A
-- std::thread that is destroyed while it can be joined terminates the program.
use ldcp_sdk.Prelude.{
  ◌≡◌, refl, ap, ◌∙◌, sym, subst, true, false, List, [], ◌∷◌, ◌++◌, Option, none, some, if_cases,
  if◌then◌else◌, All,
}
use ldcp_sdk.Prelude.Int.{ℤ}
use ldcp_sdk.Error.{is_no_error}
use ldcp_sdk.Location.{NetworkLocation}
use ldcp_sdk.Json.{Json}
use ldcp_sdk.Transport.{Transport}
use mathlib.Core.Option
use ldcp_sdk.Session.{State, new_session, open_session, close, is_opened, owned}
use ldcp_sdk.Device.Base.{session_destroyed, device_destroyed}
use ldcp_sdk.Network.Pairing.{
  IsPaired, connect-IsPaired, disconnect-joins, new_network-IsPaired, Move, moves, moves-IsPaired,
}
use ldcp_sdk.Session.Transports.{Holds, open_session-destroyed}
use ldcp_sdk.Network.{
  Network, Surroundings, new_network, connect, disconnect, network_transport, new_network-closed,
  connect-connected,
}

module _ (j : Json) (net : Surroundings) where
  open j use {Value}

  abbrev T : Transport Value
  T = network_transport Value net

  -- No thread that is there.
  abbrev pub IsIdle : List (Network Value) → Type 0
  IsIdle xs = All (λ x. x.worker ≡ false) xs

  closed-IsIdle :
      (x : Network Value) → IsPaired x → (if x.primary_open then disconnect x else x).worker ≡ false
  closed-IsIdle x h =
      if_cases (λ (y : Network Value). y.worker ≡ false) x.primary_open
        (λ on. disconnect-joins x on) (λ off. h ∙ off)

  owned-IsIdle :
      (o : Option (Network Value))
      → Holds j T IsPaired o
      → IsIdle (owned j T (Option.map (λ x. if x.primary_open then disconnect x else x) o))
  owned-IsIdle none h = tt
  owned-IsIdle (some x) h = (closed-IsIdle x h, tt)

  close-IsIdle : (s : State j T) → Holds j T IsPaired s.transport → IsIdle (close j T s).destroyed
  unfolding close
  close-IsIdle s h = owned-IsIdle s.transport h

  -- The transport that open drops at once, where it does not connect.
  dropped : NetworkLocation → ℤ → List (Network Value)
  dropped l timeout =
      let r = T.connect (T.create l) timeout in if is_no_error r.1 then [] else r.0 ∷ []

  -- It has joined its thread.
  dropped-IsIdle : (l : NetworkLocation) (timeout : ℤ) → IsIdle (dropped l timeout)
  unfolding dropped
  dropped-IsIdle l timeout =
      let r = connect net (new_network {Value = Value} l) timeout in
      if_cases IsIdle (is_no_error r.1) (λ ok. tt)
        (λ fails. (
          connect-IsPaired net (new_network l) timeout (new_network-IsPaired Value l)
              ∙ connect-connected net (new_network l) timeout (new_network-closed Value l)
              ∙ fails,
          tt,
        ))

  destroyed-dropped :
      (s : State j T) (l : NetworkLocation)
      → (open_session j T s l).destroyed ≡ owned j T s.transport ++ dropped l s.timeout
  unfolding dropped
  destroyed-dropped s l = open_session-destroyed j T s l

  close-transport : (s : State j T) → (close j T s).state.transport ≡ none
  unfolding close
  close-transport s = refl

  unopened-IsIdle :
      (o : Option (Network Value))
      → Holds j T IsPaired o
      → (elim o [ none ↦ false | some x ↦ x.primary_open ]) ≡ false
      → IsIdle (owned j T o)
  unopened-IsIdle none h e = tt
  unopened-IsIdle (some x) h e = (h ∙ e, tt)

  session_destroyed-IsIdle :
      (s : State j T) → Holds j T IsPaired s.transport → IsIdle (session_destroyed j T (some s))
  unfolding session_destroyed is_opened
  session_destroyed-IsIdle s h =
      if_cases IsIdle (is_opened j T s) (λ on. close-IsIdle s h)
        (λ off. unopened-IsIdle s.transport h off)

  -- Whatever calls were made on a new session, and whatever its transport's event loop did meanwhile,
  -- neither close, nor open behind it, nor the
  -- destructor of a device with this session destroys a transport whose worker thread is there.
  pub close-joins :
      (ms : List (Move j net)) (s : State j T) (l : NetworkLocation)
      → moves j net (new_session j T) ms ≡ some s
      → IsIdle (close j T s).destroyed
        × IsIdle (open_session j T (close j T s).state l).destroyed
        × IsIdle (device_destroyed j T (record { location = some l; session = some s }))
  unfolding device_destroyed
  close-joins ms s l e =
      let s' : State j T = (close j T s).state in
      (
        close-IsIdle s (moves-IsPaired j net ms s e),
        subst IsIdle
            (sym (
              destroyed-dropped s' l
              ∙ ap (λ o. owned j T o ++ dropped l s'.timeout) (close-transport s)))
            (dropped-IsIdle l s'.timeout),
        session_destroyed-IsIdle s (moves-IsPaired j net ms s e),
      )

  opened-first :
      (o : Option (Network Value))
      → Holds j T IsPaired o
      → (elim o [ none ↦ false | some x ↦ x.primary_open ]) ≡ true
      → (x : Network Value) × (owned j T o ≡ x ∷ []) × (x.worker ≡ true)
  opened-first none h e = cc
  opened-first (some x) h e = (x, refl, h ∙ e)

  -- Whatever calls were made on a new session, and whatever its transport's event loop did meanwhile,
  -- to open it where it is open destroys a transport
  -- whose worker thread is there.
  pub open_session-terminates :
      (ms : List (Move j net)) (s : State j T) (l : NetworkLocation)
      → moves j net (new_session j T) ms ≡ some s
      → is_opened j T s ≡ true
      → (x : Network Value) × (after : List (Network Value)) × ((open_session j T s l).destroyed
          ≡ x ∷ after)
        × (x.worker ≡ true)
  unfolding is_opened
  open_session-terminates ms s l e opened =
      let (x, first, there) = opened-first s.transport (moves-IsPaired j net ms s e) opened in
      (x, _, destroyed-dropped s l ∙ ap (λ xs. xs ++ dropped l s.timeout) first, there)
