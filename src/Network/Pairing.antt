-- ===== src/Network/Pairing.antt =====
-- The worker thread of a network transport and its socket (src/transport.cpp), through the calls on
-- a session and the events of the transport's loop.
use mathlib.Core.Option
use mathlib.Core.Option.{some-injective}
use ldcp_sdk.Prelude.{
  ◌≡◌, refl, ◌∙◌, sym, subst, true, false, List, [], ◌∷◌, Option, none, some, arith, if_keeps,
  bind-eq-some,
}
use ldcp_sdk.Prelude.Int.{ℤ}
use ldcp_sdk.Error.{ErrorCode}
use ldcp_sdk.Location.{NetworkLocation}
use ldcp_sdk.Json.{Json}
use ldcp_sdk.Transport.{Transport}
use ldcp_sdk.Session.{State, new_session}
use ldcp_sdk.Session.History.{Call, step}
use ldcp_sdk.Session.Transports.{Holds, Asks-any, IsKept, step-Has}
use ldcp_sdk.Network.Loop.{Event, occurs, occurs-worker}
use ldcp_sdk.Network.{
  Network, Surroundings, Attempt, Bound, accepted, refused, failing, unanswered, bound, in_use,
  unbound, new_network, attempted, not_connected, connect, disconnect, transmit_message, oob_bound,
  enable_oob, network_transport,
}

module _ {Value : Type 0} where
  -- The thread is there if and only if the socket is open.
  abbrev pub IsPaired : Network Value → Type 0
  IsPaired s = s.worker ≡ s.primary_open

  attempted-IsPaired : (s : Network Value) (a : Attempt) → IsPaired (attempted s a).0
  unfolding attempted not_connected
  attempted-IsPaired s accepted = refl
  attempted-IsPaired s refused = refl
  attempted-IsPaired s failing = refl
  attempted-IsPaired s unanswered = refl

  pub connect-IsPaired :
      (net : Surroundings) (s : Network Value) (timeout : ℤ)
      → IsPaired s
      → IsPaired (connect net s timeout).0
  unfolding connect
  connect-IsPaired net s timeout h =
      if_keeps (λ (x : Network Value × ErrorCode). IsPaired x.0) s.worker h (attempted-IsPaired s _)

  oob_bound-IsPaired : (s : Network Value) (b : Bound) → IsPaired s → IsPaired (oob_bound s b).0
  unfolding oob_bound
  oob_bound-IsPaired s bound h = h
  oob_bound-IsPaired s in_use h = h
  oob_bound-IsPaired s unbound h = h

  enable_oob-IsPaired :
      (net : Surroundings) (s : Network Value) (l : NetworkLocation)
      → IsPaired s
      → IsPaired (enable_oob net s l).0
  unfolding enable_oob
  enable_oob-IsPaired net s l h =
      if_keeps (λ (x : Network Value × ErrorCode). IsPaired x.0) s.oob_open h
        (oob_bound-IsPaired s (net.bind l) h)

  transmit_message-IsPaired :
      (s : Network Value) (message : Value) → IsPaired s → IsPaired (transmit_message s message)
  unfolding transmit_message
  transmit_message-IsPaired s message h = h

  pub disconnect-joins : (s : Network Value) → s.primary_open ≡ true → (disconnect s).worker ≡ false
  unfolding disconnect
  disconnect-joins s h = ground (arith, h)

  occurs-IsPaired : (s : Network Value) (e : Event) → IsPaired s → IsPaired (occurs s e)
  occurs-IsPaired s e h =
      let (worker, primary_open) = occurs-worker s e in worker ∙ h ∙ sym primary_open

pub new_network-IsPaired :
    (Value : Type 0) (l : NetworkLocation) → IsPaired (new_network {Value = Value} l)
unfolding new_network
new_network-IsPaired Value l = refl

module _ (j : Json) (net : Surroundings) where
  open j use {Value}

  abbrev pub T : Transport Value
  T = network_transport Value net

  session-IsPaired : IsKept j T (λ request. Unit) (λ id. IsPaired)
  session-IsPaired = record {
    connects =
        λ id l timeout. connect-IsPaired net (new_network l) timeout (new_network-IsPaired Value l);
    transmits = λ id x request any h. transmit_message-IsPaired x _ h;
    enables = λ id x l h. enable_oob-IsPaired net x l h;
  }

  -- A call, or an event of the loop of the session's transport.
  pub data Move : Type 0 where
    calls : Call j T → Move
    undergoes : Event → Move

  unfoldable pub move : State j T → Move → Option (State j T)
  move s (calls c) = step j T s c
  move s (undergoes e) = some (record s { transport = Option.map (λ x. occurs x e) s.transport })

  unfoldable pub moves : State j T → List Move → Option (State j T)
  moves s [] = some s
  moves s (m ∷ ms) = Option.bind (move s m) (λ s'. moves s' ms)

  occurs-Holds :
      (o : Option (Network Value)) (e : Event)
      → Holds j T IsPaired o
      → Holds j T IsPaired (Option.map (λ x. occurs x e) o)
  occurs-Holds none e h = tt
  occurs-Holds (some x) e h = occurs-IsPaired x e h

  move-IsPaired :
      (s s' : State j T) (m : Move)
      → move s m ≡ some s'
      → Holds j T IsPaired s.transport
      → Holds j T IsPaired s'.transport
  unfolding move
  move-IsPaired s s' (calls c) e h =
      step-Has j T (λ request. Unit) (λ id. IsPaired) session-IsPaired s s' c (Asks-any j T c) e h
  move-IsPaired s s' (undergoes event) e h =
      subst (λ (x : State j T). Holds j T IsPaired x.transport) (some-injective _ _ e)
        (occurs-Holds s.transport event h)

  moves-Holds :
      (ms : List Move) (s s' : State j T)
      → moves s ms ≡ some s'
      → Holds j T IsPaired s.transport
      → Holds j T IsPaired s'.transport
  unfolding moves
  moves-Holds [] s s' e h =
      subst (λ (x : State j T). Holds j T IsPaired x.transport) (some-injective _ _ e) h
  moves-Holds (m ∷ ms) s s' e h =
      let (s₁, done, more) = bind-eq-some _ (move s m) e in
      moves-Holds ms s₁ s' more (move-IsPaired s s₁ m done h)

  new_session-IsPaired : Holds j T IsPaired (new_session j T).transport
  unfolding new_session
  new_session-IsPaired = tt

  pub moves-IsPaired :
      (ms : List Move) (s : State j T)
      → moves (new_session j T) ms ≡ some s
      → Holds j T IsPaired s.transport
  moves-IsPaired ms s e = moves-Holds ms (new_session j T) s e new_session-IsPaired
