-- ===== src/Network/Conversation.antt =====
-- Commands one after the other over the wire: Session (src/session.cpp) over a NetworkTransport
-- (src/transport.cpp) whose writes complete, and a device that replies to each request.
use mathlib.Core.Option
use ldcp_sdk.Prelude.{
  ◌≡◌, refl, ap, sym, subst, true, false, List, [], ◌∷◌, ◌++◌, map, Option, none, some,
  append_assoc, append-nil,
}
use ldcp_sdk.Prelude.Int.{ℤ, suc_ℤ}
use ldcp_sdk.Json.{Json}
use ldcp_sdk.Transport.{Transport}
use ldcp_sdk.Outgoing.{transmit, start_if_idle, write_front, written}
use ldcp_sdk.Outgoing.Order.{idle, alone}
use ldcp_sdk.Framing.{JsonText}
use ldcp_sdk.Session.{State, Event, execute_command}
use ldcp_sdk.Session.Receive.{IsAnswer, last_answer, receive, receive_keeps}
use ldcp_sdk.Session.Answered.{sent_state, execute_command-answer}
use ldcp_sdk.Network.{Network, Surroundings, network_transport, transmit_message}
use ldcp_sdk.Network.Loop.{occurs, handled, settled, writes}
use ldcp_sdk.Network.Exchange.{Fits, served, served-alone, document_of}

module _ {Value : Type 0} where
  -- A transport that is connected, whose thread runs, and which has written all that it was given.
  pub record IsCalm (sent : List Value) (x : Network Value) : Type 0 where
    pub running : x.worker ≡ true
    pub going : x.io_stopped ≡ false
    pub receiving : x.receiving ≡ true
    pub nothing_left : x.outgoing ≡ idle Value sent

  map-snoc :
      (sent : List Value) (v : Value)
      → map (alone Value) sent ++ (alone Value v ∷ []) ≡ map (alone Value) (sent ++ (v ∷ []))
  map-snoc [] v = refl
  map-snoc (w ∷ sent) v = ap (λ ws. alone Value w ∷ ws) (map-snoc sent v)

  -- It is so again once it has written one more message.
  written-IsCalm :
      (sent : List Value) (x : Network Value) (v : Value)
      → IsCalm sent x
      → IsCalm (sent ++ (v ∷ [])) (occurs (transmit_message x v) writes)
  unfolding transmit_message transmit start_if_idle write_front occurs handled settled written alone
  written-IsCalm sent x v c = record {
    running = rw (c.running, c.going, c.receiving, c.nothing_left) refl;
    going = rw (c.running, c.going, c.receiving, c.nothing_left) refl;
    receiving = rw (c.running, c.going, c.receiving, c.nothing_left) refl;
    nothing_left =
        rw (c.running, c.going, c.receiving, c.nothing_left)
          (ap (λ ws. record { queue = []; buffers = []; writing = false; writes = ws })
            (map-snoc sent v));
  }

module _ (j : Json) (text : JsonText j.Value) (net : Surroundings) where
  open j use {Value}

  abbrev T : Transport Value
  T = network_transport Value net

  -- A request, and what is delivered before its reply.
  abbrev pub Command : Type 0
  Command = Value × List (Event Value)

  -- The requests with their numbers, behind the number `id`.
  abbrev pub documents : ℤ → List Command → List Value
  documents id [] = []
  documents id ((r, before) ∷ cs) =
      j.add_member r "id" (j.number (suc_ℤ id)) ∷ documents (suc_ℤ id) cs

  -- Both texts are of objects, and not too long, the reply is a response to the number, and nothing
  -- before it is.
  pub record IsAnswered (reply : Value → Value) (id : ℤ) (before : List (Event Value))
      (document : Value) : Type 0 where
    pub asked : Fits text document
    pub answered : Fits text (reply document)
    pub answer : IsAnswer j T id (reply document)
    pub silent : last_answer j T id before ≡ none

  abbrev pub AllAnswered : (Value → Value) → ℤ → List Command → Type 0
  AllAnswered reply id [] = Unit
  AllAnswered reply id ((r, before) ∷ cs) =
      IsAnswered reply (suc_ℤ id) before (j.add_member r "id" (j.number (suc_ℤ id)))
      × AllAnswered reply (suc_ℤ id) cs

  -- A session over such a transport, with no response in its queue.
  pub record IsReady (sent : List Value) (s : State j T) : Type 0 where
    pub transport : Network Value
    pub there : s.transport ≡ some transport
    pub calm : IsCalm sent transport
    pub quiet : s.response_queue ≡ []

  -- executeCommand, to which other deliveries and then the device's reply are delivered, and then
  -- the handler of the write.
  unfoldable pub exchange :
      (Value → Value) → State j T → Command → Option (State j T × Option Value)
  exchange reply s (request, before) =
      Option.bind (served text reply (alone Value (document_of j T s request) ∷ [])) (λ batch.
        Option.map
          (λ e. (
            record e.state { transport = Option.map (λ x. occurs x writes) e.state.transport },
            e.response,
          ))
          (execute_command j T s request ((before ++ batch) ∷ [])))

  unfoldable pub converse :
      (Value → Value) → State j T → List Command → Option (State j T × List (Option Value))
  converse reply s [] = some (s, [])
  converse reply s (c ∷ cs) =
      Option.bind (exchange reply s c)
        (λ first. Option.map (λ others. (others.0, first.1 ∷ others.1)) (converse reply first.0 cs))

  -- The session behind an exchange.
  behind : State j T → Network Value → Command → State j T
  behind s x (request, before) =
      let s' : State j T = receive j T (sent_state j T s request x) before in
      record s' { response_queue = []; transport = Option.map (λ y. occurs y writes) s'.transport }

  exchange-answered :
      (reply : Value → Value) (sent : List Value) (s : State j T) (request : Value)
      (before : List (Event Value)) (r : IsReady sent s)
      → IsAnswered reply (suc_ℤ s.id) before (document_of j T s request)
      → exchange reply s (request, before)
        ≡ some (behind s r.transport (request, before), some (reply (document_of j T s request)))
  unfolding exchange behind mathlib.Core.Option.bind
  exchange-answered reply sent s request before r a =
      let document = document_of j T s request in
      rw
        (
          served-alone text reply (document ∷ []) (a.asked, tt) (a.answered, tt),
          execute_command-answer j T before s request (reply document) r.transport r.there r.quiet
              a.silent a.answer,
        )
        refl

  behind-id :
      (s : State j T) (x : Network Value) (request : Value) (before : List (Event Value))
      → (behind s x (request, before)).id ≡ suc_ℤ s.id
  unfolding behind
  behind-id s x request before = (receive_keeps j T (sent_state j T s request x) before).0

  behind-IsReady :
      (sent : List Value) (s : State j T) (request : Value) (before : List (Event Value))
      (r : IsReady sent s)
      → IsReady (sent ++ (document_of j T s request ∷ [])) (behind s r.transport (request, before))
  unfolding behind
  behind-IsReady sent s request before r =
      let document = document_of j T s request in
      record {
        transport = occurs (transmit_message r.transport document) writes;
        there =
            ap (Option.map (λ y. occurs y writes))
              (receive_keeps j T (sent_state j T s request r.transport) before).1;
        calm = written-IsCalm sent r.transport document r.calm;
        quiet = refl;
      }

  -- A session is ready: open over a NetworkTransport whose thread runs, and which has written all
  -- that it was given, with no response queued. It executes commands one after the other, and the
  -- write of each is completed behind it. A device behind a transport of the same kind reads each
  -- document, and replies with a JSON-RPC 2.0 response that has a result and the number of the
  -- request; all texts are of objects, and no longer than the longest message that is accepted.
  -- Before the reply, anything may be delivered that does not answer the request. Then every command
  -- returns the reply to its own request, which has the next number, and the session is ready again:
  -- the documents have been written, one by one, and no response is left in the queue.
  pub converse-answered :
      (reply : Value → Value) (commands : List Command) (sent : List Value) (s : State j T)
      → IsReady sent s
      → AllAnswered reply s.id commands
      → (s' : State j T) × (converse reply s commands
          ≡ some (s', map some (map reply (documents s.id commands))))
        × IsReady (sent ++ documents s.id commands) s'
  unfolding converse mathlib.Core.Option.bind
  converse-answered reply [] sent s r a =
      (s, refl, subst (λ ws. IsReady ws s) (sym (append-nil sent)) r)
  converse-answered reply ((request, before) ∷ commands) sent s r (a, others) =
      let document = document_of j T s request in
      let next = behind s r.transport (request, before) in
      let same : next.id ≡ suc_ℤ s.id = behind-id s r.transport request before in
      let (s', done, ready) =
        converse-answered reply commands (sent ++ (document ∷ [])) next
          (behind-IsReady sent s request before r)
          (subst (λ z. AllAnswered reply z commands) (sym same) others) in
      (
        s',
        rw (exchange-answered reply sent s request before r a, done)
            (ap
              (λ z. some (s', some (reply document) ∷ map some (map reply (documents z commands))))
              same),
        subst (λ ws. IsReady ws s')
            (append_assoc sent (document ∷ []) (documents (suc_ℤ s.id) commands))
            (subst (λ z. IsReady ((sent ++ (document ∷ [])) ++ documents z commands) s') same
              ready),
      )
