-- ===== src/Network/Exchange.antt =====
-- What is read off the writes of a NetworkTransport (src/transport.cpp), and a device that replies to
-- the requests of a session (src/session.cpp) behind a transport of the same kind.
use mathlib.Core.Option
use ldcp_sdk.Prelude.{
  ℕ, ◌≤◌, ◌≡◌, refl, ap, ◌∙◌, sym, true, List, [], ◌∷◌, ◌++◌, map, Option, some, length, All,
  append-nil,
}
use ldcp_sdk.Prelude.Int.{suc_ℤ}
use ldcp_sdk.Json.{Json}
use ldcp_sdk.Transport.{Transport}
use ldcp_sdk.Outgoing.Order.{transmits, handed_over, alone}
use ldcp_sdk.Outgoing.Delivery.{run_out, run_out-idle, wire, wire-alone}
use ldcp_sdk.Framing.{JsonText, encapsulate, handle_reads}
use ldcp_sdk.Framing.RoundTrip.{frames, handle_reads-frames}
use ldcp_sdk.Session.{State, Event, message}

module _ {Value : Type 0} (text : JsonText Value) where
  -- An object whose text is not longer than the longest message that is accepted.
  abbrev pub Fits : Value → Type 0
  Fits v = (text.is_object v ≡ true) × (length (text.write v) ≤ 65535)

  -- What a transport reads off the bytes of these writes.
  unfoldable pub read_all : List (List Value) → Option (List Value × List ℕ)
  read_all writes = handle_reads text (map (λ w. length (frames text w)) writes) (wire text writes)

  lengths-alone :
      (vs : List Value)
      → map (λ w. length (frames text w)) (map (alone Value) vs)
        ≡ map (λ v. length (encapsulate text v)) vs
  unfolding alone frames
  lengths-alone [] = refl
  lengths-alone (v ∷ vs) = rw (append-nil (encapsulate text v), lengths-alone vs) refl

  read_all-alone : (vs : List Value) → All Fits vs → read_all (map (alone Value) vs) ≡ some (vs, [])
  unfolding read_all
  read_all-alone vs fits =
      let bytes : wire text (map (alone Value) vs) ≡ frames text vs ++ [] =
        wire-alone text vs ∙ sym (append-nil (frames text vs)) in
      rw (lengths-alone vs, bytes) (handle_reads-frames text vs [] fits)

  handed_over-transmits : (vs : List Value) → handed_over Value (map transmits vs) ≡ vs
  unfolding handed_over
  handed_over-transmits [] = refl
  handed_over-transmits (v ∷ vs) = ap (λ ws. v ∷ ws) (handed_over-transmits vs)

  -- What a session is delivered where a device reads the bytes of these writes, and hands its own
  -- transport a reply to each document.
  unfoldable pub served : (Value → Value) → List (List Value) → Option (List (Event Value))
  served reply writes = Option.bind (read_all writes) (λ requests.
      Option.map (λ replies. map message replies.0)
        (read_all (run_out Value (map transmits (map reply requests.0))).writes))

  pub served-alone :
      (reply : Value → Value) (vs : List Value)
      → All Fits vs
      → All Fits (map reply vs)
      → served reply (map (alone Value) vs) ≡ some (map message (map reply vs))
  unfolding served mathlib.Core.Option.bind
  served-alone reply vs asked answered =
      rw
        (
          read_all-alone vs asked,
          run_out-idle Value (map transmits (map reply vs)),
          handed_over-transmits (map reply vs),
          read_all-alone (map reply vs) answered,
        )
        refl

module _ (j : Json) (t : Transport j.Value) where
  -- A request of a session with its number.
  abbrev pub document_of : State j t → j.Value → j.Value
  document_of s request = j.add_member request "id" (j.number (suc_ℤ s.id))
