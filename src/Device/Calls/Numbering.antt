-- ===== src/Device/Calls/Numbering.antt =====
-- The documents that a device (src/device.cpp, src/device_base.cpp) hands over through its session
-- (src/session.cpp), over any history.
use Prim.Native.String.{String}
use ldcp_sdk.Prelude.{ℕ, ◌≡◌, refl, ap, ◌∙◌, sym, subst, List, Option, some}
use ldcp_sdk.Prelude.Int.{ℤ, suc_ℤ}
use ldcp_sdk.Location.{NetworkLocation}
use ldcp_sdk.Json.{Json}
use ldcp_sdk.Json.Data.{JsonData}
use ldcp_sdk.Transport.{Transport}
use ldcp_sdk.Session.{State, new_session}
use ldcp_sdk.Session.Transports.{Holds, IsKept, run-Has}
use ldcp_sdk.Device.Documents.{IsRequest, Numbered, Numbered-snoc, numbered-IsDocument}
use ldcp_sdk.Device.Base.{Base}
use ldcp_sdk.Device.Calls.{new_device, Step, run_device}
use ldcp_sdk.Device.Calls.Histories.{run_device-Runs}

module _ (j : Json) (t : Transport j.Value) where
  -- The transport was handed numbered requests only, of which the last has this number.
  abbrev pub IsNumbered : ℤ → t.State → Type 0
  IsNumbered id x = (first : ℤ) × Numbered j first (t.transmitted x) id

  requests-IsNumbered : IsKept j t (IsRequest j) IsNumbered
  requests-IsNumbered = record {
    connects = λ id l timeout. (
      id,
      subst (λ vs. Numbered j id vs id)
          (sym (t.transmitted-connect (t.create l) timeout ∙ t.transmitted-create l)) refl,
    );
    transmits = λ id x request g (first, n). (
      first,
      subst (λ vs. Numbered j first vs (suc_ℤ id)) (sym (t.transmitted-transmit_message x _))
          (Numbered-snoc j first id (t.transmitted x) _ n (numbered-IsDocument j request _ g)),
    );
    enables = λ id x l (first, n).
        (first, subst (λ vs. Numbered j first vs id) (sym (t.transmitted-enable_oob x l)) n);
  }

  new_session-Holds : Holds j t (IsNumbered (new_session j t).id) (new_session j t).transport
  unfolding new_session
  new_session-Holds = tt

module _ (j : Json) (d : JsonData j) (t : Transport j.Value) (to_string : ℕ → String)
    (from_string : String → Option ℕ) where
  -- Whatever methods are called on a device that is made for a location, and whatever is delivered
  -- between them and meanwhile: if all of them return, and the device is then connected, each
  -- document that was handed over on that connection is a JSON-RPC 2.0 request (an object whose
  -- method is a text, or null), and their ids are consecutive numbers, of which the last is the
  -- session's number.
  pub run_device-IsNumbered :
      (cs : List (Step j d t to_string from_string)) (location : NetworkLocation) (base : Base j t)
      → run_device j d t to_string from_string (new_device j t location) cs ≡ some base
      → (s : State j t) × (base.session ≡ some s) × Holds j t (IsNumbered j t s.id) s.transport
  unfolding new_device ldcp_sdk.Device.Base.new_device_base
  run_device-IsNumbered cs location base e =
      let (s, same, (made, own, ran)) =
        run_device-Runs j d t to_string from_string cs (new_device j t location) base
          (new_session j t) refl e in
      (
        s,
        ap (λ (b : Base j t). b.session) same,
        run-Has j t (IsRequest j) (IsNumbered j t) (requests-IsNumbered j t) made (new_session j t)
            s own ran (new_session-Holds j t),
      )
