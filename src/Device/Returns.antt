-- ===== src/Device/Returns.antt =====
-- What the command methods of src/device.cpp, src/device_base.cpp and src/bootloader.cpp return.
use ldcp_sdk.Prelude.{◌≤◌, ◌≡◌, false, List, Option, none, some, arith, if◌then◌else◌, length}
use ldcp_sdk.Prelude.Int.{ℤ, suc_ℤ}
use ldcp_sdk.Error.{ErrorCode, no_error, timed_out, is_no_error, classify_error}
use ldcp_sdk.Json.{Json}
use ldcp_sdk.Transport.{Transport}
use ldcp_sdk.Session.{State, Event, Executed, response_error}
use ldcp_sdk.Session.Command.{execute_command-outcome, first_answer, outcome, IsStale}
use ldcp_sdk.Device.{Returned, Output, untouched, returned, ask}

module _ (j : Json) (t : Transport j.Value) where
  open j use {Value, has_member, member}

  classify_error-fails : (code : ℤ) → is_no_error (classify_error code) ≡ false
  unfolding classify_error
  classify_error-fails code = ground arith

  response_error-fails : (m : Value) → is_no_error (response_error j t m) ≡ false
  unfolding response_error
  response_error-fails m =
      ground (arith, classify_error-fails (j.get_int (member (member m "error") "code")))

  -- What a method returns and assigns, given the response that its command waits for.
  pub interpreted : {A : Type 0} → (Value → Output A) → Option Value → ErrorCode × Output A
  interpreted convert none = (timed_out, untouched)
  interpreted convert (some m) =
      if has_member m "result"
      then (no_error, convert (member m "result"))
      else (response_error j t m, untouched)

  returned-interpreted :
      {A : Type 0} (convert : Value → Output A) (o : Option Value)
      (e : Executed (State j t) (Event Value) Value)
      → (e.result, e.response) ≡ outcome j t o
      → ((returned j t convert e).result, (returned j t convert e).output) ≡ interpreted convert o
  unfolding interpreted outcome returned
  returned-interpreted convert none e h = ground (arith, h)
  returned-interpreted convert (some m) e h = ground (arith, h, response_error-fails m)

  -- With no stale response queued, a method over an open session returns and assigns what the answer
  -- to its command makes of it, which is the last answer in the first batch that has one: a timeout
  -- and nothing without an answer, the converted result of a response that has one, and the reported
  -- error and nothing otherwise.
  pub ask-interpreted :
      {A : Type 0} (s : State j t) (request : Value) (convert : Value → Output A)
      (batches : List (List (Event Value))) (x : t.State)
      → s.transport ≡ some x
      → length s.response_queue ≤ 1
      → IsStale j t (suc_ℤ s.id) s.response_queue
      → (r : Returned (State j t) (Event Value) A) × (ask j t s request convert batches ≡ some r)
        × ((r.result, r.output) ≡ interpreted convert (first_answer j t (suc_ℤ s.id) batches))
  unfolding ask
  ask-interpreted s request convert batches x o h k =
      let (e, done, same) = execute_command-outcome j t s request batches x o h k in
      (returned j t convert e, rw done, returned-interpreted convert _ e same)
