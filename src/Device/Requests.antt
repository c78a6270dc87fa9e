-- ===== src/Device/Requests.antt =====
-- The shape that the command methods of src/device.cpp, src/device_base.cpp and src/bootloader.cpp
-- share: a request over createEmptyRequestObject, executeCommand, and `response["result"]`.
use Prim.Native.String.{String}
use mathlib.Core.Option
use ldcp_sdk.Prelude.{Bool, List, Option, none, some, if◌then◌else◌}
use ldcp_sdk.Prelude.Int.{ℤ}
use ldcp_sdk.Error.{ErrorCode, is_no_error}
use ldcp_sdk.Json.{Json}
use ldcp_sdk.Transport.{Transport}
use ldcp_sdk.Session.{State, Event, Executed, execute_command, create_empty_request_object}

-- What a method does to its reference parameter. A conversion that throws leaves the method.
pub data Output (A : Type 0) : Type 0 where
  untouched : Output A
  assigned : A → Output A
  thrown : Output A

pub record Returned (S E A : Type 0) : Type 0 where
  pub state : S
  pub result : ErrorCode
  pub output : Output A
  pub later : List (List E)

module _ (j : Json) (t : Transport j.Value) where
  open j use {Value, member}

  -- request["method"].SetString(method)
  unfoldable pub method_request : String → Value
  method_request method = j.set_member (create_empty_request_object j t) "method" (j.text method)

  -- AddMember("params", {"entry": entry})
  unfoldable pub entry_params : String → Value
  entry_params entry = j.add_member j.empty_object "entry" (j.text entry)

  -- The requests of device/queryInfo and settings/get.
  unfoldable pub entry_request : String → String → Value
  entry_request method entry = j.add_member (method_request method) "params" (entry_params entry)

  -- The requests of settings/set.
  unfoldable pub set_request : String → Value → Value
  set_request entry value =
      j.add_member (method_request "settings/set") "params"
        (j.add_member (entry_params entry) "value" value)

  -- response["result"] of a document that starts out null.
  abbrev pub result_value : Option Value → Value
  result_value none = member j.null "result"
  result_value (some m) = member m "result"

  -- if (result == error_t::no_error) output = convert(response["result"])
  unfoldable pub returned :
      {A : Type 0}
      → (Value → Output A)
      → Executed (State j t) (Event Value) Value
      → Returned (State j t) (Event Value) A
  returned convert e = record {
    state = e.state;
    result = e.result;
    output = if is_no_error e.result then convert (result_value e.response) else untouched;
    later = e.later;
  }

  -- `none`: there is no transport to call.
  unfoldable pub ask :
      {A : Type 0}
      → State j t
      → Value
      → (Value → Output A)
      → List (List (Event Value))
      → Option (Returned (State j t) (Event Value) A)
  ask s request convert batches =
      Option.map (returned convert) (execute_command j t s request batches)

  -- GetString, GetInt, GetBool and GetDouble
  abbrev pub as_text : Value → Output String
  as_text v = assigned (j.get_text v)

  abbrev pub as_int : Value → Output ℤ
  as_int v = assigned (j.get_int v)

  abbrev pub as_bool : Value → Output Bool
  as_bool v = assigned (j.get_bool v)

  abbrev pub as_double : Value → Output j.Double
  as_double v = assigned (j.get_double v)
