-- ===== src/Bootloader.antt =====
-- include/ldcp/bootloader.h, src/bootloader.cpp: the commands of a firmware update. The static text
-- that a request refers to is what it is when the request is made.
pub mod Content
pub mod Static
use Prim.Native.String.{String}
use ldcp_sdk.Prelude.{ℕ, Bool, List, Option, take}
use ldcp_sdk.Base64.{base64_encode}
use ldcp_sdk.Json.{Json}
use ldcp_sdk.Json.Data.{JsonData}
use ldcp_sdk.Transport.{Transport}
use ldcp_sdk.Device.{Command, Getter, Output, assigned, ask, as_bool, call_method, method_request}
use ldcp_sdk.Session.{State, Event, execute_command}

-- Bootloader::HASH_LENGTH
abbrev pub hash_length : ℕ
hash_length = 16

module _ (j : Json) (d : JsonData j) (t : Transport j.Value) where
  open j use {Value}

  -- AddMember("params", {name: encoded})
  unfoldable pub encoded_params : String → List ℕ → Value
  encoded_params name bytes = j.add_member j.empty_object name (d.bytes_text (base64_encode bytes))

  -- The requests with a binary parameter.
  unfoldable pub encoded_request : String → String → List ℕ → Value
  encoded_request method name bytes =
      j.add_member (method_request j t method) "params" (encoded_params name bytes)

  -- Bootloader::beginUpdate
  unfoldable pub begin_update : Command j t
  begin_update = call_method j t "firmware/beginUpdate"

  -- Bootloader::writeData
  unfoldable pub write_data : List ℕ → Command j t
  write_data content s batches =
      execute_command j t s (encoded_request "firmware/writeData" "content" content) batches

  -- Bootloader::endUpdate
  unfoldable pub end_update : Command j t
  end_update = call_method j t "firmware/endUpdate"

  -- Bootloader::verifyHash
  unfoldable pub verify_hash : List ℕ → Getter j t Bool
  verify_hash expected s batches =
      ask j t s (encoded_request "firmware/verifyHash" "expected" (take hash_length expected))
        (as_bool j t) batches

  -- Bootloader::commitUpdate
  unfoldable pub commit_update : Command j t
  commit_update = call_method j t "firmware/commitUpdate"
