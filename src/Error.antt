-- ===== src/Error.antt =====
-- include/ldcp/error.h, and the error codes that a device reports (src/session.cpp).
use ldcp_sdk.Prelude.{Bool, true, false, ◌||◌, if◌then◌else◌}
use ldcp_sdk.Prelude.Int.{ℤ, negsuc, eq_ℤ}

-- error_t
pub data ErrorCode : Type 0 where
  no_error connection_refused timed_out address_in_use protocol_error not_supported : ErrorCode
  invalid_params device_error unknown : ErrorCode

-- result == error_t::no_error
abbrev pub is_no_error : ErrorCode → Bool
is_no_error no_error = true
is_no_error _ = false

-- ldcp_error_t
abbrev pub ldcp_error_invalid_message : ℤ
ldcp_error_invalid_message = negsuc 0

abbrev pub ldcp_error_checksum_mismatch : ℤ
ldcp_error_checksum_mismatch = negsuc 1

abbrev pub ldcp_error_json_rpc_parse_error : ℤ
ldcp_error_json_rpc_parse_error = negsuc 32699

abbrev pub ldcp_error_json_rpc_invalid_request : ℤ
ldcp_error_json_rpc_invalid_request = negsuc 32599

abbrev pub ldcp_error_json_rpc_method_not_found : ℤ
ldcp_error_json_rpc_method_not_found = negsuc 32600

abbrev pub ldcp_error_json_rpc_invalid_params : ℤ
ldcp_error_json_rpc_invalid_params = negsuc 32601

abbrev pub ldcp_error_json_rpc_internal_error : ℤ
ldcp_error_json_rpc_internal_error = negsuc 32602

-- The ladder of Session::executeCommand on the code of an error response.
unfoldable pub classify_error : ℤ → ErrorCode
classify_error code =
    if eq_ℤ code ldcp_error_invalid_message
      || eq_ℤ code ldcp_error_checksum_mismatch
      || eq_ℤ code ldcp_error_json_rpc_parse_error
      || eq_ℤ code ldcp_error_json_rpc_invalid_request
    then protocol_error
    else if eq_ℤ code ldcp_error_json_rpc_method_not_found
    then not_supported
    else if eq_ℤ code ldcp_error_json_rpc_invalid_params
    then invalid_params
    else if eq_ℤ code ldcp_error_json_rpc_internal_error
    then device_error
    else unknown
