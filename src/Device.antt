-- ===== src/Device.antt =====
-- src/device.cpp, src/device_base.cpp and src/bootloader.cpp: the commands over the session. Each
-- function is one method: it builds the request, executes it, and hands out what the method assigns
-- to its reference parameter. `batches` is what the receiving thread delivers meanwhile.
mod Requests
pub mod Words
pub mod Addresses
pub mod Returns
pub mod Members
pub mod Documents
pub mod Sent
pub mod Open
pub mod Scan
pub mod Block
pub mod Reader
pub mod Calls
pub mod Mac
pub mod Base
use Prim.Native.String.{String}
use mathlib.Core.Option
use text.Mathlib.Text.{◌==◌}
use ldcp_sdk.Prelude.{ℕ, Bool, List, Option, none, some, if◌then◌else◌}
use ldcp_sdk.Prelude.Int.{ℤ, pos}
use ldcp_sdk.Error.{ErrorCode, device_error, not_supported}
use ldcp_sdk.Json.{Json}
use ldcp_sdk.Transport.{Transport}
use ldcp_sdk.Device.Words.{swap_16, wrap_16, wrap_32}
use ldcp_sdk.Session.{
  State, Event, Executed, execute_command, send_request, create_empty_request_object,
}
unfoldable pub use Requests.*

-- scan_resolution_t, with the values that no enumerator has.
pub data ScanResolution : Type 0 where
  scan_resolution_120k scan_resolution_90k scan_resolution_60k : ScanResolution
  scan_resolution_30k scan_resolution_15k : ScanResolution
  other_scan_resolution : ℕ → ScanResolution

-- angular_fov_t, with the values that no enumerator has.
pub data AngularFov : Type 0 where
  angular_fov_270deg angular_fov_360deg : AngularFov
  other_angular_fov : ℕ → AngularFov

-- The ladder of getScanResolution on the text of the result.
unfoldable pub scan_resolution_from : String → Option ScanResolution
scan_resolution_from s =
    if s == "120k"
    then some scan_resolution_120k
    else if s == "90k"
    then some scan_resolution_90k
    else if s == "60k"
    then some scan_resolution_60k
    else if s == "30k"
    then some scan_resolution_30k
    else if s == "15k"
    then some scan_resolution_15k
    else none

-- The switch of setScanResolution. `none` is its default branch.
unfoldable pub scan_resolution_string : ScanResolution → Option String
scan_resolution_string scan_resolution_120k = some "120k"
scan_resolution_string scan_resolution_90k = some "90k"
scan_resolution_string scan_resolution_60k = some "60k"
scan_resolution_string scan_resolution_30k = some "30k"
scan_resolution_string scan_resolution_15k = some "15k"
scan_resolution_string (other_scan_resolution value) = none

-- The ladder of getAngularFov.
unfoldable pub angular_fov_from : String → Option AngularFov
angular_fov_from s =
    if s == "270deg"
    then some angular_fov_270deg
    else if s == "360deg"
    then some angular_fov_360deg
    else none

-- The switch of setAngularFov.
unfoldable pub angular_fov_string : AngularFov → Option String
angular_fov_string angular_fov_270deg = some "270deg"
angular_fov_string angular_fov_360deg = some "360deg"
angular_fov_string (other_angular_fov value) = none

module _ (j : Json) (t : Transport j.Value) where
  open j use {Value}

  -- A command with an output of type `A`, and one with none. `none`: there is no transport to call.
  abbrev pub Getter : Type 0 → Type 0
  Getter A = State j t → List (List (Event Value)) → Option (Returned (State j t) (Event Value) A)

  abbrev pub Command : Type 0
  Command =
      State j t → List (List (Event Value)) → Option (Executed (State j t) (Event Value) Value)

  unfoldable pub query_info : {A : Type 0} → String → (Value → Output A) → Getter A
  query_info entry convert s batches =
      ask j t s (entry_request j t "device/queryInfo" entry) convert batches

  unfoldable pub get_setting : {A : Type 0} → String → (Value → Output A) → Getter A
  get_setting entry convert s batches =
      ask j t s (entry_request j t "settings/get" entry) convert batches

  unfoldable pub set_setting : String → Value → Command
  set_setting entry value s batches = execute_command j t s (set_request j t entry value) batches

  unfoldable pub call_method : String → Command
  call_method method s batches = execute_command j t s (method_request j t method) batches

  -- Device::queryModel
  unfoldable pub query_model : Getter String
  query_model = query_info "identity.model" (as_text j t)

  -- Device::querySerial
  unfoldable pub query_serial : Getter String
  query_serial = query_info "identity.serial" (as_text j t)

  -- Device::queryFirmwareVersion
  unfoldable pub query_firmware_version : Getter String
  query_firmware_version = query_info "version.firmware" (as_text j t)

  -- Device::queryHardwareVersion
  unfoldable pub query_hardware_version : Getter String
  query_hardware_version = query_info "version.hardware" (as_text j t)

  -- Device::queryState
  unfoldable pub query_state : Getter String
  query_state = query_info "status.state" (as_text j t)

  -- Device::queryMotorFrequency
  unfoldable pub query_motor_frequency : Getter j.Double
  query_motor_frequency = query_info "status.motorFrequency" (as_double j t)

  -- DeviceBase::queryOperationMode
  unfoldable pub query_operation_mode : Getter String
  query_operation_mode = query_info "mode" (as_text j t)

  -- Device::readTimestamp: the 64-bit number is cast to uint32_t.
  unfoldable pub read_timestamp : Getter ℕ
  read_timestamp s batches =
      ask j t s (method_request j t "device/readTimestamp")
        (λ v. assigned (wrap_32 (j.get_int64 v))) batches

  -- Device::resetTimestamp
  unfoldable pub reset_timestamp : Command
  reset_timestamp = call_method "device/resetTimestamp"

  -- Device::startMeasurement
  unfoldable pub start_measurement : Command
  start_measurement = call_method "scan/startMeasurement"

  -- Device::stopMeasurement
  unfoldable pub stop_measurement : Command
  stop_measurement = call_method "scan/stopMeasurement"

  -- Device::startStreaming
  unfoldable pub start_streaming : Command
  start_streaming = call_method "scan/startStreaming"

  -- Device::stopStreaming
  unfoldable pub stop_streaming : Command
  stop_streaming = call_method "scan/stopStreaming"

  -- Device::persistSettings
  unfoldable pub persist_settings : Command
  persist_settings = call_method "settings/persist"

  -- Device::getHostName
  unfoldable pub get_host_name : Getter String
  get_host_name = get_setting "connectivity.network.hostName" (as_text j t)

  -- Device::getScanFrequency
  unfoldable pub get_scan_frequency : Getter ℤ
  get_scan_frequency = get_setting "scan.frequency" (as_int j t)

  -- Device::isShadowFilterEnabled
  unfoldable pub is_shadow_filter_enabled : Getter Bool
  is_shadow_filter_enabled = get_setting "filters.shadowFilter.enabled" (as_bool j t)

  -- Device::getShadowFilterStrength
  unfoldable pub get_shadow_filter_strength : Getter ℤ
  get_shadow_filter_strength = get_setting "filters.shadowFilter.strength" (as_int j t)

  -- Device::isOobEnabled
  unfoldable pub is_oob_enabled : Getter Bool
  is_oob_enabled = get_setting "transport.oob.enabled" (as_bool j t)

  -- Device::getOobAutoStartStreaming
  unfoldable pub get_oob_auto_start_streaming : Getter Bool
  get_oob_auto_start_streaming = get_setting "transport.oob.autoStartStreaming" (as_bool j t)

  -- Device::setHostName
  unfoldable pub set_host_name : String → Command
  set_host_name value = set_setting "connectivity.network.hostName" (j.text value)

  -- Device::setScanFrequency
  unfoldable pub set_scan_frequency : ℤ → Command
  set_scan_frequency value = set_setting "scan.frequency" (j.number value)

  -- Device::setShadowFilterEnabled
  unfoldable pub set_shadow_filter_enabled : Bool → Command
  set_shadow_filter_enabled value = set_setting "filters.shadowFilter.enabled" (j.boolean value)

  -- Device::setShadowFilterStrength
  unfoldable pub set_shadow_filter_strength : ℤ → Command
  set_shadow_filter_strength value = set_setting "filters.shadowFilter.strength" (j.number value)

  -- Device::setOobEnabled
  unfoldable pub set_oob_enabled : Bool → Command
  set_oob_enabled value = set_setting "transport.oob.enabled" (j.boolean value)

  -- Device::setOobAutoStartStreaming
  unfoldable pub set_oob_auto_start_streaming : Bool → Command
  set_oob_auto_start_streaming value =
      set_setting "transport.oob.autoStartStreaming" (j.boolean value)

  -- Device::getOobTargetPort: htons of the int.
  unfoldable pub get_oob_target_port : Getter ℕ
  get_oob_target_port =
      get_setting "transport.oob.targetPort" (λ v. assigned (swap_16 (wrap_16 (j.get_int v))))

  -- Device::setOobTargetPort
  unfoldable pub set_oob_target_port : ℕ → Command
  set_oob_target_port port = set_setting "transport.oob.targetPort" (j.number (pos (swap_16 port)))

  -- The requests of the two settings that are read and written by other methods. They add a second
  -- member "method" behind the one that createEmptyRequestObject has made.
  unfoldable pub read_request : String → Value
  read_request entry =
      j.add_member
        (j.add_member (create_empty_request_object j t) "method" (j.text "settings/read")) "params"
        (entry_params j t entry)

  unfoldable pub write_request : String → String → Value
  write_request entry value =
      j.add_member
        (j.add_member (create_empty_request_object j t) "method" (j.text "settings/write")) "params"
        (j.add_member (entry_params j t entry) "value" (j.text value))

  -- A text that is none of the known ones is an error of the device, and assigns nothing.
  unfoldable pub recognised :
      {A : Type 0}
      → (String → Option A)
      → Returned (State j t) (Event Value) String
      → Returned (State j t) (Event Value) A
  recognised from r = elim r.output [
    | untouched ↦ record { state = r.state; result = r.result; output = untouched; later = r.later }
    | thrown ↦ record { state = r.state; result = r.result; output = thrown; later = r.later }
    | assigned s ↦ elim (from s) [
      | none ↦ record {
        state = r.state;
        result = device_error;
        output = untouched;
        later = r.later;
      }
      | some a ↦ record { state = r.state; result = r.result; output = assigned a; later = r.later }
    ]
  ]

  -- What follows the switch of a setter: its default branch returns before a request is made.
  unfoldable pub write_choice : String → Option String → Command
  write_choice entry none s batches =
      some (record { state = s; result = not_supported; response = none; later = batches })
  write_choice entry (some text) s batches =
      execute_command j t s (write_request entry text) batches

  -- Device::getScanResolution
  unfoldable pub get_scan_resolution : Getter ScanResolution
  get_scan_resolution s batches =
      Option.map (recognised scan_resolution_from)
        (ask j t s (read_request "scan.resolution") (as_text j t) batches)

  -- Device::setScanResolution
  unfoldable pub set_scan_resolution : ScanResolution → Command
  set_scan_resolution resolution s batches =
      write_choice "scan.resolution" (scan_resolution_string resolution) s batches

  -- Device::getAngularFov
  unfoldable pub get_angular_fov : Getter AngularFov
  get_angular_fov s batches =
      Option.map (recognised angular_fov_from)
        (ask j t s (read_request "scan.angularFov") (as_text j t) batches)

  -- Device::setAngularFov
  unfoldable pub set_angular_fov : AngularFov → Command
  set_angular_fov angular_fov s batches =
      write_choice "scan.angularFov" (angular_fov_string angular_fov) s batches

  -- Device::rebootToBootloader, which does not wait for a response.
  unfoldable pub reboot_to_bootloader : State j t → Option (State j t)
  reboot_to_bootloader s = send_request j t s (method_request j t "device/rebootToBootloader")

  -- DeviceBase::reboot
  unfoldable pub reboot : State j t → Option (State j t)
  reboot s = send_request j t s (method_request j t "device/reboot")
