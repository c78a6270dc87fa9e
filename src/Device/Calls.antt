-- ===== src/Device/Calls.antt =====
-- include/ldcp/device.h, include/ldcp/device_base.h: a device, with every method of its public
-- interface.
pub mod Runs
pub mod Opening
pub mod Frames
pub mod Refinement
pub mod Histories
pub mod Numbering
use Prim.Native.String.{String}
use mathlib.Core.Option
use ldcp_sdk.Prelude.{ℕ, Bool, List, [], ◌∷◌, Option, none, some}
use ldcp_sdk.Prelude.Int.{ℤ}
use ldcp_sdk.Location.{NetworkLocation}
use ldcp_sdk.Json.{Json}
use ldcp_sdk.Json.Data.{JsonData}
use ldcp_sdk.Transport.{Transport}
use ldcp_sdk.Session.{State, Event, Executed}
use ldcp_sdk.Session
use ldcp_sdk.Device.{
  ScanResolution, AngularFov, Returned, query_model, query_serial, query_firmware_version,
  query_hardware_version, query_state, query_motor_frequency, query_operation_mode, read_timestamp,
  reset_timestamp, start_measurement, stop_measurement, start_streaming, stop_streaming,
  persist_settings, get_host_name, get_scan_frequency, is_shadow_filter_enabled,
  get_shadow_filter_strength, is_oob_enabled, get_oob_auto_start_streaming, set_host_name,
  set_scan_frequency, set_shadow_filter_enabled, set_shadow_filter_strength, set_oob_enabled,
  set_oob_auto_start_streaming, get_oob_target_port, set_oob_target_port, get_scan_resolution,
  set_scan_resolution, get_angular_fov, set_angular_fov, reboot_to_bootloader, reboot,
}
use ldcp_sdk.Device.Addresses.{
  get_network_address, set_network_address, get_subnet_mask, set_subnet_mask,
  get_oob_target_address, set_oob_target_address,
}
use ldcp_sdk.Device.Mac.{get_user_mac_address, set_user_mac_address}
use ldcp_sdk.Manager.{DeviceInfo}
use ldcp_sdk.Device.Base.{DeviceBase, Base, new_device_base, device_base_of, moved}
use ldcp_sdk.Device.Open.{open_device}
use ldcp_sdk.Device.Scan.{ScanFrame}
use ldcp_sdk.Device.Block.{LayeredBlock, BlockRead, read_scan_block}
use ldcp_sdk.Device.Reader.{Ended, returned, faulted, Batches, read_session_frame}

-- Device::Device(Device&&), and the device behind it that was moved from.
unfoldable pub device_moved : {S : Type 0} → DeviceBase S → DeviceBase S × DeviceBase S
device_moved other = moved other

-- The methods, with what they are given. A reference parameter is given the value behind it where
-- the method reads it.
pub data Method : Type 0 where
  sets_timeout : ℤ → Method
  opens closes : Method
  queries_model queries_serial queries_firmware_version queries_hardware_version : Method
  queries_state queries_motor_frequency queries_operation_mode : Method
  reads_timestamp resets_timestamp : Method
  starts_measurement stops_measurement starts_streaming stops_streaming : Method
  reads_scan_frame : LayeredBlock → ScanFrame → Method
  reads_scan_block : LayeredBlock → Method
  gets_user_mac_address gets_network_address gets_subnet_mask gets_host_name : Method
  gets_scan_frequency gets_shadow_filter_enabled gets_shadow_filter_strength : Method
  gets_oob_enabled gets_oob_auto_start_streaming gets_oob_target_address : Method
  gets_oob_target_port gets_scan_resolution gets_angular_fov : Method
  sets_user_mac_address : List ℕ → Method
  sets_network_address sets_subnet_mask sets_oob_target_address sets_oob_target_port : ℕ → Method
  sets_host_name : String → Method
  sets_scan_frequency sets_shadow_filter_strength : ℤ → Method
  sets_shadow_filter_enabled sets_oob_enabled sets_oob_auto_start_streaming : Bool → Method
  sets_scan_resolution : ScanResolution → Method
  sets_angular_fov : AngularFov → Method
  persists_settings reboots_to_bootloader reboots : Method

module _ (j : Json) (t : Transport j.Value) where
  -- Device::Device(const Location&)
  unfoldable pub new_device : NetworkLocation → Base j t
  new_device location = new_device_base j t location

  -- Device::Device(const DeviceInfo&)
  unfoldable pub device_of : DeviceInfo → Base j t
  device_of device_info = device_base_of j t device_info

  -- The session behind a method with an output, and behind one with none.
  unfoldable pub after_getter :
      {A : Type 0} → Option (Returned (State j t) (Event j.Value) A) → Option (State j t)
  after_getter o = Option.map (λ r. r.state) o

  unfoldable pub after_command :
      Option (Executed (State j t) (Event j.Value) j.Value) → Option (State j t)
  after_command o = Option.map (λ e. e.state) o

  unfoldable pub after_block : BlockRead (State j t) (Event j.Value) → Option (State j t)
  after_block r = Option.map (λ b. r.state) r.block

  unfoldable pub ended_state : Ended (State j t) (Event j.Value) → Option (State j t)
  ended_state (returned s result frame later) = some s
  ended_state faulted = none

  unfoldable pub after_frame : Option (Ended (State j t) (Event j.Value)) → Option (State j t)
  after_frame o = Option.bind o ended_state

module _ (j : Json) (d : JsonData j) (t : Transport j.Value) (to_string : ℕ → String)
    (from_string : String → Option ℕ) where
  -- The session behind a method. `none`: it does not return.
  unfoldable pub perform :
      Option NetworkLocation → State j t → Method → Batches j t → Option (State j t)
  perform location s (sets_timeout timeout) bs = some (Session.set_timeout j t s timeout)
  perform location s opens bs =
      Option.bind location (λ l. Option.map (λ r. r.0) (open_device j t s l bs))
  perform location s closes bs = some (Session.close j t s).state
  perform location s queries_model bs = after_getter j t (query_model j t s bs)
  perform location s queries_serial bs = after_getter j t (query_serial j t s bs)
  perform location s queries_firmware_version bs =
      after_getter j t (query_firmware_version j t s bs)
  perform location s queries_hardware_version bs =
      after_getter j t (query_hardware_version j t s bs)
  perform location s queries_state bs = after_getter j t (query_state j t s bs)
  perform location s queries_motor_frequency bs = after_getter j t (query_motor_frequency j t s bs)
  perform location s queries_operation_mode bs = after_getter j t (query_operation_mode j t s bs)
  perform location s reads_timestamp bs = after_getter j t (read_timestamp j t s bs)
  perform location s resets_timestamp bs = after_command j t (reset_timestamp j t s bs)
  perform location s starts_measurement bs = after_command j t (start_measurement j t s bs)
  perform location s stops_measurement bs = after_command j t (stop_measurement j t s bs)
  perform location s starts_streaming bs = after_command j t (start_streaming j t s bs)
  perform location s stops_streaming bs = after_command j t (stop_streaming j t s bs)
  perform location s (reads_scan_frame scan_block frame) bs =
      after_frame j t (read_session_frame j d t s scan_block frame bs)
  perform location s (reads_scan_block b) bs = after_block j t (read_scan_block j d t s b bs)
  perform location s gets_user_mac_address bs = after_getter j t (get_user_mac_address j d t s bs)
  perform location s gets_network_address bs =
      after_getter j t (get_network_address j t to_string from_string s bs)
  perform location s gets_subnet_mask bs =
      after_getter j t (get_subnet_mask j t to_string from_string s bs)
  perform location s gets_host_name bs = after_getter j t (get_host_name j t s bs)
  perform location s gets_scan_frequency bs = after_getter j t (get_scan_frequency j t s bs)
  perform location s gets_shadow_filter_enabled bs =
      after_getter j t (is_shadow_filter_enabled j t s bs)
  perform location s gets_shadow_filter_strength bs =
      after_getter j t (get_shadow_filter_strength j t s bs)
  perform location s gets_oob_enabled bs = after_getter j t (is_oob_enabled j t s bs)
  perform location s gets_oob_auto_start_streaming bs =
      after_getter j t (get_oob_auto_start_streaming j t s bs)
  perform location s gets_oob_target_address bs =
      after_getter j t (get_oob_target_address j t to_string from_string s bs)
  perform location s gets_oob_target_port bs = after_getter j t (get_oob_target_port j t s bs)
  perform location s gets_scan_resolution bs = after_getter j t (get_scan_resolution j t s bs)
  perform location s gets_angular_fov bs = after_getter j t (get_angular_fov j t s bs)
  perform location s (sets_user_mac_address address) bs =
      after_command j t (set_user_mac_address j d t address s bs)
  perform location s (sets_network_address address) bs =
      after_command j t (set_network_address j t to_string from_string address s bs)
  perform location s (sets_subnet_mask subnet) bs =
      after_command j t (set_subnet_mask j t to_string from_string subnet s bs)
  perform location s (sets_oob_target_address address) bs =
      after_command j t (set_oob_target_address j t to_string from_string address s bs)
  perform location s (sets_oob_target_port port) bs =
      after_command j t (set_oob_target_port j t port s bs)
  perform location s (sets_host_name name) bs = after_command j t (set_host_name j t name s bs)
  perform location s (sets_scan_frequency frequency) bs =
      after_command j t (set_scan_frequency j t frequency s bs)
  perform location s (sets_shadow_filter_strength strength) bs =
      after_command j t (set_shadow_filter_strength j t strength s bs)
  perform location s (sets_shadow_filter_enabled enabled) bs =
      after_command j t (set_shadow_filter_enabled j t enabled s bs)
  perform location s (sets_oob_enabled enabled) bs =
      after_command j t (set_oob_enabled j t enabled s bs)
  perform location s (sets_oob_auto_start_streaming enabled) bs =
      after_command j t (set_oob_auto_start_streaming j t enabled s bs)
  perform location s (sets_scan_resolution resolution) bs =
      after_command j t (set_scan_resolution j t resolution s bs)
  perform location s (sets_angular_fov angular_fov) bs =
      after_command j t (set_angular_fov j t angular_fov s bs)
  perform location s persists_settings bs = after_command j t (persist_settings j t s bs)
  perform location s reboots_to_bootloader bs = reboot_to_bootloader j t s
  perform location s reboots bs = reboot j t s

  -- A method that is called, and a delivery to the device's session between the calls.
  pub data Step : Type 0 where
    calls : Method → Batches j t → Step
    receives : Event j.Value → Step

  -- A device that was moved from has no session.
  unfoldable pub step_device : Base j t → Step → Option (Base j t)
  step_device base (calls m bs) =
      Option.bind base.session
        (λ s. Option.map (λ s'. record base { session = some s' }) (perform base.location s m bs))
  step_device base (receives e) =
      Option.map (λ s. record base { session = some (Session.deliver j t s e) }) base.session

  unfoldable pub run_device : Base j t → List Step → Option (Base j t)
  run_device base [] = some base
  run_device base (c ∷ cs) = Option.bind (step_device base c) (λ base'. run_device base' cs)
