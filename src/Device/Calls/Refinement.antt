-- ===== src/Device/Calls/Refinement.antt =====
-- The calls of a device (src/device.cpp, src/device_base.cpp) as calls of its session
-- (src/session.cpp).
use mathlib.Core.Option
use mathlib.Core.Option.{some-injective}
use Prim.Native.String.{String}
use ldcp_sdk.Prelude.{
  Option-cases, inl, inr, ℕ, ◌≡◌, refl, ap, ◌∙◌, sym, subst, Option, none, some, map-eq-some,
  bind-eq-some,
}
use ldcp_sdk.Location.{NetworkLocation}
use ldcp_sdk.Json.{Json}
use ldcp_sdk.Json.Data.{JsonData}
use ldcp_sdk.Transport.{Transport}
use ldcp_sdk.Session.{State, Event, execute_command}
use ldcp_sdk.Session.History.{step}
use ldcp_sdk.Session.History
use ldcp_sdk.Device.{
  Returned, Output, ask, recognised, write_choice, untouched, assigned, thrown, is_oob_enabled,
  get_oob_target_port, get_setting, as_text,
}
use ldcp_sdk.Device.Documents.{
  IsRequest, method_request-IsRequest, entry_request-IsRequest, set_request-IsRequest,
  read_request-IsRequest, write_request-IsRequest,
}
use ldcp_sdk.Device.Open.{open_device}
use ldcp_sdk.Device.Block.{read_scan_block}
use ldcp_sdk.Device.Reader.{Batches}
use ldcp_sdk.Device.Calls.Runs.{Runs, Runs-refl, Runs-step, execute_command-Runs, ask-Runs}
use ldcp_sdk.Device.Calls.{after_getter, after_command, after_block}
use ldcp_sdk.Device.{
  query_model, query_serial, query_firmware_version, query_hardware_version, query_state,
  query_motor_frequency, query_operation_mode, read_timestamp, reset_timestamp, start_measurement,
  stop_measurement, start_streaming, stop_streaming, persist_settings, get_host_name,
  get_scan_frequency, is_shadow_filter_enabled, get_shadow_filter_strength,
  get_oob_auto_start_streaming, set_host_name, set_scan_frequency, set_shadow_filter_enabled,
  set_shadow_filter_strength, set_oob_enabled, set_oob_auto_start_streaming, set_oob_target_port,
  get_scan_resolution, set_scan_resolution, get_angular_fov, set_angular_fov, reboot_to_bootloader,
  reboot, query_info, set_setting, call_method,
}
use ldcp_sdk.Device.Addresses.{
  get_network_address, set_network_address, get_subnet_mask, set_subnet_mask,
  get_oob_target_address, set_oob_target_address,
}
use ldcp_sdk.Device.Mac.{get_user_mac_address, set_user_mac_address}
use ldcp_sdk.Session.History.{run-IsWellFormed}
use ldcp_sdk.Device.Calls.{
  Method, queries_model, queries_serial, queries_firmware_version, queries_hardware_version,
  queries_state, queries_motor_frequency, queries_operation_mode, reads_timestamp,
  gets_user_mac_address, gets_network_address, gets_subnet_mask, gets_host_name,
  gets_scan_frequency, gets_shadow_filter_enabled, gets_shadow_filter_strength, gets_oob_enabled,
  gets_oob_auto_start_streaming, gets_oob_target_address, gets_oob_target_port, resets_timestamp,
  starts_measurement, stops_measurement, starts_streaming, stops_streaming, persists_settings,
  sets_user_mac_address, sets_network_address, sets_subnet_mask, sets_oob_target_address,
  sets_oob_target_port, sets_host_name, sets_scan_frequency, sets_shadow_filter_strength,
  sets_shadow_filter_enabled, sets_oob_enabled, sets_oob_auto_start_streaming, sets_scan_resolution,
  sets_angular_fov, opens, closes, sets_timeout, reads_scan_frame, reads_scan_block,
  gets_scan_resolution, gets_angular_fov, reboots_to_bootloader, reboots, perform,
}
use ldcp_sdk.Device.Calls.Opening.{open_device-Runs}
use ldcp_sdk.Device.Calls.Frames.{read_scan_block-Runs, read_session_frame-Runs}

module _ (j : Json) (t : Transport j.Value) where
  open j use {Value}

  getter-Runs :
      {A : Type 0} (s s' : State j t) (request : Value) (convert : Value → Output A)
      (bs : Batches j t)
      → IsRequest j request
      → after_getter j t (ask j t s request convert bs) ≡ some s'
      → Runs j t s s'
  unfolding after_getter
  getter-Runs s s' request convert bs g e =
      let (r, asked, same) = map-eq-some _ (ask j t s request convert bs) e in
      subst (Runs j t s) same (ask-Runs j t s request convert bs r g asked)

  command-Runs :
      (s s' : State j t) (request : Value) (bs : Batches j t)
      → IsRequest j request
      → after_command j t (execute_command j t s request bs) ≡ some s'
      → Runs j t s s'
  unfolding after_command
  command-Runs s s' request bs g e =
      let (r, done, same) = map-eq-some _ (execute_command j t s request bs) e in
      subst (Runs j t s) same (execute_command-Runs j t s request bs r g done)

  write_choice-Runs :
      (s s' : State j t) (entry : String) (choice : Option String) (bs : Batches j t)
      → after_command j t (write_choice j t entry choice s bs) ≡ some s'
      → Runs j t s s'
  unfolding after_command write_choice
  write_choice-Runs s s' entry none bs e =
      subst (Runs j t s) (some-injective _ _ e) (Runs-refl j t s)
  write_choice-Runs s s' entry (some text) bs e =
      command-Runs s s' _ bs (write_request-IsRequest j t _ _) e

  module _ {A : Type 0} (from : String → Option A) where
    recognised-state_of :
        (r : Returned (State j t) (Event Value) String) (o : Output String)
        → r.output ≡ o
        → (recognised j t from r).state ≡ r.state
    unfolding recognised
    recognised-state_of r untouched h = rw h refl
    recognised-state_of r thrown h = rw h refl
    recognised-state_of r (assigned text) h = elim (Option-cases (from text)) [
      | inl nothing ↦ rw (h, recognised, nothing) refl
      | inr (a, found) ↦ rw (h, recognised, found) refl
    ]

    recognised-state :
        (r : Returned (State j t) (Event Value) String) → (recognised j t from r).state ≡ r.state
    recognised-state r = recognised-state_of r r.output refl

    recognised-Runs :
        (s s' : State j t) (request : Value) (bs : Batches j t)
        → IsRequest j request
        → after_getter j t (Option.map (recognised j t from) (ask j t s request (as_text j t) bs))
          ≡ some s'
        → Runs j t s s'
    unfolding after_getter
    recognised-Runs s s' request bs g e =
        let (q, mapped, same) =
          map-eq-some _ (Option.map (recognised j t from) (ask j t s request (as_text j t) bs)) e in
        let (r, asked, same') = map-eq-some _ (ask j t s request (as_text j t) bs) mapped in
        subst (Runs j t s)
          (sym (recognised-state r)
            ∙ ap (λ (x : Returned (State j t) (Event Value) A). x.state) same'
            ∙ same)
          (ask-Runs j t s request _ bs r g asked)

module _ (j : Json) (d : JsonData j) (t : Transport j.Value) (to_string : ℕ → String)
    (from_string : String → Option ℕ) where
  open j use {Value}

  -- A method acts on the session as calls of the session's public interface.
  pub perform-Runs :
      (location : Option NetworkLocation) (s s' : State j t) (m : Method) (bs : Batches j t)
      → perform j d t to_string from_string location s m bs ≡ some s'
      → Runs j t s s'
  unfolding perform after_block step query_model query_serial query_firmware_version
      query_hardware_version query_state query_motor_frequency query_operation_mode read_timestamp
      reset_timestamp start_measurement stop_measurement start_streaming stop_streaming
      persist_settings get_host_name get_scan_frequency is_shadow_filter_enabled
      get_shadow_filter_strength is_oob_enabled get_oob_auto_start_streaming set_host_name
      set_scan_frequency set_shadow_filter_enabled set_shadow_filter_strength set_oob_enabled
      set_oob_auto_start_streaming get_oob_target_port set_oob_target_port get_scan_resolution
      set_scan_resolution get_angular_fov set_angular_fov reboot_to_bootloader reboot query_info
      get_setting set_setting call_method get_network_address set_network_address get_subnet_mask
      set_subnet_mask get_oob_target_address set_oob_target_address get_user_mac_address
      set_user_mac_address
  perform-Runs location s s' (sets_timeout timeout) bs e =
      Runs-step j t s s' (History.sets_timeout timeout) tt e
  perform-Runs location s s' opens bs e =
      let (l, there, rest) = bind-eq-some _ location e in
      let (r, done, same) = map-eq-some _ (open_device j t s l bs) rest in
      subst (Runs j t s) same (open_device-Runs j t s l bs r done)
  perform-Runs location s s' closes bs e = Runs-step j t s s' History.closes tt e
  perform-Runs location s s' (reads_scan_frame b frame) bs e =
      read_session_frame-Runs j d t s s' b frame bs e
  perform-Runs location s s' (reads_scan_block b) bs e =
      let (x, decoded, same) = map-eq-some _ (read_scan_block j d t s b bs).block e in
      subst (Runs j t s) same (read_scan_block-Runs j d t s b bs)
  perform-Runs location s s' gets_scan_resolution bs e =
      recognised-Runs j t _ s s' _ bs (read_request-IsRequest j t _) e
  perform-Runs location s s' gets_angular_fov bs e =
      recognised-Runs j t _ s s' _ bs (read_request-IsRequest j t _) e
  perform-Runs location s s' reboots_to_bootloader bs e =
      Runs-step j t s s' (History.sends _) (method_request-IsRequest j t _) e
  perform-Runs location s s' reboots bs e =
      Runs-step j t s s' (History.sends _) (method_request-IsRequest j t _) e
  perform-Runs location s s' queries_model bs e =
      getter-Runs j t s s' _ _ bs (entry_request-IsRequest j t _ _) e
  perform-Runs location s s' queries_serial bs e =
      getter-Runs j t s s' _ _ bs (entry_request-IsRequest j t _ _) e
  perform-Runs location s s' queries_firmware_version bs e =
      getter-Runs j t s s' _ _ bs (entry_request-IsRequest j t _ _) e
  perform-Runs location s s' queries_hardware_version bs e =
      getter-Runs j t s s' _ _ bs (entry_request-IsRequest j t _ _) e
  perform-Runs location s s' queries_state bs e =
      getter-Runs j t s s' _ _ bs (entry_request-IsRequest j t _ _) e
  perform-Runs location s s' queries_motor_frequency bs e =
      getter-Runs j t s s' _ _ bs (entry_request-IsRequest j t _ _) e
  perform-Runs location s s' queries_operation_mode bs e =
      getter-Runs j t s s' _ _ bs (entry_request-IsRequest j t _ _) e
  perform-Runs location s s' reads_timestamp bs e =
      getter-Runs j t s s' _ _ bs (method_request-IsRequest j t _) e
  perform-Runs location s s' gets_user_mac_address bs e =
      getter-Runs j t s s' _ _ bs (entry_request-IsRequest j t _ _) e
  perform-Runs location s s' gets_network_address bs e =
      getter-Runs j t s s' _ _ bs (entry_request-IsRequest j t _ _) e
  perform-Runs location s s' gets_subnet_mask bs e =
      getter-Runs j t s s' _ _ bs (entry_request-IsRequest j t _ _) e
  perform-Runs location s s' gets_host_name bs e =
      getter-Runs j t s s' _ _ bs (entry_request-IsRequest j t _ _) e
  perform-Runs location s s' gets_scan_frequency bs e =
      getter-Runs j t s s' _ _ bs (entry_request-IsRequest j t _ _) e
  perform-Runs location s s' gets_shadow_filter_enabled bs e =
      getter-Runs j t s s' _ _ bs (entry_request-IsRequest j t _ _) e
  perform-Runs location s s' gets_shadow_filter_strength bs e =
      getter-Runs j t s s' _ _ bs (entry_request-IsRequest j t _ _) e
  perform-Runs location s s' gets_oob_enabled bs e =
      getter-Runs j t s s' _ _ bs (entry_request-IsRequest j t _ _) e
  perform-Runs location s s' gets_oob_auto_start_streaming bs e =
      getter-Runs j t s s' _ _ bs (entry_request-IsRequest j t _ _) e
  perform-Runs location s s' gets_oob_target_address bs e =
      getter-Runs j t s s' _ _ bs (entry_request-IsRequest j t _ _) e
  perform-Runs location s s' gets_oob_target_port bs e =
      getter-Runs j t s s' _ _ bs (entry_request-IsRequest j t _ _) e
  perform-Runs location s s' resets_timestamp bs e =
      command-Runs j t s s' _ bs (method_request-IsRequest j t _) e
  perform-Runs location s s' starts_measurement bs e =
      command-Runs j t s s' _ bs (method_request-IsRequest j t _) e
  perform-Runs location s s' stops_measurement bs e =
      command-Runs j t s s' _ bs (method_request-IsRequest j t _) e
  perform-Runs location s s' starts_streaming bs e =
      command-Runs j t s s' _ bs (method_request-IsRequest j t _) e
  perform-Runs location s s' stops_streaming bs e =
      command-Runs j t s s' _ bs (method_request-IsRequest j t _) e
  perform-Runs location s s' persists_settings bs e =
      command-Runs j t s s' _ bs (method_request-IsRequest j t _) e
  perform-Runs location s s' (sets_user_mac_address x) bs e =
      command-Runs j t s s' _ bs (set_request-IsRequest j t _ _) e
  perform-Runs location s s' (sets_network_address x) bs e =
      command-Runs j t s s' _ bs (set_request-IsRequest j t _ _) e
  perform-Runs location s s' (sets_subnet_mask x) bs e =
      command-Runs j t s s' _ bs (set_request-IsRequest j t _ _) e
  perform-Runs location s s' (sets_oob_target_address x) bs e =
      command-Runs j t s s' _ bs (set_request-IsRequest j t _ _) e
  perform-Runs location s s' (sets_oob_target_port x) bs e =
      command-Runs j t s s' _ bs (set_request-IsRequest j t _ _) e
  perform-Runs location s s' (sets_host_name x) bs e =
      command-Runs j t s s' _ bs (set_request-IsRequest j t _ _) e
  perform-Runs location s s' (sets_scan_frequency x) bs e =
      command-Runs j t s s' _ bs (set_request-IsRequest j t _ _) e
  perform-Runs location s s' (sets_shadow_filter_strength x) bs e =
      command-Runs j t s s' _ bs (set_request-IsRequest j t _ _) e
  perform-Runs location s s' (sets_shadow_filter_enabled x) bs e =
      command-Runs j t s s' _ bs (set_request-IsRequest j t _ _) e
  perform-Runs location s s' (sets_oob_enabled x) bs e =
      command-Runs j t s s' _ bs (set_request-IsRequest j t _ _) e
  perform-Runs location s s' (sets_oob_auto_start_streaming x) bs e =
      command-Runs j t s s' _ bs (set_request-IsRequest j t _ _) e
  perform-Runs location s s' (sets_scan_resolution x) bs e = write_choice-Runs j t s s' _ _ bs e
  perform-Runs location s s' (sets_angular_fov x) bs e = write_choice-Runs j t s s' _ _ bs e
