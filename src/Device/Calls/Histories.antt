-- ===== src/Device/Calls/Histories.antt =====
-- Histories of a device (include/ldcp/device.h, include/ldcp/device_base.h).
use mathlib.Core.Option.{some-injective}
use Prim.Native.String.{String}
use ldcp_sdk.Prelude.{
  ℕ, ◌≡◌, refl, ap, ◌∙◌, sym, subst, List, [], ◌∷◌, Option, some, map-eq-some, bind-eq-some,
}
use ldcp_sdk.Location.{NetworkLocation}
use ldcp_sdk.Json.{Json}
use ldcp_sdk.Json.Data.{JsonData}
use ldcp_sdk.Transport.{Transport}
use ldcp_sdk.Session.{State}
use ldcp_sdk.Session.History.{step}
use ldcp_sdk.Session.History
use ldcp_sdk.Device.{
  Returned, Output, ask, recognised, untouched, assigned, thrown, is_oob_enabled,
  get_oob_target_port, get_setting, as_text,
}
use ldcp_sdk.Device.Calls.Runs.{Runs, Runs-refl, Runs-step, Runs-trans}
use ldcp_sdk.Device.{
  query_model, query_serial, query_firmware_version, query_hardware_version, query_state,
  query_motor_frequency, query_operation_mode, read_timestamp, reset_timestamp, start_measurement,
  stop_measurement, start_streaming, stop_streaming, persist_settings, get_host_name,
  get_scan_frequency, is_shadow_filter_enabled, get_shadow_filter_strength,
  get_oob_auto_start_streaming, set_host_name, set_scan_frequency, set_shadow_filter_enabled,
  set_shadow_filter_strength, set_oob_enabled, set_oob_auto_start_streaming, set_oob_target_port,
  get_scan_resolution, set_scan_resolution, get_angular_fov, set_angular_fov, reboot_to_bootloader,
  reboot, query_info, set_setting, call_method,
}
use ldcp_sdk.Session.{new_session, deliver}
use ldcp_sdk.Session.Invariant.{IsWellFormed}
use ldcp_sdk.Session.History.{run-IsWellFormed}
use ldcp_sdk.Device.Base.{Base}
use ldcp_sdk.Device.Calls.{new_device, Step, calls, receives, step_device, run_device, perform}
use ldcp_sdk.Device.Calls.Refinement.{perform-Runs}

module _ (j : Json) (d : JsonData j) (t : Transport j.Value) (to_string : ℕ → String)
    (from_string : String → Option ℕ) where
  step_device-Runs :
      (base base' : Base j t) (s : State j t) (c : Step j d t to_string from_string)
      → base.session ≡ some s
      → step_device j d t to_string from_string base c ≡ some base'
      → (s' : State j t) × (base' ≡ record base { session = some s' }) × Runs j t s s'
  unfolding step_device step
  step_device-Runs base base' s (calls m bs) there e =
      let (s₁, found, rest) = bind-eq-some _ base.session e in
      let (s', done, same) =
        map-eq-some _ (perform j d t to_string from_string base.location s₁ m bs) rest in
      let one : s₁ ≡ s = some-injective _ _ (sym found ∙ there) in
      (
        s',
        sym same,
        subst (λ x. Runs j t x s') one
            (perform-Runs j d t to_string from_string base.location s₁ s' m bs done),
      )
  step_device-Runs base base' s (receives event) there e =
      let (s₁, found, same) = map-eq-some _ base.session e in
      let one : s₁ ≡ s = some-injective _ _ (sym found ∙ there) in
      (
        _,
        sym same,
        subst (λ x. Runs j t x (deliver j t s₁ event)) one
            (Runs-step j t s₁ (deliver j t s₁ event) (History.receives event) tt refl),
      )

  -- Whatever methods are called on a device, and whatever is delivered between them and meanwhile:
  -- if all of them return, the device keeps its location, and its session is one that deliveries and
  -- calls of the session's own interface, with JSON-RPC requests where they take one, lead to from
  -- the one that it had.
  pub run_device-Runs :
      (cs : List (Step j d t to_string from_string)) (base base' : Base j t) (s : State j t)
      → base.session ≡ some s
      → run_device j d t to_string from_string base cs ≡ some base'
      → (s' : State j t) × (base' ≡ record base { session = some s' }) × Runs j t s s'
  unfolding run_device
  run_device-Runs [] base base' s there e = (
    s,
    sym (some-injective _ _ e) ∙ ap (λ (o : Option (State j t)). record base { session = o }) there,
    Runs-refl j t s,
  )
  run_device-Runs (c ∷ cs) base base' s there e =
      let (base₁, done, rest) = bind-eq-some _ (step_device j d t to_string from_string base c) e in
      let (s₁, same, first) = step_device-Runs base base₁ s c there done in
      let (s', same', more) =
        run_device-Runs cs base₁ base' s₁ (ap (λ (x : Base j t). x.session) same) rest in
      (
        s',
        same' ∙ ap (λ (x : Base j t). record x { session = some s' }) same,
        Runs-trans j t s s₁ s' first more,
      )

  -- A device that is made for a location has a well-formed session, whatever was called on it since.
  pub run_device-IsWellFormed :
      (cs : List (Step j d t to_string from_string)) (location : NetworkLocation) (base : Base j t)
      → run_device j d t to_string from_string (new_device j t location) cs ≡ some base
      → (s : State j t) × (base ≡ record { location = some location; session = some s })
        × IsWellFormed j t s
  unfolding new_device ldcp_sdk.Device.Base.new_device_base
  run_device-IsWellFormed cs location base e =
      let (s, same, (made, _, ran)) =
        run_device-Runs cs (new_device j t location) base (new_session j t) refl e in
      (s, same, run-IsWellFormed j t made s ran)
