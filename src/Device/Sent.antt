-- ===== src/Device/Sent.antt =====
-- What the command methods of src/device.cpp, src/device_base.cpp and src/bootloader.cpp transmit.
use Prim.Native.String.{String}
use mathlib.Core.Option
use mathlib.Core.Option.{some-injective}
use ldcp_sdk.Prelude.{◌≡◌, refl, ap, ◌∙◌, sym, List, [], ◌∷◌, ◌++◌, some}
use ldcp_sdk.Prelude.Int.{ℤ, suc_ℤ}
use ldcp_sdk.Json.{Json}
use ldcp_sdk.Transport.{Transport}
use ldcp_sdk.Session.{
  State, Event, Executed, execute_command, send_request, response_ready, deliver, wait_for,
  wait_for-keeps, finish_command,
}
use ldcp_sdk.Session.Receive.{deliver_keeps}
use ldcp_sdk.Session.Transports.{finish_command-transport, response_ready-transport}
use ldcp_sdk.Device.{
  Returned, Output, returned, ask, set_request, write_request, set_setting, set_scan_resolution,
  write_choice, ScanResolution, scan_resolution_string,
}
use ldcp_sdk.Device.Members.{
  Request, Assigns, set_request-Request, write_request-Request, entry_params-Assigns,
}

module _ (j : Json) (t : Transport j.Value) where
  open j use {Value, has_member, member}

  -- The session behind the first half of executeCommand.
  unfoldable pub numbered : State j t → Value → t.State → State j t
  numbered s request x = record s {
    id = suc_ℤ s.id;
    transport = some (t.transmit_message x (j.add_member request "id" (j.number (suc_ℤ s.id))));
  }

  pub execute_command-open :
      (s : State j t) (request : Value) (batches : List (List (Event Value))) (x : t.State)
      → s.transport ≡ some x
      → execute_command j t s request batches
        ≡ some (
            finish_command j t
              (wait_for (response_ready j t) (deliver j t) batches (numbered s request x)))
  unfolding execute_command send_request numbered
  execute_command-open s request batches x o = rw o

  wait-transport :
      (batches : List (List (Event Value))) (s : State j t) (y : t.State)
      → s.transport ≡ some y
      → (wait_for (response_ready j t) (deliver j t) batches s).state.transport ≡ some y
  wait-transport batches s y h =
      wait_for-keeps (λ (s' : State j t). s'.transport ≡ some y) (response_ready j t) (deliver j t)
        (λ s' k. response_ready-transport j t s' ∙ k) (λ s' d k. (deliver_keeps j t s' d).1 ∙ k)
        batches s h

  -- A command hands its request, with the next number as its id, to the transport once, and leaves
  -- the transport alone afterwards.
  pub execute_command-transport :
      (s : State j t) (request : Value) (batches : List (List (Event Value))) (x : t.State)
      (e : Executed (State j t) (Event Value) Value)
      → s.transport ≡ some x
      → execute_command j t s request batches ≡ some e
      → e.state.transport
        ≡ some (t.transmit_message x (j.add_member request "id" (j.number (suc_ℤ s.id))))
  unfolding numbered
  execute_command-transport s request batches x e o done =
      let same = some-injective _ _ (sym (execute_command-open s request batches x o) ∙ done) in
      sym (ap (λ (e' : Executed (State j t) (Event Value) Value). e'.state.transport) same)
      ∙ finish_command-transport j t _
      ∙ wait-transport batches (numbered s request x) _ refl

  -- Over an open session a method returns, with the session still open.
  pub ask-open :
      {A : Type 0} (s : State j t) (request : Value) (convert : Value → Output A)
      (batches : List (List (Event Value))) (x : t.State)
      → s.transport ≡ some x
      → (r : Returned (State j t) (Event Value) A) × (ask j t s request convert batches ≡ some r)
        × (y : t.State) × (r.state.transport ≡ some y)
  unfolding ask returned
  ask-open s request convert batches x o =
      let done = execute_command-open s request batches x o in
      let e =
        finish_command j t
          (wait_for (response_ready j t) (deliver j t) batches (numbered s request x)) in
      (
        returned j t convert e,
        ap (Option.map (returned j t convert)) done,
        _,
        execute_command-transport s request batches x e o done,
      )

  -- A document that a setter hands over to the transport `x`, which becomes `y`.
  pub record Sends (x y : t.State) (method : Value) (entry : String) (value : Value) (id : ℤ)
      : Type 0 where
    pub document : Value
    pub logged : t.transmitted y ≡ t.transmitted x ++ (document ∷ [])
    pub params : Value
    pub request : Request j t document method params id
    pub assigns : Assigns j t params entry value

  -- A setter over an open session hands over one document, with the next number, the method
  -- settings/set, and the entry and the value as its parameters.
  pub set_setting-Sends :
      (entry : String) (value : Value) (s : State j t) (batches : List (List (Event Value)))
      (x : t.State) (e : Executed (State j t) (Event Value) Value)
      → s.transport ≡ some x
      → set_setting j t entry value s batches ≡ some e
      → (y : t.State) × (e.state.transport ≡ some y)
        × Sends x y (j.text "settings/set") entry value (suc_ℤ s.id)
  unfolding set_setting
  set_setting-Sends entry value s batches x e o done = (
    _,
    execute_command-transport s (set_request j t entry value) batches x e o done,
    record {
      document = _;
      logged = t.transmitted-transmit_message x _;
      params = _;
      request = set_request-Request j t entry value (suc_ℤ s.id);
      assigns = entry_params-Assigns j t entry value;
    },
  )

  -- setScanResolution of an enumerator over an open session hands over one document, with the next
  -- number and its parameters, whose first member of the name method is null.
  pub set_scan_resolution-Sends :
      (resolution : ScanResolution) (text : String) (s : State j t)
      (batches : List (List (Event Value))) (x : t.State)
      (e : Executed (State j t) (Event Value) Value)
      → scan_resolution_string resolution ≡ some text
      → s.transport ≡ some x
      → set_scan_resolution j t resolution s batches ≡ some e
      → (y : t.State) × (e.state.transport ≡ some y)
        × Sends x y j.null "scan.resolution" (j.text text) (suc_ℤ s.id)
  unfolding set_scan_resolution write_choice
  set_scan_resolution-Sends resolution text s batches x e chosen o done =
      let request = write_request j t "scan.resolution" text in
      let sent : execute_command j t s request batches ≡ some e =
        ap (λ c. write_choice j t "scan.resolution" c s batches) (sym chosen) ∙ done in
      (
        _,
        execute_command-transport s request batches x e o sent,
        record {
          document = _;
          logged = t.transmitted-transmit_message x _;
          params = _;
          request = write_request-Request j t "scan.resolution" text (suc_ℤ s.id);
          assigns = entry_params-Assigns j t "scan.resolution" _;
        },
      )
