-- ===== src/Device/Documents.antt =====
-- The documents that a device (src/device.cpp, src/device_base.cpp) hands over: JSON-RPC requests.
use Prim.Native.String.{String}
use ldcp_sdk.Prelude.{◌≡◌, refl, ◌⊎◌, inl, inr, true, false, List, [], ◌∷◌, ◌++◌}
use ldcp_sdk.Prelude.Int.{ℤ, suc_ℤ}
use ldcp_sdk.Json.{Json}
use ldcp_sdk.Transport.{Transport}
use ldcp_sdk.Session.{create_empty_request_object}
use ldcp_sdk.Device.{method_request, entry_request, set_request, read_request, write_request}
use ldcp_sdk.Device.Members.{
  Names, new_member, no_member, add-Names, create-Names, create-absent, method_request-Names,
  method_request-absent,
}

module _ (j : Json) where
  open j use {Value, has_member, member, is_object, add_member}

  -- A method is a text, or is null for the two settings that are read and written by name.
  abbrev pub IsMethod : Value → Type 0
  IsMethod method = ((name : String) × (method ≡ j.text name)) ⊎ (method ≡ j.null)

  -- A request before it is numbered.
  pub record IsRequest (r : Value) : Type 0 where
    pub method : Value
    pub is_method : IsMethod method
    pub names : Names j r method
    pub unnumbered : has_member r "id" ≡ false

  -- A JSON-RPC 2.0 request with a given id: an object with the members jsonrpc, method and id.
  pub record IsDocument (id : ℤ) (v : Value) : Type 0 where
    pub method : Value
    pub is_method : IsMethod method
    pub names : Names j v method
    pub numbered : member v "id" ≡ j.number id
    pub has_number : has_member v "id" ≡ true

  pub numbered-IsDocument :
      (r : Value) (id : ℤ) → IsRequest r → IsDocument id (add_member r "id" (j.number id))
  numbered-IsDocument r id q =
      let (m, h) = new_member j r "id" (j.number id) q.names.object q.unnumbered in
      record {
        method = q.method;
        is_method = q.is_method;
        names = add-Names j r q.method "id" (j.number id) q.names;
        numbered = m;
        has_number = h;
      }

  -- Requests, each with the number behind that of the one before it, from the number behind `first`
  -- to `last`.
  abbrev pub Numbered : ℤ → List Value → ℤ → Type 0
  Numbered first [] last = first ≡ last
  Numbered first (v ∷ vs) last = IsDocument (suc_ℤ first) v × Numbered (suc_ℤ first) vs last

  pub Numbered-snoc :
      (first last : ℤ) (vs : List Value) (v : Value)
      → Numbered first vs last
      → IsDocument (suc_ℤ last) v
      → Numbered first (vs ++ (v ∷ [])) (suc_ℤ last)
  Numbered-snoc first last [] v e d = rw e (d, refl)
  Numbered-snoc first last (w ∷ vs) v (d', n) d = (d', Numbered-snoc (suc_ℤ first) last vs v n d)

  params-IsRequest : (r params : Value) → IsRequest r → IsRequest (add_member r "params" params)
  params-IsRequest r params q = record {
    method = q.method;
    is_method = q.is_method;
    names = add-Names j r q.method "params" params q.names;
    unnumbered = no_member j r "params" params "id" q.names.object refl q.unnumbered;
  }

  module _ (t : Transport j.Value) where
    pub method_request-IsRequest : (method : String) → IsRequest (method_request j t method)
    method_request-IsRequest method = record {
      method = j.text method;
      is_method = inl (method, refl);
      names = method_request-Names j t method;
      unnumbered = method_request-absent j t method "id" refl refl;
    }

    pub entry_request-IsRequest :
        (method entry : String) → IsRequest (entry_request j t method entry)
    unfolding entry_request
    entry_request-IsRequest method entry = params-IsRequest _ _ (method_request-IsRequest method)

    pub set_request-IsRequest :
        (entry : String) (value : Value) → IsRequest (set_request j t entry value)
    unfolding set_request
    set_request-IsRequest entry value =
        params-IsRequest _ _ (method_request-IsRequest "settings/set")

    -- The second member method is not the one that is found.
    second_method-IsRequest :
        (method : String)
        → IsRequest (add_member (create_empty_request_object j t) "method" (j.text method))
    second_method-IsRequest method =
        let c = create_empty_request_object j t in
        let n = create-Names j t in
        record {
          method = j.null;
          is_method = inr refl;
          names = add-Names j c j.null "method" (j.text method) n;
          unnumbered =
              no_member j c "method" (j.text method) "id" n.object refl
                (create-absent j t "id" refl refl);
        }

    pub read_request-IsRequest : (entry : String) → IsRequest (read_request j t entry)
    unfolding read_request
    read_request-IsRequest entry = params-IsRequest _ _ (second_method-IsRequest "settings/read")

    pub write_request-IsRequest : (entry value : String) → IsRequest (write_request j t entry value)
    unfolding write_request
    write_request-IsRequest entry value =
        params-IsRequest _ _ (second_method-IsRequest "settings/write")
