-- ===== src/Device/Members.antt =====
-- The members of the requests that src/session.cpp and src/device.cpp build with AddMember.
use Prim.Native.String.{String}
use text.Mathlib.Text.{◌==◌}
use text.Mathlib.TextEquality.{eq_iff}
use ldcp_sdk.Prelude.{◌≡◌, refl, ◌∙◌, true, false, arith}
use ldcp_sdk.Prelude.Int.{ℤ}
use ldcp_sdk.Json.{Json}
use ldcp_sdk.Transport.{Transport}
use ldcp_sdk.Session.{create_empty_request_object}
use ldcp_sdk.Device.{method_request, entry_params, set_request, write_request}

module _ (j : Json) where
  open j use {Value, has_member, member, is_object, add_member, set_member}

  -- The members that an object has stay what they are when another is added.
  pub old_member :
      (v : Value) (k : String) (x : Value) (i : String)
      → is_object v ≡ true
      → has_member v i ≡ true
      → (member (add_member v k x) i ≡ member v i) × (has_member (add_member v k x) i ≡ true)
  old_member v k x i o h =
      ground (arith, j.member-add_member v k x i o, j.has_member-add_member v k x i o)

  pub new_member :
      (v : Value) (k : String) (x : Value)
      → is_object v ≡ true
      → has_member v k ≡ false
      → (member (add_member v k x) k ≡ x) × (has_member (add_member v k x) k ≡ true)
  new_member v k x o h =
      ground (
        arith,
        j.member-add_member v k x k o,
        j.has_member-add_member v k x k o,
        (eq_iff k k).1 refl,
      )

  pub no_member :
      (v : Value) (k : String) (x : Value) (i : String)
      → is_object v ≡ true
      → (k == i) ≡ false
      → has_member v i ≡ false
      → has_member (add_member v k x) i ≡ false
  no_member v k x i o d h = ground (arith, j.has_member-add_member v k x i o)

  -- What every request starts from, and has in the end.
  pub record Names (r : Value) (method : Value) : Type 0 where
    pub object : is_object r ≡ true
    pub version : member r "jsonrpc" ≡ j.text "2.0"
    pub has_version : has_member r "jsonrpc" ≡ true
    pub called : member r "method" ≡ method
    pub has_method : has_member r "method" ≡ true

  pub add-Names :
      (r : Value) (method : Value) (k : String) (x : Value)
      → Names r method
      → Names (add_member r k x) method
  add-Names r method k x n =
      let (v, hv) = old_member r k x "jsonrpc" n.object n.has_version in
      let (m, hm) = old_member r k x "method" n.object n.has_method in
      record {
        object = j.is_object-add_member r k x n.object;
        version = v ∙ n.version;
        has_version = hv;
        called = m ∙ n.called;
        has_method = hm;
      }

module _ (j : Json) (t : Transport j.Value) where
  open j use {Value, has_member, member, is_object, add_member, set_member}

  pub create-Names : Names j (create_empty_request_object j t) j.null
  unfolding create_empty_request_object
  create-Names =
      let e = j.empty_object in
      let o = j.is_object-empty_object in
      let v = add_member e "jsonrpc" (j.text "2.0") in
      let ov = j.is_object-add_member e "jsonrpc" (j.text "2.0") o in
      let (m, h) =
        new_member j e "jsonrpc" (j.text "2.0") o (j.has_member-empty_object "jsonrpc") in
      let absent =
        no_member j e "jsonrpc" (j.text "2.0") "method" o refl
          (j.has_member-empty_object "method") in
      let (m', h') = old_member j v "method" j.null "jsonrpc" ov h in
      let (n, hn) = new_member j v "method" j.null ov absent in
      record {
        object = j.is_object-add_member v "method" j.null ov;
        version = m' ∙ m;
        has_version = h';
        called = n;
        has_method = hn;
      }

  pub create-absent :
      (i : String)
      → ("jsonrpc" == i) ≡ false
      → ("method" == i) ≡ false
      → has_member (create_empty_request_object j t) i ≡ false
  unfolding create_empty_request_object
  create-absent i a b =
      let e = j.empty_object in
      let o = j.is_object-empty_object in
      no_member j (add_member e "jsonrpc" (j.text "2.0")) "method" j.null i
        (j.is_object-add_member e "jsonrpc" (j.text "2.0") o) b
        (no_member j e "jsonrpc" (j.text "2.0") i o a (j.has_member-empty_object i))

  pub method_request-Names : (method : String) → Names j (method_request j t method) (j.text method)
  unfolding method_request
  method_request-Names method =
      let c = create_empty_request_object j t in
      let n = create-Names in
      let x = j.text method in
      record {
        object = j.is_object-set_member c "method" x n.object;
        version = j.member-set_member c "method" x "jsonrpc" n.object n.has_method ∙ n.version;
        has_version = j.has_member-set_member c "method" x "jsonrpc" n.object ∙ n.has_version;
        called = j.member-set_member c "method" x "method" n.object n.has_method;
        has_method = j.has_member-set_member c "method" x "method" n.object ∙ n.has_method;
      }

  pub method_request-absent :
      (method i : String)
      → ("jsonrpc" == i) ≡ false
      → ("method" == i) ≡ false
      → has_member (method_request j t method) i ≡ false
  unfolding method_request
  method_request-absent method i a b =
      j.has_member-set_member (create_empty_request_object j t) "method" (j.text method) i
        create-Names.object
      ∙ create-absent i a b

  -- The params of a request that sets an entry.
  pub record Assigns (p : Value) (entry : String) (value : Value) : Type 0 where
    pub names_entry : member p "entry" ≡ j.text entry
    pub has_value : member p "value" ≡ value

  pub entry_params-Assigns :
      (entry : String) (value : Value)
      → Assigns (add_member (entry_params j t entry) "value" value) entry value
  unfolding entry_params
  entry_params-Assigns entry value =
      let e = j.empty_object in
      let o = j.is_object-empty_object in
      let v = add_member e "entry" (j.text entry) in
      let ov = j.is_object-add_member e "entry" (j.text entry) o in
      let (m, h) = new_member j e "entry" (j.text entry) o (j.has_member-empty_object "entry") in
      let absent =
        no_member j e "entry" (j.text entry) "value" o refl (j.has_member-empty_object "value") in
      record {
        names_entry = (old_member j v "value" value "entry" ov h).0 ∙ m;
        has_value = (new_member j v "value" value ov absent).0;
      }

  -- A request with params and a number, over one that has neither.
  pub record Request (r : Value) (method params : Value) (id : ℤ) : Type 0 where
    pub names : Names j r method
    pub carries : member r "params" ≡ params
    pub numbered : member r "id" ≡ j.number id

  pub finished-Request :
      (v method params : Value) (id : ℤ)
      → Names j v method
      → has_member v "params" ≡ false
      → has_member v "id" ≡ false
      → Request (add_member (add_member v "params" params) "id" (j.number id)) method params id
  finished-Request v method params id n a b =
      let w = add_member v "params" params in
      let nw = add-Names j v method "params" params n in
      let (m, h) = new_member j v "params" params n.object a in
      let absent = no_member j v "params" params "id" n.object refl b in
      record {
        names = add-Names j w method "id" (j.number id) nw;
        carries = (old_member j w "id" (j.number id) "params" nw.object h).0 ∙ m;
        numbered = (new_member j w "id" (j.number id) nw.object absent).0;
      }

  pub set_request-Request :
      (entry : String) (value : Value) (id : ℤ)
      → Request
          (add_member (set_request j t entry value) "id" (j.number id))
          (j.text "settings/set")
          (add_member (entry_params j t entry) "value" value)
          id
  unfolding set_request
  set_request-Request entry value id =
      finished-Request (method_request j t "settings/set") (j.text "settings/set") _ id
        (method_request-Names "settings/set")
        (method_request-absent "settings/set" "params" refl refl)
        (method_request-absent "settings/set" "id" refl refl)

  pub write_request-Request :
      (entry value : String) (id : ℤ)
      → Request
          (add_member (write_request j t entry value) "id" (j.number id))
          j.null
          (add_member (entry_params j t entry) "value" (j.text value))
          id
  unfolding write_request
  write_request-Request entry value id =
      let c = create_empty_request_object j t in
      let n = create-Names in
      let x = j.text "settings/write" in
      let absent : (i : String)
          → ("jsonrpc" == i) ≡ false
          → ("method" == i) ≡ false
          → has_member (add_member c "method" x) i ≡ false =
        λ i a b. no_member j c "method" x i n.object b (create-absent i a b) in
      finished-Request (add_member c "method" x) j.null _ id (add-Names j c j.null "method" x n)
        (absent "params" refl refl) (absent "id" refl refl)
