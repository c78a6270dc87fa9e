-- ===== src/Bootloader/Content.antt =====
-- What writeData (src/bootloader.cpp) sends.
use Prim.Native.String.{String}
use ldcp_sdk.Prelude.{ℕ, ◌≡◌, refl, ap, ◌∙◌, List, [], ◌∷◌, ◌++◌, some, All}
use ldcp_sdk.Prelude.Int.{ℤ, suc_ℤ}
use ldcp_sdk.Base64.{base64_encode, base64_decode}
use ldcp_sdk.Base64.RoundTrip.{base64_decode-encode}
use ldcp_sdk.Crc.Detection.{IsByte}
use ldcp_sdk.Json.{Json}
use ldcp_sdk.Json.Data.{JsonData}
use ldcp_sdk.Transport.{Transport}
use ldcp_sdk.Session.{State, Event, Executed}
use ldcp_sdk.Device.{method_request}
use ldcp_sdk.Device.Members.{
  Request, finished-Request, method_request-Names, method_request-absent, new_member,
}
use ldcp_sdk.Device.Sent.{execute_command-transport}
use ldcp_sdk.Bootloader.{encoded_params, encoded_request, write_data}

module _ (j : Json) (d : JsonData j) (t : Transport j.Value) where
  open j use {Value, member}

  -- A document that is handed over to the transport `x`, which becomes `y`: a call of the method,
  -- with the number, whose parameter decodes to the bytes.
  pub record Uploads (x y : t.State) (method name : String) (bytes : List ℕ) (id : ℤ) : Type 0 where
    pub document : Value
    pub logged : t.transmitted y ≡ t.transmitted x ++ (document ∷ [])
    pub params : Value
    pub request : Request j t document (j.text method) params id
    pub decodes : base64_decode (d.get_bytes (member params name)) ≡ some bytes

  encoded_request-Request :
      (method name : String) (bytes : List ℕ) (id : ℤ)
      → Request j t
          (j.add_member (encoded_request j d t method name bytes) "id" (j.number id))
          (j.text method)
          (encoded_params j d t name bytes)
          id
  unfolding encoded_request
  encoded_request-Request method name bytes id =
      finished-Request j t (method_request j t method) (j.text method) _ id
        (method_request-Names j t method) (method_request-absent j t method "params" refl refl)
        (method_request-absent j t method "id" refl refl)

  encoded_params-decodes :
      (name : String) (bytes : List ℕ)
      → All IsByte bytes
      → base64_decode (d.get_bytes (member (encoded_params j d t name bytes) name)) ≡ some bytes
  unfolding encoded_params
  encoded_params-decodes name bytes h =
      let (it, there) =
        new_member j j.empty_object name (d.bytes_text (base64_encode bytes))
          j.is_object-empty_object (j.has_member-empty_object name) in
      ap (λ v. base64_decode (d.get_bytes v)) it
      ∙ ap base64_decode (d.get_bytes-bytes_text (base64_encode bytes))
      ∙ base64_decode-encode bytes h

  -- writeData over an open session hands over one document, with the next number and the method
  -- firmware/writeData, whose parameter `content` decodes to the bytes that are given.
  pub write_data-Uploads :
      (content : List ℕ) (s : State j t) (batches : List (List (Event Value))) (x : t.State)
      (e : Executed (State j t) (Event Value) Value)
      → All IsByte content
      → s.transport ≡ some x
      → write_data j d t content s batches ≡ some e
      → (y : t.State) × (e.state.transport ≡ some y)
        × Uploads x y "firmware/writeData" "content" content (suc_ℤ s.id)
  unfolding write_data
  write_data-Uploads content s batches x e bytes o done = (
    _,
    execute_command-transport j t s (encoded_request j d t "firmware/writeData" "content" content)
        batches x e o done,
    record {
      document = _;
      logged = t.transmitted-transmit_message x _;
      params = _;
      request = encoded_request-Request "firmware/writeData" "content" content (suc_ℤ s.id);
      decodes = encoded_params-decodes "content" content bytes;
    },
  )
