-- ===== src/Device/Block/Layers.antt =====
-- Notifications of a scan block (src/device.cpp, readScanBlock): the layers that a device encodes.
use mathlib.Core.Option
use ldcp_sdk.Prelude.{
  ℕ, ◌-◌, ◌/◌, ◌≤◌, ◌≡◌, ◌≢◌, refl, ◌∙◌, sym, true, false, List, [], ◌∷◌, ◌++◌, Option, some, arith,
  length, length-append, length-replicate, length-take, take, replicate, drop, All,
}
use ldcp_sdk.Base64.{base64_encode}
use ldcp_sdk.Base64.RoundTrip.{base64_decode-encode}
use ldcp_sdk.Base64.Length.{decoded_length-encode}
use ldcp_sdk.Crc.Detection.{IsByte}
use ldcp_sdk.Json.{Json}
use ldcp_sdk.Json.Data.{JsonData}
use ldcp_sdk.Device.Scan.{resize}
use ldcp_sdk.Device.Members.{new_member, old_member, no_member}
use ldcp_sdk.Device.Block.{
  BlockData, grown, written_over, decode_counted, decode_text, Round, ranges_decoded,
  intensities_decoded, decode_member, read_layer,
}
use ldcp_sdk.Device.Block.Encoded.{
  IsWord, le_words, length-le_words, le_words-byte, words-le_words, elems-append,
}

grown-le : (n : ℕ) (buffer : List ℕ) → n ≤ length (grown n buffer)
unfolding grown resize
grown-le n buffer = ground (
  arith,
  length-append (take n buffer) (replicate (n - length buffer) 0),
  length-take n buffer,
  length-replicate {A = ℕ} (n - length buffer) 0,
)

-- The bytes, with what the buffer held behind them.
abbrev buffered : List ℕ → List ℕ → List ℕ
buffered buffer bytes = bytes ++ drop (length bytes) (grown (length bytes) buffer)

written_over-fits :
    (buffer bytes : List ℕ)
    → length bytes ≤ length buffer
    → written_over buffer bytes ≡ some (bytes ++ drop (length bytes) buffer)
unfolding written_over
written_over-fits buffer bytes h = ground arith

decode_text-encode :
    (buffer bytes : List ℕ)
    → All IsByte bytes
    → bytes ≢ []
    → decode_text buffer (base64_encode bytes) ≡ some (length bytes, buffered buffer bytes)
unfolding decode_text decode_counted Option.bind
decode_text-encode buffer bytes h ne =
    rw
      (
        decoded_length-encode bytes h ne,
        base64_decode-encode bytes h,
        written_over-fits (grown (length bytes) buffer) bytes (grown-le (length bytes) buffer),
      )
      refl

module _ (j : Json) (d : JsonData j) where
  open j use {Value}

  -- A layer as a device encodes it.
  unfoldable pub layer_value : BlockData → Value
  layer_value layer =
      j.add_member
        (j.add_member j.empty_object "ranges"
          (d.bytes_text (base64_encode (le_words layer.ranges))))
        "intensities" (d.bytes_text (base64_encode layer.intensities))

  -- A layer with measurements, of ranges of 16 bits and intensities of 8.
  pub record IsMeasured (n : ℕ) (layer : BlockData) : Type 0 where
    pub as_many : length layer.ranges ≡ n
    pub are_words : All IsWord layer.ranges
    pub are_bytes : All IsByte layer.intensities
    pub has_ranges : layer.ranges ≢ []
    pub has_intensities : layer.intensities ≢ []

  decode_member-encode :
      (decoded : Round → ℕ × List ℕ → Option Round) (v : Value) (bytes : List ℕ) (r : Round)
      → v ≡ d.bytes_text (base64_encode bytes)
      → All IsByte bytes
      → bytes ≢ []
      → decode_member j d decoded v r ≡ decoded r (length bytes, buffered r.decode_buffer bytes)
  unfolding decode_member Option.bind
  decode_member-encode decoded v bytes r e h ne =
      rw
        (
          e,
          d.is_null-bytes_text (base64_encode bytes),
          d.get_bytes-bytes_text (base64_encode bytes),
          decode_text-encode r.decode_buffer bytes h ne,
        )
        refl

  first_object : (a : Value) → j.is_object (j.add_member j.empty_object "ranges" a) ≡ true
  first_object a = j.is_object-add_member _ _ a j.is_object-empty_object

  layer_value-null : (layer : BlockData) → j.is_null (layer_value layer) ≡ false
  unfolding layer_value
  layer_value-null layer = d.is_null-object _ (j.is_object-add_member _ _ _ (first_object _))

  layer_value-ranges :
      (layer : BlockData)
      → j.member (layer_value layer) "ranges" ≡ d.bytes_text (base64_encode (le_words layer.ranges))
  unfolding layer_value
  layer_value-ranges layer =
      let (it, there) =
        new_member j j.empty_object "ranges" (d.bytes_text (base64_encode (le_words layer.ranges)))
          j.is_object-empty_object (j.has_member-empty_object "ranges") in
      (old_member j _ "intensities" (d.bytes_text (base64_encode layer.intensities)) "ranges"
        (first_object _) there).0
      ∙ it

  layer_value-intensities :
      (layer : BlockData)
      → j.member (layer_value layer) "intensities" ≡ d.bytes_text (base64_encode layer.intensities)
  unfolding layer_value
  layer_value-intensities layer =
      (new_member j _ "intensities" (d.bytes_text (base64_encode layer.intensities))
        (first_object _)
        (no_member j j.empty_object "ranges" _ "intensities" j.is_object-empty_object refl
          (j.has_member-empty_object "intensities"))).0

  le_words-some : (ns : List ℕ) → ns ≢ [] → le_words ns ≢ []
  unfolding le_words
  le_words-some [] ne e = ne refl
  le_words-some (n ∷ ns) ne e = cc

  ranges-measured :
      (n : ℕ) (layer : BlockData) (r : Round)
      → IsMeasured n layer
      → decode_member j d ranges_decoded (j.member (layer_value layer) "ranges") r
        ≡ some (record {
          block_length = n;
          layer = record { ranges = layer.ranges; intensities = r.layer.intensities };
          decode_buffer = buffered r.decode_buffer (le_words layer.ranges);
        })
  unfolding ranges_decoded
  ranges-measured n layer r m =
      let half : length (le_words layer.ranges) / 2 ≡ n =
        omega (arith, length-le_words layer.ranges, m.as_many) in
      decode_member-encode ranges_decoded _ (le_words layer.ranges) r (layer_value-ranges layer)
        (le_words-byte layer.ranges m.are_words) (le_words-some layer.ranges m.has_ranges)
      ∙ rw
          (
            half,
            sym m.as_many,
            words-le_words layer.ranges (
                drop (length (le_words layer.ranges))
                  (grown (length (le_words layer.ranges)) r.decode_buffer)),
          )
          refl

  pub read_layer-measured :
      (n block_length : ℕ) (layer old : BlockData)
      → IsMeasured n layer
      → read_layer j d (layer_value layer) block_length old ≡ some (n, layer)
  unfolding read_layer intensities_decoded Option.bind
  read_layer-measured n block_length layer old m =
      rw
        (
          layer_value-null layer,
          ranges-measured n layer _ m,
          decode_member-encode intensities_decoded _ layer.intensities _
              (layer_value-intensities layer) m.are_bytes m.has_intensities,
          elems-append layer.intensities _,
        )
        refl
