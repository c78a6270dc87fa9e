-- ===== src/Device/Block.antt =====
-- Device::readScanBlock (src/device.cpp): what it makes of a notification and of an OOB packet.
-- `none` is a call that throws, or that reads or writes out of range.
pub mod Encoded
pub mod Layers
pub mod Notifications
pub mod Packets
pub mod Frames
use mathlib.Core.Option
use ldcp_sdk.Prelude.{
  ℕ, zero, suc, ◌+◌, ◌*◌, ◌/◌, ◌%◌, ◌^◌, Bool, true, false, List, [], ◌∷◌, ◌++◌, Option, none, some,
  ltb, ◌==◌, if◌then◌else◌, length, take, drop, replicate, get_or,
}
use ldcp_sdk.Prelude.Int.{ℤ, pos, negsuc}
use ldcp_sdk.Error.{ErrorCode, is_no_error}
use ldcp_sdk.Base64.{calculate_base64_decoded_length, base64_decode}
use ldcp_sdk.Json.{Json}
use ldcp_sdk.Json.Data.{JsonData}
use ldcp_sdk.Transport.{Transport}
use ldcp_sdk.Session.{State, Event, ScanData, nothing, notification, oob_data, poll_for_scan_block}
use ldcp_sdk.Packet.{read_uint16, oob_packet_header_size}
use ldcp_sdk.Device.Words.{wrap_32}
use ldcp_sdk.Device.{AngularFov, angular_fov_270deg, angular_fov_360deg}
use ldcp_sdk.Device.Scan.{ScanBlock, resize}

-- ScanBlock::BlockData
pub record BlockData : Type 0 where
  pub ranges : List ℕ
  pub intensities : List ℕ

-- ScanBlock, with all of its layers.
pub record LayeredBlock : Type 0 where
  pub block_index : ℤ
  pub block_count : ℕ
  pub block_length : ℕ
  pub timestamp : ℕ
  pub angular_fov : AngularFov
  pub layers : List BlockData

-- What readScanFrame reads of it. `none`: layers[0] where there is no layer.
unfoldable pub first_layer : LayeredBlock → Option ScanBlock
first_layer b = elim b.layers [
  | [] ↦ none
  | layer ∷ others ↦ some (record {
    block_index = b.block_index;
    block_count = b.block_count;
    block_length = b.block_length;
    timestamp = b.timestamp;
    angular_fov = b.angular_fov;
    ranges = layer.ranges;
    intensities = layer.intensities;
  })
]

-- layers.resize(n)
unfoldable pub resize_layers : ℕ → List BlockData → List BlockData
resize_layers zero ds = []
resize_layers (suc n) [] = record { ranges = []; intensities = [] } ∷ resize_layers n []
resize_layers (suc n) (d ∷ ds) = d ∷ resize_layers n ds

-- if (decode_buffer.size() < byte_count) decode_buffer.resize(byte_count)
unfoldable pub grown : ℕ → List ℕ → List ℕ
grown n buffer = if ltb (length buffer) n then resize n buffer else buffer

-- The bytes written to the front of a buffer.
unfoldable pub written_over : List ℕ → List ℕ → Option (List ℕ)
written_over buffer bytes =
    if ltb (length buffer) (length bytes) then none else some (bytes ++ drop (length bytes) buffer)

-- byte_count and decode_buffer. A length below 0 is a size that no vector has.
unfoldable pub decode_counted : List ℕ → List ℕ → ℤ → Option (ℕ × List ℕ)
decode_counted buffer text (negsuc n) = none
decode_counted buffer text (pos n) =
    Option.bind (base64_decode text)
      (λ bytes. Option.map (λ buffer'. (n, buffer')) (written_over (grown n buffer) bytes))

unfoldable pub decode_text : List ℕ → List ℕ → Option (ℕ × List ℕ)
decode_text buffer text =
    Option.bind (calculate_base64_decoded_length text) (decode_counted buffer text)

-- ((uint16_t*)data)[0], ..., of a little-endian host
unfoldable pub words : ℕ → List ℕ → Option (List ℕ)
words zero bytes = some []
words (suc n) (low ∷ high ∷ bytes) = Option.map (λ ws. (low + high * 2 ^ 8) ∷ ws) (words n bytes)
words (suc n) _ = none

-- data[0], ..., of bytes
unfoldable pub elems : ℕ → List ℕ → Option (List ℕ)
elems zero bytes = some []
elems (suc n) [] = none
elems (suc n) (b ∷ bytes) = Option.map (λ bs. b ∷ bs) (elems n bytes)

-- What the loop over the layers changes in one of its rounds: block_length, the layer, and the
-- decode buffer of the round.
pub record Round : Type 0 where
  pub block_length : ℕ
  pub layer : BlockData
  pub decode_buffer : List ℕ

unfoldable pub ranges_decoded : Round → ℕ × List ℕ → Option Round
ranges_decoded r (byte_count, buffer) =
    Option.map
      (λ ranges. record {
        block_length = byte_count / 2;
        layer = record { ranges = ranges; intensities = r.layer.intensities };
        decode_buffer = buffer;
      })
      (words (byte_count / 2) buffer)

unfoldable pub intensities_decoded : Round → ℕ × List ℕ → Option Round
intensities_decoded r (byte_count, buffer) =
    Option.map
      (λ intensities. record {
        block_length = r.block_length;
        layer = record { ranges = r.layer.ranges; intensities = intensities };
        decode_buffer = buffer;
      })
      (elems byte_count buffer)

module _ (j : Json) (d : JsonData j) where
  open j use {Value}

  -- if (!text.IsNull()) ...
  unfoldable pub decode_member : (Round → ℕ × List ℕ → Option Round) → Value → Round → Option Round
  decode_member decoded v r =
      if j.is_null v
      then some r
      else Option.bind (decode_text r.decode_buffer (d.get_bytes v)) (decoded r)

  -- The body of the loop over the layers.
  unfoldable pub read_layer : Value → ℕ → BlockData → Option (ℕ × BlockData)
  read_layer value block_length layer =
      if j.is_null value
      then some (block_length, layer)
      else Option.map (λ r. (r.block_length, r.layer))
          (Option.bind
            (decode_member ranges_decoded (j.member value "ranges")
              (record { block_length = block_length; layer = layer; decode_buffer = [] }))
            (decode_member intensities_decoded (j.member value "intensities")))

  -- The loop, from the layer with the given index on.
  unfoldable pub read_layers : Value → ℕ → ℕ → List BlockData → Option (ℕ × List BlockData)
  read_layers values i block_length [] = some (block_length, [])
  read_layers values i block_length (layer ∷ others) =
      Option.bind (read_layer (d.element values i) block_length layer) (λ first.
        Option.map (λ rest. (rest.0, first.1 ∷ rest.1)) (read_layers values (suc i) first.0 others))

  unfoldable pub read_notification : LayeredBlock → Value → Option LayeredBlock
  read_notification b v =
      let params = j.member v "params" in
      let values = j.member params "layers" in
      Option.map
        (λ (block_length, layers). record {
          block_index = j.get_int (j.member params "block");
          block_count = 8;
          block_length = block_length;
          timestamp = wrap_32 (j.get_int64 (j.member params "timestamp"));
          angular_fov = angular_fov_270deg;
          layers = layers;
        })
        (read_layers values 0 b.block_length (resize_layers (d.size values) b.layers))

-- flags.payload_layout.intensity_width and flags.angular_fov
unfoldable pub intensity_width : List ℕ → ℕ
intensity_width packet = read_uint16 packet 14 % 2

unfoldable pub angular_fov_bit : List ℕ → ℕ
angular_fov_bit packet = read_uint16 packet 14 / 2 ^ 8 % 2

-- The ranges and the intensities behind the header.
unfoldable pub payload : List ℕ → ℕ → Option (List ℕ × List ℕ)
payload packet block_length =
    let behind = drop oob_packet_header_size packet in
    Option.bind (words block_length behind) (λ ranges.
      Option.map (λ intensities. (ranges, intensities))
        ((if intensity_width packet == 0 then elems block_length else words block_length)
          (drop (block_length * 2) behind)))

-- The branch for OOB data, which is a packet with a header.
unfoldable pub read_oob : List ℕ → Option LayeredBlock
read_oob packet =
    let block_length = read_uint16 packet 6 in
    let count = get_or packet 5 0 in
    Option.map
      (λ (ranges, intensities). record {
        block_index = pos (get_or packet 4 0);
        block_count = if count == 0 then 8 else count;
        block_length = block_length;
        timestamp = read_uint16 packet 8 + read_uint16 packet 10 * 2 ^ 16;
        angular_fov =
            if angular_fov_bit packet == 0 then angular_fov_270deg else angular_fov_360deg;
        layers = record { ranges = ranges; intensities = intensities } ∷ [];
      })
      (payload packet block_length)

pub record BlockRead (S E : Type 0) : Type 0 where
  pub state : S
  pub result : ErrorCode
  -- The block afterwards.
  pub block : Option LayeredBlock
  pub later : List (List E)

module _ (j : Json) (d : JsonData j) (t : Transport j.Value) where
  open j use {Value}

  unfoldable pub decoded_data : LayeredBlock → ScanData Value → Option LayeredBlock
  decoded_data b nothing = some b
  decoded_data b (notification v) = if j.is_null v then some b else read_notification j d b v
  decoded_data b (oob_data []) = some b
  decoded_data b (oob_data (c ∷ packet)) = read_oob (c ∷ packet)

  -- Device::readScanBlock
  unfoldable pub read_scan_block :
      State j t → LayeredBlock → List (List (Event Value)) → BlockRead (State j t) (Event Value)
  read_scan_block s b batches =
      let p = poll_for_scan_block j t s batches in
      record {
        state = p.state;
        result = p.result;
        block = if is_no_error p.result then decoded_data b p.block else some b;
        later = p.later;
      }
