-- ===== src/Device/Block/Packets.antt =====
-- OOB packets (src/device.cpp, readScanBlock): what is read out of range, and what a packet that
-- holds a block reads as.
use mathlib.Core.Option
use ldcp_sdk.Prelude.{
  ℕ, zero, suc, ◌+◌, ◌-◌, ◌&&◌, ◌*◌, ◌/◌, ◌%◌, ◌^◌, ◌≤◌, ◌≡◌, refl, ap, ◌∙◌, sym, Bool, true, false,
  List, [], ◌∷◌, ◌++◌, Option, none, some, arith, ◌==◌, leb, if◌then◌else◌, length, length-drop,
  drop, append-nil, get_or, drop-length_append,
}
use ldcp_sdk.Prelude.Int.{pos}
use ldcp_sdk.Packet.{read_uint16}
use ldcp_sdk.Device.Block.{words, elems, intensity_width, angular_fov_bit, payload, read_oob}
use ldcp_sdk.Device.{angular_fov_270deg, angular_fov_360deg}
use ldcp_sdk.Device.Block.Encoded.{le_word, le_words, length-le_words, words-le_words, elems-append}

unfoldable pub is_some {ℓ} : {A : Type ℓ} → Option A → Bool
is_some none = false
is_some (some a) = true

is_some-map {ℓ κ} :
    {A : Type ℓ} {B : Type κ} (f : A → B) (o : Option A) → is_some (Option.map f o) ≡ is_some o
unfolding is_some
is_some-map f none = refl
is_some-map f (some a) = refl

is_some-words : (n : ℕ) (bytes : List ℕ) → is_some (words n bytes) ≡ leb (n * 2) (length bytes)
unfolding words is_some
is_some-words zero bytes = ground arith
is_some-words (suc n) [] = ground arith
is_some-words (suc n) (b ∷ []) = ground arith
is_some-words (suc n) (b ∷ c ∷ bytes) =
    is_some-map (λ ws. (b + c * 2 ^ 8) ∷ ws) (words n bytes) ∙ is_some-words n bytes ∙ ground arith

is_some-elems : (n : ℕ) (bytes : List ℕ) → is_some (elems n bytes) ≡ leb n (length bytes)
unfolding elems is_some
is_some-elems zero bytes = ground arith
is_some-elems (suc n) [] = ground arith
is_some-elems (suc n) (b ∷ bytes) =
    is_some-map (λ bs. b ∷ bs) (elems n bytes) ∙ is_some-elems n bytes ∙ ground arith

-- The bytes of one measurement.
unfoldable pub sample_size : List ℕ → ℕ
sample_size packet = if intensity_width packet == 0 then 3 else 4

is_some-pair :
    {A B : Type 0} (o : Option A) (p : Option B)
    → is_some {A = A × B} (Option.bind o (λ a. Option.map (λ b. (a, b)) p))
      ≡ (is_some o && is_some p)
unfolding is_some Option.bind
is_some-pair {A = A} {B = B} none p = refl
is_some-pair {A = A} {B = B} (some a) p = is_some-map {B = A × B} (λ b. (a, b)) p

payload-fits :
    (packet : List ℕ) (n : ℕ)
    → 16 ≤ length packet
    → is_some (payload packet n) ≡ leb (16 + n * sample_size packet) (length packet)
unfolding payload sample_size
payload-fits packet n h =
    let behind : length (drop 16 packet) ≡ length packet - 16 = length-drop 16 packet in
    let second : length (drop (n * 2) (drop 16 packet)) ≡ length packet - 16 - n * 2 =
      length-drop (n * 2) (drop 16 packet) ∙ ap (λ l. l - n * 2) behind in
    is_some-pair (words n (drop 16 packet))
      ((if intensity_width packet == 0 then elems n else words n) (drop (n * 2) (drop 16 packet)))
    ∙ ground (
      arith,
      behind,
      second,
      is_some-words n (drop 16 packet),
      is_some-elems n (drop (n * 2) (drop 16 packet)),
      is_some-words n (drop (n * 2) (drop 16 packet)),
    )

-- A packet with a header is read within its bytes if and only if its payload has the ranges and
-- intensities that block_length tells, of three or four bytes by the width of the intensities.
pub read_oob-fits :
    (packet : List ℕ)
    → 16 ≤ length packet
    → is_some (read_oob packet)
      ≡ leb (16 + read_uint16 packet 6 * sample_size packet) (length packet)
unfolding read_oob
read_oob-fits packet h =
    is_some-map _ (payload packet (read_uint16 packet 6))
    ∙ payload-fits packet (read_uint16 packet 6) h

-- flags of a packet with intensities of 16 bits, and of a device with 360 degrees
abbrev pub flag : Bool → ℕ
flag false = 0
flag true = 1

-- A packet of a device: the header's fields, the ranges, and the intensities, as words or as bytes.
unfoldable pub oob_packet : ℕ → ℕ → ℕ → ℕ → ℕ → Bool → Bool → List ℕ → List ℕ → List ℕ
unfolding le_word
oob_packet frame_index block_index block_count timestamp checksum wide full ranges intensities =
    le_word 0xFFFF (
      le_word frame_index (
        block_index
        ∷ block_count
        ∷ le_word (length ranges) (
            le_word (timestamp % 2 ^ 16) (
              le_word (timestamp / 2 ^ 16) (
                le_word checksum (
                  flag wide
                  ∷ flag full
                  ∷ (le_words ranges ++ (if wide then le_words intensities else intensities))))))))

measurements :
    (wide : Bool) (ranges intensities : List ℕ)
    → length intensities ≡ length ranges
    → (if flag wide % 2 == 0 then elems (length ranges) else words (length ranges))
        (if wide then le_words intensities else intensities)
      ≡ some intensities
measurements true ranges intensities h =
    ap (λ n. words n (le_words intensities)) (sym h)
    ∙ ap (words (length intensities)) (sym (append-nil (le_words intensities)))
    ∙ words-le_words intensities []
measurements false ranges intensities h =
    ap (λ n. elems n intensities) (sym h)
    ∙ ap (elems (length intensities)) (sym (append-nil intensities))
    ∙ elems-append intensities []

flag-fov :
    (full : Bool)
    → (if flag full == 0 then angular_fov_270deg else angular_fov_360deg)
      ≡ (if full then angular_fov_360deg else angular_fov_270deg)
flag-fov true = refl
flag-fov false = refl

module _ (frame_index block_index block_count timestamp checksum : ℕ) (wide full : Bool)
    (ranges intensities : List ℕ) where
  abbrev packet : List ℕ
  packet =
      oob_packet frame_index block_index block_count timestamp checksum wide full ranges intensities

  packet-length : read_uint16 packet 6 ≡ length ranges
  unfolding read_uint16 oob_packet
  packet-length = omega arith

  packet-timestamp : read_uint16 packet 8 + read_uint16 packet 10 * 2 ^ 16 ≡ timestamp
  unfolding read_uint16 oob_packet
  packet-timestamp = omega arith

  packet-width : intensity_width packet ≡ flag wide % 2
  unfolding read_uint16 oob_packet intensity_width
  packet-width = omega arith

  packet-fov : angular_fov_bit packet ≡ flag full
  unfolding read_uint16 oob_packet angular_fov_bit
  packet-fov = ground arith

  packet-index : get_or packet 4 0 ≡ block_index
  unfolding oob_packet
  packet-index = refl

  packet-count : get_or packet 5 0 ≡ block_count
  unfolding oob_packet
  packet-count = refl

  packet-behind :
      drop 16 packet ≡ le_words ranges ++ (if wide then le_words intensities else intensities)
  unfolding oob_packet
  packet-behind = refl

  packet-payload :
      length intensities ≡ length ranges
      → payload packet (length ranges) ≡ some (ranges, intensities)
  unfolding payload Option.bind
  packet-payload h =
      let taken : drop (length ranges * 2)
            (le_words ranges ++ (if wide then le_words intensities else intensities))
          ≡ (if wide then le_words intensities else intensities) =
        rw (sym (length-le_words ranges)) (drop-length_append (le_words ranges) _) in
      rw
        (
          packet-behind,
          words-le_words ranges (if wide then le_words intensities else intensities),
          taken,
          packet-width,
          measurements wide ranges intensities h,
        )
        refl

  -- A packet of a device reads as the block that it holds: its index, its count (8 where the packet
  -- says 0), its time and angle of view, and its ranges and intensities, which are as many as
  -- block_length tells, in either width.
  pub read_oob-packet :
      length intensities ≡ length ranges
      → read_oob packet
        ≡ some (record {
          block_index = pos block_index;
          block_count = if block_count == 0 then 8 else block_count;
          block_length = length ranges;
          timestamp = timestamp;
          angular_fov = if full then angular_fov_360deg else angular_fov_270deg;
          layers = record { ranges = ranges; intensities = intensities } ∷ [];
        })
  unfolding read_oob
  read_oob-packet h =
      rw
        (
          packet-length,
          packet-timestamp,
          packet-index,
          packet-count,
          packet-fov,
          flag-fov full,
          packet-payload h,
        )
        refl
