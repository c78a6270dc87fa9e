-- ===== src/Device/Mac.antt =====
-- src/device.cpp: getUserMacAddress and setUserMacAddress. An address is its six bytes.
use mathlib.Core.Option
use ldcp_sdk.Prelude.{
  ℕ, zero, suc, ◌-◌, ◌*◌, ◌/◌, ◌%◌, ◌^◌, ◌<◌, ◌≡◌, refl, ap, ◌∙◌, false, List, [], ◌∷◌, Option,
  none, some, arith, ltb, ◌==◌, if◌then◌else◌, length, take, drop, All, lt→ltb,
}
use ldcp_sdk.Prelude.Int.{ℤ, pos, negsuc}
use ldcp_sdk.Json.{Json}
use ldcp_sdk.Json.Data.{JsonData}
use ldcp_sdk.Transport.{Transport}
use ldcp_sdk.Crc.Detection.{IsByte}
use ldcp_sdk.Framing.Stream.{
  is_space, skip_space, hex_digit, read_hex, hex_number, signed_hex, stoi_hex,
}
use ldcp_sdk.Framing.Numbers.{hex_value-hex_digit, read_hex-digit}
use ldcp_sdk.Device.{Getter, Command, Output, assigned, thrown, get_setting, set_setting}

-- std::snprintf with "%02X:%02X: ... :%02X"
unfoldable pub mac_text : List ℕ → List ℕ
mac_text [] = []
mac_text (b ∷ []) = hex_digit (b / 16) ∷ hex_digit (b % 16) ∷ []
mac_text (b ∷ c ∷ bytes) = hex_digit (b / 16) ∷ hex_digit (b % 16) ∷ b':' ∷ mac_text (c ∷ bytes)

-- A conversion from int to uint8_t
unfoldable pub wrap_8 : ℤ → ℕ
wrap_8 (pos n) = n % 2 ^ 8
wrap_8 (negsuc n) = 2 ^ 8 - 1 - n % 2 ^ 8

-- value.substr(position, 2). `none`: it throws.
unfoldable pub two_chars : List ℕ → ℕ → Option (List ℕ)
two_chars value position =
    if ltb (length value) position then none else some (take 2 (drop position value))

-- The loop, with `count` rounds to go from round `i` on. `none`: substr or stoi throws.
unfoldable pub mac_bytes : List ℕ → ℕ → ℕ → Option (List ℕ)
mac_bytes value i zero = some []
mac_bytes value i (suc count) =
    Option.bind (Option.bind (two_chars value (i * 3)) stoi_hex)
      (λ byte. Option.map (λ bytes. wrap_8 byte ∷ bytes) (mac_bytes value (suc i) count))

-- Bytes that are assigned before a throw are not told apart.
unfoldable pub mac_output : Option (List ℕ) → Output (List ℕ)
mac_output none = thrown
mac_output (some bytes) = assigned bytes

module _ (j : Json) (d : JsonData j) (t : Transport j.Value) where
  open j use {Value}

  unfoldable pub as_mac : Value → Output (List ℕ)
  as_mac v = mac_output (mac_bytes (d.get_bytes v) 0 6)

  unfoldable pub mac_value : List ℕ → Value
  mac_value address = d.bytes_text (mac_text address)

  -- Device::getUserMacAddress
  unfoldable pub get_user_mac_address : Getter j t (List ℕ)
  get_user_mac_address = get_setting j t "connectivity.network.mac" as_mac

  -- Device::setUserMacAddress
  unfoldable pub set_user_mac_address : List ℕ → Command j t
  set_user_mac_address address = set_setting j t "connectivity.network.mac" (mac_value address)

hex_digit-plain :
    (n : ℕ)
    → n < 16
    → (is_space (hex_digit n) ≡ false)
      × ((hex_digit n == b'-') ≡ false)
      × ((hex_digit n == b'+') ≡ false)
unfolding hex_digit
hex_digit-plain n h = (ground arith, ground arith, ground arith)

stoi_hex-byte :
    (b : ℕ) → b < 256 → stoi_hex (hex_digit (b / 16) ∷ hex_digit (b % 16) ∷ []) ≡ some (pos b)
unfolding stoi_hex signed_hex skip_space hex_number Option.bind
stoi_hex-byte b h =
    let (space, minus, plus) = hex_digit-plain (b / 16) (omega arith) in
    let low : read_hex (b / 16) (hex_digit (b % 16) ∷ []) ≡ b =
      read_hex-digit (b / 16) _ (b % 16) [] (hex_value-hex_digit (b % 16) (omega arith))
      ∙ unfold read_hex in omega arith in
    rw
      (
        space,
        minus,
        plus,
        hex_value-hex_digit (b / 16) (omega arith),
        low,
        lt→ltb b (2 ^ 31) (omega arith),
      )
      refl

mac_bytes-step :
    (value : List ℕ) (i count b : ℕ) (bytes : List ℕ)
    → b < 256
    → two_chars value (i * 3) ≡ some (hex_digit (b / 16) ∷ hex_digit (b % 16) ∷ [])
    → mac_bytes value (suc i) count ≡ some bytes
    → mac_bytes value i (suc count) ≡ some (b ∷ bytes)
unfolding mac_bytes wrap_8 Option.bind
mac_bytes-step value i count b bytes h here rest =
    rw (here, stoi_hex-byte b h, rest) (ap (λ x. some (x ∷ bytes)) (omega arith))

mac_bytes-mac_text :
    (a b c d e f : ℕ)
    → let address = a ∷ b ∷ c ∷ d ∷ e ∷ f ∷ [] in
      All IsByte address → mac_bytes (mac_text address) 0 6 ≡ some address
unfolding mac_text two_chars
mac_bytes-mac_text a b c d e f (ha, (hb, (hc, (hd, (he, (hf, done)))))) =
    let value = mac_text (a ∷ b ∷ c ∷ d ∷ e ∷ f ∷ []) in
    mac_bytes-step value 0 5 a _ ha refl (
      mac_bytes-step value 1 4 b _ hb refl (
        mac_bytes-step value 2 3 c _ hc refl (
          mac_bytes-step value 3 2 d _ hd refl (
            mac_bytes-step value 4 1 e _ he refl
              (mac_bytes-step value 5 0 f [] hf refl (unfold mac_bytes in refl))))))

module _ (j : Json) (d : JsonData j) (t : Transport j.Value) where
  -- The value that setUserMacAddress puts into its request is what getUserMacAddress reads as the
  -- same six bytes.
  pub as_mac-mac_value :
      (a b c e f g : ℕ)
      → let address = a ∷ b ∷ c ∷ e ∷ f ∷ g ∷ [] in
        All IsByte address → as_mac j d t (mac_value j d t address) ≡ assigned address
  unfolding as_mac mac_value mac_output
  as_mac-mac_value a b c e f g bytes =
      let address = a ∷ b ∷ c ∷ e ∷ f ∷ g ∷ [] in
      ap (λ value. mac_output (mac_bytes value 0 6)) (d.get_bytes-bytes_text (mac_text address))
      ∙ ap mac_output (mac_bytes-mac_text a b c e f g bytes)
