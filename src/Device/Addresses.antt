-- ===== src/Device/Addresses.antt =====
-- src/device.cpp: the settings that hold an IPv4 address. asio::ip::address_v4 is third-party code:
-- `to_string` and `from_string` are parameters, on addresses in host byte order; `none` is the
-- exception that from_string throws on a text that is no address.
use Prim.Native.String.{String}
use ldcp_sdk.Prelude.{ℕ, ◌<◌, ◌^◌, ◌≡◌, Option, none, some, arith}
use ldcp_sdk.Json.{Json}
use ldcp_sdk.Transport.{Transport}
use ldcp_sdk.Device.{Getter, Command, Output, assigned, thrown, get_setting, set_setting}
use ldcp_sdk.Device.Words.{swap_32, swap_32_twice, swap_32-lt}

module _ (j : Json) (t : Transport j.Value) (to_string : ℕ → String)
    (from_string : String → Option ℕ) where
  open j use {Value}

  -- htonl(asio::ip::address_v4::from_string(v.GetString()).to_uint())
  unfoldable pub as_address : Value → Output ℕ
  as_address v = elim (from_string (j.get_text v)) [
    | none ↦ thrown
    | some address ↦ assigned (swap_32 address)
  ]

  -- asio::ip::address_v4(ntohl(address)).to_string()
  unfoldable pub address_value : ℕ → Value
  address_value address = j.text (to_string (swap_32 address))

  -- Device::getNetworkAddress
  unfoldable pub get_network_address : Getter j t ℕ
  get_network_address = get_setting j t "connectivity.network.ipv4.address" as_address

  -- Device::setNetworkAddress
  unfoldable pub set_network_address : ℕ → Command j t
  set_network_address address =
      set_setting j t "connectivity.network.ipv4.address" (address_value address)

  -- Device::getSubnetMask
  unfoldable pub get_subnet_mask : Getter j t ℕ
  get_subnet_mask = get_setting j t "connectivity.network.ipv4.subnet" as_address

  -- Device::setSubnetMask
  unfoldable pub set_subnet_mask : ℕ → Command j t
  set_subnet_mask subnet = set_setting j t "connectivity.network.ipv4.subnet" (address_value subnet)

  -- Device::getOobTargetAddress
  unfoldable pub get_oob_target_address : Getter j t ℕ
  get_oob_target_address = get_setting j t "transport.oob.targetAddress" as_address

  -- Device::setOobTargetAddress
  unfoldable pub set_oob_target_address : ℕ → Command j t
  set_oob_target_address address =
      set_setting j t "transport.oob.targetAddress" (address_value address)

  -- Where from_string reads what to_string writes, the value that a set puts into its request
  -- reads back as the address that was set.
  pub as_address-address_value :
      ((a : ℕ) → a < 2 ^ 32 → from_string (to_string a) ≡ some a)
      → (address : ℕ) → address < 2 ^ 32
      → as_address (address_value address) ≡ assigned address
  unfolding as_address address_value
  as_address-address_value law address h = ground (
    arith,
    j.get_text-text (to_string (swap_32 address)),
    law (swap_32 address) (swap_32-lt address),
    swap_32_twice address h,
  )
