-- ===== src/Location.antt =====
-- include/ldcp/location.h and src/location.cpp. NetworkLocation is the only kind of Location. Both
-- numbers are in network byte order.
use ldcp_sdk.Prelude.{ℕ, Bool, ◌&&◌, ◌==◌}

pub record NetworkLocation : Type 0 where
  pub address : ℕ
  pub port : ℕ

-- operator==
unfoldable pub network_location_eq : NetworkLocation → NetworkLocation → Bool
network_location_eq a b = a.address == b.address && a.port == b.port

-- A Location by its typeid.
pub data AnyLocation : Type 0 where
  network : NetworkLocation → AnyLocation
  another : AnyLocation
