-- ===== src/Manager/Infos.antt =====
-- class DeviceInfo (src/device_info.cpp) with its pointer to a location, and the plain value that the
-- manager keeps.
use mathlib.Core.Option
use ldcp_sdk.Prelude.{ℕ, ◌≡◌, refl, Bool, true, false, List, [], Option, none, some, if◌then◌else◌}
use ldcp_sdk.Location.{NetworkLocation, AnyLocation, network, another, network_location_eq}
use ldcp_sdk.Manager.{DeviceInfo, device_info_eq}

-- location_ is null, or points to a NetworkLocation of its own.
pub record Info : Type 0 where
  pub id : List ℕ
  pub location : Option NetworkLocation
  pub metadata : List (List ℕ × List ℕ)

-- The copy of a location that all three make.
unfoldable pub copied_location : AnyLocation → Option NetworkLocation
copied_location (network l) = some l
copied_location another = none

-- DeviceInfo::DeviceInfo(id, location)
unfoldable pub new_info : List ℕ → AnyLocation → Info
new_info id location = record { id = id; location = copied_location location; metadata = [] }

-- DeviceInfo::DeviceInfo(const DeviceInfo&). `none`: a null pointer is read.
unfoldable pub copy_info : Info → Option Info
copy_info other =
    Option.map (λ l. record other { location = copied_location (network l) }) other.location

-- DeviceInfo::operator=; `same` tells an assignment of an object to itself.
unfoldable pub assign_info : Bool → Info → Info → Option Info
assign_info same info other =
    if same
    then some info
    else Option.map
        (λ l. record {
          id = other.id;
          location = copied_location (network l);
          metadata = other.metadata;
        })
        other.location

-- DeviceInfo::operator==
unfoldable pub info_eq : Info → Info → Option Bool
info_eq a b = Option.bind a.location (λ l. Option.map (λ l'. network_location_eq l l') b.location)

-- The object behind a value.
abbrev pub info_of : DeviceInfo → Info
info_of a = record { id = a.id; location = some a.location; metadata = a.metadata }

-- Made for a network location, an object is the value with no metadata; a copy is the value that is
-- copied, an assignment leaves the value that is assigned, or the old one where an object is assigned
-- to itself, and two objects are compared as their values are.
pub info_of-plain :
    (same : Bool) (a b : DeviceInfo)
    → (new_info a.id (network a.location) ≡ info_of (record a { metadata = [] }))
      × (copy_info (info_of a) ≡ some (info_of a))
      × (assign_info same (info_of a) (info_of b) ≡ some (info_of (if same then a else b)))
      × (info_eq (info_of a) (info_of b) ≡ some (device_info_eq a b))
unfolding new_info copied_location copy_info assign_info info_eq device_info_eq Option.bind
info_of-plain same a b = (refl, refl, assigned same, refl)
  where
    assigned :
        (s : Bool) → assign_info s (info_of a) (info_of b) ≡ some (info_of (if s then a else b))
    assigned true = refl
    assigned false = refl
