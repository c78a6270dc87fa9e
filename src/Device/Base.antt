-- ===== src/Device/Base.antt =====
-- include/ldcp/device_base.h, src/device_base.cpp: the members of DeviceBase that are no commands.
-- `none` is a null pointer that is called through.
use mathlib.Core.Option
use ldcp_sdk.Prelude.{Bool, List, [], Option, none, some, if◌then◌else◌}
use ldcp_sdk.Prelude.Int.{ℤ}
use ldcp_sdk.Error.{ErrorCode}
use ldcp_sdk.Location.{NetworkLocation}
use ldcp_sdk.Json.{Json}
use ldcp_sdk.Transport.{Transport}
use ldcp_sdk.Session.{State, new_session, owned}
use ldcp_sdk.Session
use ldcp_sdk.Manager.{DeviceInfo}

-- The two pointers, which are null in a device that was moved from.
pub record DeviceBase (S : Type 0) : Type 0 where
  pub location : Option NetworkLocation
  pub session : Option S

-- DeviceBase::DeviceBase(DeviceBase&&): the new device, and the old one.
unfoldable pub moved : {S : Type 0} → DeviceBase S → DeviceBase S × DeviceBase S
moved other = (other, record { location = none; session = none })

module _ (j : Json) (t : Transport j.Value) where
  abbrev pub Base : Type 0
  Base = DeviceBase (State j t)

  -- DeviceBase::DeviceBase(const Location&)
  unfoldable pub new_device_base : NetworkLocation → Base
  new_device_base location = record { location = some location; session = some (new_session j t) }

  -- DeviceBase::DeviceBase(const DeviceInfo&)
  unfoldable pub device_base_of : DeviceInfo → Base
  device_base_of device_info = new_device_base device_info.location

  unfoldable pub session_destroyed : Option (State j t) → List t.State
  session_destroyed none = []
  session_destroyed (some s) =
      if Session.is_opened j t s then (Session.close j t s).destroyed else owned j t s.transport

  -- DeviceBase::~DeviceBase: the transports that are destroyed.
  unfoldable pub device_destroyed : Base → List t.State
  device_destroyed base = session_destroyed base.session

  -- DeviceBase::setTimeout
  unfoldable pub set_timeout : Base → ℤ → Option Base
  set_timeout base timeout =
      Option.map (λ s. record base { session = some (Session.set_timeout j t s timeout) })
        base.session

  -- DeviceBase::open
  unfoldable pub open_base : Base → Option (Base × ErrorCode)
  open_base base = Option.bind base.session (λ s.
      Option.map
        (λ location.
          let r = Session.open_session j t s location in
          (record base { session = some r.state }, r.result))
        base.location)

  -- DeviceBase::isOpened
  unfoldable pub is_opened : Base → Option Bool
  is_opened base = Option.map (Session.is_opened j t) base.session

  -- DeviceBase::close
  unfoldable pub close : Base → Option Base
  close base =
      Option.map (λ s. record base { session = some (Session.close j t s).state }) base.session
