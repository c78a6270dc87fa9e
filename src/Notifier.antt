-- ===== src/Notifier.antt =====
-- include/ldcp/device_notifier.h and src/device_notifier.cpp: the notifiers of the two platforms.
pub mod Linux
pub mod Windows
pub mod Instances
use ldcp_sdk.Prelude.{ℕ, List, [], ◌∷◌, eq_bytes, if◌then◌else◌}
use ldcp_sdk.Manager.{DeviceInfo, Notifiers, Manager, on_device_attached, on_device_detached}

-- A call of one of the two handlers.
pub data Notice : Type 0 where
  attaches : DeviceInfo → Notice
  detaches : List ℕ → Notice

-- The handlers that DeviceManager::addDeviceNotifier binds.
unfoldable pub handled : (n : Notifiers) → Manager n → Notice → Manager n
handled n m (attaches new_entry) = on_device_attached n m new_entry
handled n m (detaches id) = on_device_detached n m id

-- new_entry.metadata()[key] = value
unfoldable pub set_metadata : List ℕ → List ℕ → List (List ℕ × List ℕ) → List (List ℕ × List ℕ)
set_metadata key value [] = (key, value) ∷ []
set_metadata key value ((k, v) ∷ entries) =
    let rest = set_metadata key value entries in
    if eq_bytes k key then (key, value) ∷ entries else (k, v) ∷ rest
