-- ===== src/Notifier/Instances.antt =====
-- DeviceManager::instance (src/device_manager.cpp) and NetworkDeviceNotifier::instance
-- (src/device_notifier.cpp), which hand out a static object of theirs.
use ldcp_sdk.Prelude.{ℕ, Option, none, some}
use ldcp_sdk.Manager.{Notifiers, Manager, new_manager}
use ldcp_sdk.Notifier.Linux.{Linux, new_linux}
use ldcp_sdk.Notifier.Windows.Polling.{Poller, new_poller}

-- The object that a call refers to: it is made at the first call, and kept.
unfoldable static_object : {S : Type 0} → S → Option S → S
static_object made none = made
static_object made (some s) = s

-- DeviceManager::instance
unfoldable manager_instance : (n : Notifiers) → (ℕ → n.Notifier) → Option (Manager n) → Manager n
manager_instance n objects = static_object (new_manager n objects)

-- NetworkDeviceNotifier::instance on Linux
unfoldable linux_instance : Option Linux → Linux
linux_instance = static_object new_linux

-- NetworkDeviceNotifier::instance on Windows, as the state of its thread
unfoldable windows_instance : Option Poller → Poller
windows_instance = static_object new_poller
