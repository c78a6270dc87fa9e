-- ===== src/Manager.antt =====
-- include/ldcp/device_manager.h and src/device_manager.cpp: class DeviceManager; and class
-- DeviceInfo (src/device_info.cpp), which it keeps. The handlers run under event_mutex_, one at a
-- time. A registered callback is a log of the events that it is called with.
pub mod Entries
pub mod Infos
pub mod Pointers
use ldcp_sdk.Prelude.{
  ℕ, Bool, true, false, eq_bytes, take_first, List, [], ◌∷◌, ◌++◌, Option, ◌==◌, none, some,
  if◌then◌else◌,
}
use ldcp_sdk.Location.{NetworkLocation, network_location_eq}

-- DeviceInfo, with its texts as bytes. The copies hold a NetworkLocation each, so they are plain values.
pub record DeviceInfo : Type 0 where
  pub id : List ℕ
  pub location : NetworkLocation
  pub metadata : List (List ℕ × List ℕ)

-- DeviceInfo::operator==
unfoldable pub device_info_eq : DeviceInfo → DeviceInfo → Bool
device_info_eq a b = network_location_eq a.location b.location

-- DeviceEvent, with the second argument of the callback
pub data DeviceEvent : Type 0 where
  event_device_attached : DeviceInfo → DeviceEvent
  event_device_detached : DeviceInfo → DeviceEvent

-- The interface DeviceNotifier: `Notifier` is an object of a derived class, with its virtual
-- functions. What a pointer points to is in a store.
pub record Notifiers : Type 1 where
  pub Notifier : Type 0
  pub init : Notifier → Notifier × Bool
  pub start : Notifier → Notifier
  pub stop : Notifier → Notifier

-- The object at a pointer is changed.
unfoldable pub changed {ℓ} : {A : Type ℓ} → ℕ → (A → A) → (ℕ → A) → ℕ → A
changed p f objects q = if p == q then f (objects q) else objects q

-- for (DeviceNotifier* notifier : notifiers_) f(notifier)
unfoldable pub each {ℓ} : {A : Type ℓ} → (A → A) → List ℕ → (ℕ → A) → ℕ → A
each f [] objects = objects
each f (p ∷ ps) objects = each f ps (changed p f objects)

module _ (n : Notifiers) where
  open n use {Notifier}

  -- `log`: the calls of the callback, none if no callback is registered.
  pub record Manager : Type 0 where
    pub has_callback : Bool
    pub log : List DeviceEvent
    -- A DeviceNotifier* is a number, and `objects` tells what the pointers point to.
    pub notifiers : List ℕ
    pub objects : ℕ → Notifier
    pub monitoring_started : Bool
    pub device_entries : List DeviceInfo

  -- DeviceManager::DeviceManager, among the notifiers that there are
  unfoldable pub new_manager : (ℕ → Notifier) → Manager
  new_manager objects = record {
    has_callback = false;
    log = [];
    notifiers = [];
    objects = objects;
    monitoring_started = false;
    device_entries = [];
  }

  -- DeviceManager::registerDeviceEventCallback, with a callback
  unfoldable pub register_device_event_callback : Manager → Manager
  register_device_event_callback m = record m { has_callback = true }

  -- DeviceManager::addDeviceNotifier
  unfoldable pub add_device_notifier : Manager → ℕ → Manager × Bool
  add_device_notifier m notifier =
      let (object, ready) = n.init (m.objects notifier) in
      let tried : Manager = record m { objects = changed notifier (λ _. object) m.objects } in
      if ready
      then (record tried { notifiers = m.notifiers ++ (notifier ∷ []) }, true)
      else (tried, false)

  -- DeviceManager::startMonitoring
  unfoldable pub start_monitoring : Manager → Manager
  start_monitoring m = record m {
    monitoring_started = true;
    objects = each n.start m.notifiers m.objects;
  }

  -- DeviceManager::stopMonitoring
  unfoldable pub stop_monitoring : Manager → Manager
  stop_monitoring m =
      if m.monitoring_started
      then record m { objects = each n.stop m.notifiers m.objects; monitoring_started = false }
      else m

  -- if (callback_) callback_(event)
  unfoldable pub notify : Manager → DeviceEvent → Manager
  notify m e = if m.has_callback then record m { log = m.log ++ (e ∷ []) } else m

  -- DeviceManager::onDeviceAttached
  unfoldable pub on_device_attached : Manager → DeviceInfo → Manager
  on_device_attached m new_entry =
      notify (record m { device_entries = m.device_entries ++ (new_entry ∷ []) })
        (event_device_attached new_entry)

  -- std::find_if on the id, and erase: the entry that is found, and the others.
  unfoldable pub take_entry : List ℕ → List DeviceInfo → Option (DeviceInfo × List DeviceInfo)
  take_entry id entries = take_first (λ entry. eq_bytes entry.id id) entries

  -- The part of onDeviceDetached behind find_if.
  unfoldable pub erased : Manager → Option (DeviceInfo × List DeviceInfo) → Manager
  erased m none = m
  erased m (some (entry, others)) =
      notify (record m { device_entries = others }) (event_device_detached entry)

  -- DeviceManager::onDeviceDetached
  unfoldable pub on_device_detached : Manager → List ℕ → Manager
  on_device_detached m id = erased m (take_entry id m.device_entries)

  -- DeviceManager::deviceEntries
  unfoldable pub entries_copied : Manager → List DeviceInfo
  entries_copied m = m.device_entries

  -- DeviceManager::~DeviceManager
  unfoldable pub manager_destroyed : Manager → Manager
  manager_destroyed m = if m.monitoring_started then stop_monitoring m else m
