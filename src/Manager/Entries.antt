-- ===== src/Manager/Entries.antt =====
-- DeviceManager: the entries against the events (src/device_manager.cpp).
use mathlib.Core.List.{foldl, foldl-append}
use ldcp_sdk.Prelude.{
  take_first, ℕ, eq_bytes, eq_bytes_iff, ◌≡◌, refl, ap, ◌∙◌, sym, Bool, true, List, [], ◌∷◌, ◌++◌,
  some, arith, if◌then◌else◌, inl, inr, Option-cases, subst, if_keeps, if_cases,
}
use ldcp_sdk.Manager.{
  DeviceInfo, DeviceEvent, event_device_attached, event_device_detached, Notifiers, Manager,
  take_entry, erased, notify, new_manager, register_device_event_callback, add_device_notifier,
  start_monitoring, stop_monitoring, on_device_attached, on_device_detached,
}

module _ (n : Notifiers) where
  -- What a reader of the events keeps: an attached device goes to the end, a detached one takes the
  -- first of its id out.
  pub without : List ℕ → List DeviceInfo → List DeviceInfo
  without id [] = []
  without id (x ∷ xs) = let rest = without id xs in if eq_bytes x.id id then xs else x ∷ rest

  pub applied : List DeviceInfo → DeviceEvent → List DeviceInfo
  applied entries (event_device_attached e) = entries ++ (e ∷ [])
  applied entries (event_device_detached e) = without e.id entries

  pub replay : List DeviceEvent → List DeviceInfo
  replay log = foldl applied [] log

  -- The calls of a manager, and what the notifiers' threads call.
  pub data Call : Type 0 where
    adds : ℕ → Call
    starts : Call
    stops : Call
    attaches : DeviceInfo → Call
    detaches : List ℕ → Call

  unfoldable pub step : Manager n → Call → Manager n
  step m (adds notifier) = (add_device_notifier n m notifier).0
  step m starts = start_monitoring n m
  step m stops = stop_monitoring n m
  step m (attaches e) = on_device_attached n m e
  step m (detaches id) = on_device_detached n m id

  take_entry-without :
      (id : List ℕ) (entries others : List DeviceInfo) (e : DeviceInfo)
      → take_entry n id entries ≡ some (e, others)
      → (e.id ≡ id) × (without e.id entries ≡ others)
  unfolding take_entry take_first without
  take_entry-without id [] others e h = cc
  take_entry-without id (x ∷ xs) others e h = elim (Option-cases (take_entry n id xs)) [
    | inl missing ↦ ground (arith, eq_bytes_iff x.id id, missing, h)
    | inr ((e', rest), found) ↦
        ground (arith, eq_bytes_iff x.id id, found, h, take_entry-without id xs rest e' found)
  ]

  -- The log of the callback tells the entries, while a callback is registered.
  abbrev pub Tells : Manager n → Type 0
  Tells m = (m.has_callback ≡ true) × (m.device_entries ≡ replay m.log)

  replay-append :
      (log : List DeviceEvent) (e : DeviceEvent) → replay (log ++ (e ∷ [])) ≡ applied (replay log) e
  unfolding replay
  replay-append log e = foldl-append applied [] log (e ∷ [])

  notify-Tells :
      (m : Manager n) (e : DeviceEvent)
      → m.has_callback ≡ true
      → m.device_entries ≡ applied (replay m.log) e
      → Tells (notify n m e)
  unfolding notify
  notify-Tells m e h same =
      if_cases Tells m.has_callback (λ on. (h, same ∙ sym (replay-append m.log e))) (λ off. cc)

  attached-Tells : (m : Manager n) (e : DeviceInfo) → Tells m → Tells (on_device_attached n m e)
  unfolding on_device_attached applied
  attached-Tells m e (h, same) =
      notify-Tells (record m { device_entries = m.device_entries ++ (e ∷ []) })
        (event_device_attached e) h (ap (λ (l : List DeviceInfo). l ++ (e ∷ [])) same)

  detached-Tells : (m : Manager n) (id : List ℕ) → Tells m → Tells (on_device_detached n m id)
  unfolding applied on_device_detached erased
  detached-Tells m id (h, same) = elim (Option-cases (take_entry n id m.device_entries)) [
    | inl missing ↦ subst Tells (ap (erased n m) (sym missing)) (h, same)
    | inr ((e, others), found) ↦
        let (_, rest) = take_entry-without id m.device_entries others e found in
        subst Tells (ap (erased n m) (sym found)) (
          notify-Tells (record m { device_entries = others }) (event_device_detached e) h
            (sym rest ∙ ap (without e.id) same))
  ]

  pub step-Tells : (m : Manager n) (c : Call) → Tells m → Tells (step m c)
  unfolding step add_device_notifier start_monitoring stop_monitoring
  step-Tells m (adds notifier) h =
      if_keeps (λ (r : Manager n × Bool). Tells r.0) (n.init (m.objects notifier)).1 h h
  step-Tells m starts h = h
  step-Tells m stops h = if_keeps Tells m.monitoring_started h h
  step-Tells m (attaches e) h = attached-Tells m e h
  step-Tells m (detaches id) h = detached-Tells m id h

  -- A manager on which a callback is registered, and what it has come to after some calls.
  unfoldable pub behind : (ℕ → n.Notifier) → List Call → Manager n
  behind objects calls = foldl step (register_device_event_callback n (new_manager n objects)) calls

  -- Whatever a manager and its notifiers do once a callback is registered on a new manager, the
  -- entries are what a reader of the callback's events keeps, who adds an attached device at the
  -- end and takes the first one of a detached id out.
  pub behind-replay :
      (objects : ℕ → n.Notifier) (calls : List Call)
      → (behind objects calls).device_entries ≡ replay (behind objects calls).log
  unfolding register_device_event_callback new_manager replay behind
  behind-replay objects calls = (keeps calls _ (refl, refl)).1
    where
      keeps : (cs : List Call) (m : Manager n) → Tells m → Tells (foldl step m cs)
      keeps [] m h = h
      keeps (c ∷ cs) m h = keeps cs (step m c) (step-Tells m c h)
