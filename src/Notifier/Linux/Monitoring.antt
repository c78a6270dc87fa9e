-- ===== src/Notifier/Linux/Monitoring.antt =====
-- The device manager (src/device_manager.cpp) with Linux notifiers (src/device_notifier.cpp).
use mathlib.Core.List.{foldl}
use ldcp_sdk.Prelude.{
  ℕ, ◌&&◌, ◌==◌, ◌≡◌, ap, ◌∙◌, subst, Bool, true, false, List, [], ◌∷◌, ◌++◌, arith, Option, none,
  some, if_cases, if_keeps,
}
use ldcp_sdk.Manager.{
  changed, each, DeviceInfo, DeviceEvent, Manager, add_device_notifier, start_monitoring,
  stop_monitoring, on_device_attached, on_device_detached, notify, erased, new_manager,
  register_device_event_callback,
}
use ldcp_sdk.Manager.Pointers.{
  contains, Distinct, Distinct-snoc, each-snoc, each-contains, each-agrees, changed-same,
  changed-other,
}
use ldcp_sdk.Manager.Entries.{Call, adds, starts, stops, attaches, detaches, step, behind}
use ldcp_sdk.Notifier.Linux.{Linux, Makes, init, start, stop, linux_notifiers}

-- No thread of its own yet, and no misuse of one.
pub record IsReady (s : Linux) : Type 0 where
  pub not_running : s.running ≡ false
  pub not_crashed : s.crashed ≡ false

-- The notifier's thread is there if and only if monitoring has started, and was never misused.
pub record Follows (started : Bool) (s : Linux) : Type 0 where
  pub as_monitored : s.running ≡ started
  pub safe : s.crashed ≡ false

init-Follows : (s : Linux) (makes : Makes) → Follows false s → Follows false (init s makes).0
unfolding init
init-Follows s makes f = ground (arith, f.as_monitored, f.safe)

start-Follows : (s : Linux) → Follows false s → Follows true (start s)
unfolding start
start-Follows s f = ground (arith, f.as_monitored, f.safe)

stop-Follows : (s : Linux) → Follows true s → Follows false (stop s)
unfolding stop
stop-Follows s f = ground (arith, f.as_monitored, f.safe)

init-running : (s : Linux) (makes : Makes) → (init s makes).0.running ≡ s.running
unfolding init
init-running s makes = ground arith

stop-crashes : (s : Linux) → s.running ≡ false → (stop s).crashed ≡ true
unfolding stop
stop-crashes s h = ground arith

module _ (makes : Makes) where
  abbrev N : Type 0
  N = Manager (linux_notifiers makes)

  -- A notifier is added while monitoring is stopped, and not twice; monitoring is started only while
  -- it is stopped.
  abbrev pub IsAllowed : N → Call (linux_notifiers makes) → Type 0
  IsAllowed m (adds p) = (m.monitoring_started ≡ false) × (contains p m.notifiers ≡ false)
  IsAllowed m starts = m.monitoring_started ≡ false
  IsAllowed m stops = Unit
  IsAllowed m (attaches e) = Unit
  IsAllowed m (detaches id) = Unit

  -- It is so for each call of a history.
  abbrev pub IsOrderly : N → List (Call (linux_notifiers makes)) → Type 0
  IsOrderly m [] = Unit
  IsOrderly m (c ∷ cs) = IsAllowed m c × IsOrderly (step (linux_notifiers makes) m c) cs

  -- The object at a pointer has its thread if and only if it was added and monitoring has started.
  pub record IsMonitored (m : N) : Type 0 where
    pub distinct : Distinct m.notifiers
    pub follow : (p : ℕ) → Follows (m.monitoring_started && contains p m.notifiers) (m.objects p)

  idle-Follows :
      (m : N) (p : ℕ) → IsMonitored m → m.monitoring_started ≡ false → Follows false (m.objects p)
  idle-Follows m p h off =
      subst (λ b. Follows (b && contains p m.notifiers) (m.objects p)) off (h.follow p)

  notify-IsMonitored :
      (m : N) (e : DeviceEvent) → IsMonitored m → IsMonitored (notify (linux_notifiers makes) m e)
  unfolding notify
  notify-IsMonitored m e h =
      if_keeps IsMonitored m.has_callback (record { distinct = h.distinct; follow = h.follow }) h

  changed-Follows :
      (m : N) (p q : ℕ)
      → IsMonitored m
      → m.monitoring_started ≡ false
      → Follows false (changed p (λ _. (init (m.objects p) makes).0) m.objects q)
  unfolding changed
  changed-Follows m p q h off =
      if_keeps (Follows false) (p == q) (init-Follows (m.objects p) makes (idle-Follows m p h off))
        (idle-Follows m q h off)

  adds-IsMonitored :
      (m : N) (p : ℕ)
      → m.monitoring_started ≡ false
      → contains p m.notifiers ≡ false
      → IsMonitored m
      → IsMonitored (add_device_notifier (linux_notifiers makes) m p).0
  unfolding add_device_notifier
  adds-IsMonitored m p off fresh h =
      if_keeps (λ (x : N × Bool). IsMonitored x.0) (init (m.objects p) makes).1
        (record {
          distinct = Distinct-snoc p m.notifiers h.distinct fresh;
          follow = λ q. rw off (changed-Follows m p q h off);
        })
        (record { distinct = h.distinct; follow = λ q. rw off (changed-Follows m p q h off) })

  starts-IsMonitored :
      (m : N)
      → m.monitoring_started ≡ false
      → IsMonitored m
      → IsMonitored (start_monitoring (linux_notifiers makes) m)
  unfolding start_monitoring
  starts-IsMonitored m off h = record {
    distinct = h.distinct;
    follow = λ p. rw (each-contains start m.notifiers m.objects p h.distinct) (
        if_cases (λ (x : Linux). Follows (contains p m.notifiers) x) (contains p m.notifiers)
          (λ there. rw there (start-Follows (m.objects p) (idle-Follows m p h off)))
          (λ no. rw no (idle-Follows m p h off)));
  }

  stopped-Follows :
      (m : N) (p : ℕ)
      → m.monitoring_started ≡ true
      → IsMonitored m
      → Follows false (each stop m.notifiers m.objects p)
  stopped-Follows m p on h =
      let f : Follows (contains p m.notifiers) (m.objects p) =
        subst (λ b. Follows (b && contains p m.notifiers) (m.objects p)) on (h.follow p) in
      rw (each-contains stop m.notifiers m.objects p h.distinct) (
        if_cases (λ (x : Linux). Follows false x) (contains p m.notifiers)
          (λ there. stop-Follows (m.objects p) (subst (λ b. Follows b (m.objects p)) there f))
          (λ no. subst (λ b. Follows b (m.objects p)) no f))

  stops-IsMonitored :
      (m : N) → IsMonitored m → IsMonitored (stop_monitoring (linux_notifiers makes) m)
  unfolding stop_monitoring
  stops-IsMonitored m h =
      if_cases IsMonitored m.monitoring_started
        (λ on. record { distinct = h.distinct; follow = λ p. stopped-Follows m p on h }) (λ off. h)

  attaches-IsMonitored :
      (m : N) (e : DeviceInfo)
      → IsMonitored m
      → IsMonitored (on_device_attached (linux_notifiers makes) m e)
  unfolding on_device_attached
  attaches-IsMonitored m e h =
      notify-IsMonitored (record m { device_entries = m.device_entries ++ (e ∷ []) }) _
        (record { distinct = h.distinct; follow = h.follow })

  erased-IsMonitored :
      (m : N) (o : Option (DeviceInfo × List DeviceInfo))
      → IsMonitored m
      → IsMonitored (erased (linux_notifiers makes) m o)
  unfolding erased
  erased-IsMonitored m none h = h
  erased-IsMonitored m (some (e, others)) h =
      notify-IsMonitored (record m { device_entries = others }) _
        (record { distinct = h.distinct; follow = h.follow })

  step-IsMonitored :
      (m : N) (c : Call (linux_notifiers makes))
      → IsAllowed m c
      → IsMonitored m
      → IsMonitored (step (linux_notifiers makes) m c)
  unfolding step on_device_detached
  step-IsMonitored m (adds p) (off, fresh) h = adds-IsMonitored m p off fresh h
  step-IsMonitored m starts off h = starts-IsMonitored m off h
  step-IsMonitored m stops a h = stops-IsMonitored m h
  step-IsMonitored m (attaches e) a h = attaches-IsMonitored m e h
  step-IsMonitored m (detaches id) a h = erased-IsMonitored m _ h

  runs-IsMonitored :
      (cs : List (Call (linux_notifiers makes))) (m : N)
      → IsOrderly m cs
      → IsMonitored m
      → IsMonitored (foldl (step (linux_notifiers makes)) m cs)
  runs-IsMonitored [] m o h = h
  runs-IsMonitored (c ∷ cs) m (a, o) h = runs-IsMonitored cs _ o (step-IsMonitored m c a h)

  -- A new manager with a callback, among the notifiers that there are.
  abbrev pub new_with_callback : (ℕ → Linux) → N
  new_with_callback objects =
      register_device_event_callback (linux_notifiers makes) (new_manager _ objects)

  -- Where no notifier has a thread at first, notifiers are added, no one twice, and monitoring is
  -- started only while it is stopped: the thread of a notifier is there if and only if the notifier
  -- was added and monitoring has started, and no thread is started twice or joined without being
  -- there.
  pub behind-Follows :
      (objects : ℕ → Linux) (cs : List (Call (linux_notifiers makes))) (p : ℕ)
      → ((q : ℕ) → IsReady (objects q))
      → IsOrderly (new_with_callback objects) cs
      → let m = behind (linux_notifiers makes) objects cs in
        Follows (m.monitoring_started && contains p m.notifiers) (m.objects p)
  unfolding behind new_manager register_device_event_callback
  behind-Follows objects cs p ready o =
      let fresh : IsMonitored (new_with_callback objects) = record {
        distinct = tt;
        follow = λ q. record { as_monitored = (ready q).not_running; safe = (ready q).not_crashed };
      } in
      (runs-IsMonitored cs (new_with_callback objects) o fresh).follow p

  each-not_running :
      (ps : List ℕ) (o : ℕ → Linux) (p : ℕ)
      → (o p).running ≡ false
      → (each stop ps o p).running ≡ false
  unfolding each changed stop
  each-not_running [] o p h = h
  each-not_running (q ∷ ps) o p h = each-not_running ps (changed q stop o) p (
      if_cases (λ (x : Linux). x.running ≡ false) (q == p) (λ same. ground (arith, h)) (λ other. h))

  late-objects :
      (m : N) (p : ℕ)
      → m.monitoring_started ≡ true
      → (init (m.objects p) makes).1 ≡ true
      → (stop_monitoring
          (linux_notifiers makes)
          (add_device_notifier (linux_notifiers makes) m p).0).objects
        ≡ changed p stop
            (each stop m.notifiers (changed p (λ _. (init (m.objects p) makes).0) m.objects))
  unfolding stop_monitoring add_device_notifier
  late-objects m p started ready = rw (ready, started) (each-snoc stop m.notifiers p _)

  -- A notifier that is added while monitoring has started is stopped without having been started:
  -- its thread is joined although there is none. Any other notifier is stopped as without it.
  pub stop_monitoring-late :
      (m : N) (p q : ℕ)
      → (p == q) ≡ false
      → m.monitoring_started ≡ true
      → (m.objects p).running ≡ false
      → (init (m.objects p) makes).1 ≡ true
      → let late =
          stop_monitoring
            (linux_notifiers makes)
            (add_device_notifier (linux_notifiers makes) m p).0 in
        ((late.objects p).crashed ≡ true) × (late.objects q ≡ each stop m.notifiers m.objects q)
  stop_monitoring-late m p q other started idle ready =
      let made : ℕ → Linux = changed p (λ _. (init (m.objects p) makes).0) m.objects in
      let behind_others : ℕ → Linux = each stop m.notifiers made in
      let same = late-objects m p started ready in
      let silent : (made p).running ≡ false =
        ap (λ (x : Linux). x.running) (changed-same _ p m.objects)
        ∙ init-running (m.objects p) makes
        ∙ idle in
      (
        ap (λ (o : ℕ → Linux). (o p).crashed) same
            ∙ ap (λ (x : Linux). x.crashed) (changed-same stop p behind_others)
            ∙ stop-crashes (behind_others p) (each-not_running m.notifiers made p silent),
        ap (λ (o : ℕ → Linux). o q) same
            ∙ changed-other stop p q behind_others other
            ∙ each-agrees stop m.notifiers made m.objects q (changed-other _ p q m.objects other),
      )
