-- ===== src/Examples/Notifiers.antt =====
-- The notifiers of both platforms at concrete inputs.
use ldcp_sdk.Prelude.{
  ℕ, suc, ◌≡◌, refl, Bool, true, false, List, [], ◌∷◌, ◌++◌, none, some, ◌==◌, ◌⊎◌, ◌&&◌,
  if◌then◌else◌, codes, All, eq_bytes,
}
use ldcp_sdk.Manager.{DeviceInfo, Manager, add_device_notifier, stop_monitoring, each}
use ldcp_sdk.Manager.Pointers.{contains}
use ldcp_sdk.Manager.Entries.{Call, adds, starts, stops, attaches, behind}
use ldcp_sdk.Notifier
use ldcp_sdk.Notifier.Linux.{Linux, Makes, new_linux, init, stop, linux_notifiers, add_records}
use ldcp_sdk.Notifier.Linux.Init.{IsBlank, init-frees_twice}
use ldcp_sdk.Notifier.Linux.Monitoring.{
  IsReady, Follows, IsOrderly, new_with_callback, behind-Follows, stop_monitoring-late,
}
use ldcp_sdk.Notifier.Windows.{
  Sockets, MdnsRecord, Windows, init_windows, service_get_addr_info_callback,
}
use ldcp_sdk.Notifier.Windows.Requests.{
  Event, browses, resolves, gets_address, run, IsCovered, run-requests,
}
use mathlib.Core.List.{foldl}
use ldcp_sdk.Prelude.{◌⊎◌, ◌++◌}
use ldcp_sdk.Notifier.Windows.Polling.{
  created, looping, starts, stops, runs, move, new_poller, stop_polling-early,
}
use ldcp_sdk.Notifier.Windows.Round.{poll_round, process_all}
use ldcp_sdk.Notifier.Windows.Round.Once.{poll_round-once}
use ldcp_sdk.Notifier.Windows.Announce.{device_of, address-announces}

abbrev all_made : Makes
all_made = record { poll = true; client = true; browser = true }

abbrev no_browser_made : Makes
no_browser_made = record { poll = true; client = true; browser = false }

abbrev nothing_made : Makes
nothing_made = record { poll = false; client = false; browser = false }

new_linux-IsBlank : IsBlank new_linux
unfolding new_linux
new_linux-IsBlank = record { no_client = refl; no_browser = refl; no_poll = refl }

new_linux-IsReady : IsReady new_linux
unfolding new_linux
new_linux-IsReady = record { not_running = refl; not_crashed = refl }

init-frees_twice_example :
    (init (init new_linux no_browser_made).0 nothing_made).0.freed_twice
    ≡ suc new_linux.fresh ∷ new_linux.freed_twice
unfolding new_linux ldcp_sdk.Notifier.Linux.is_live
init-frees_twice_example =
    init-frees_twice new_linux no_browser_made nothing_made new_linux-IsBlank refl refl refl refl
      refl

abbrev txt_records : List (List ℕ)
txt_records = codes "model=LTME-02A" ∷ codes "model=LTME-02B" ∷ []

abbrev a_device : DeviceInfo
a_device = record {
  id = codes "LTME-02A";
  location = record { address = 1; port = 2105 };
  metadata = [];
}

-- The static notifier of NetworkDeviceNotifier::instance is the one at 0, and the others are new too.
abbrev new_objects : ℕ → Linux
new_objects p = new_linux

abbrev monitored : List (Call (linux_notifiers all_made))
monitored = adds 0 ∷ starts ∷ attaches a_device ∷ stops ∷ adds 1 ∷ stops ∷ starts ∷ []

monitored-IsOrderly : IsOrderly all_made (new_with_callback all_made new_objects) monitored
unfolding ldcp_sdk.Manager.Entries.step ldcp_sdk.Manager.register_device_event_callback
    ldcp_sdk.Manager.new_manager contains add_device_notifier init stop_monitoring
    ldcp_sdk.Manager.on_device_attached ldcp_sdk.Manager.notify ldcp_sdk.Manager.start_monitoring
monitored-IsOrderly = ((refl, refl), (refl, (tt, (tt, ((refl, refl), (tt, (refl, tt)))))))

behind-Follows_example :
    let m = behind (linux_notifiers all_made) new_objects monitored in
    Follows (m.monitoring_started && contains 0 m.notifiers) (m.objects 0)
behind-Follows_example =
    behind-Follows all_made new_objects monitored 0 (λ q. new_linux-IsReady) monitored-IsOrderly

abbrev one_started : Manager (linux_notifiers all_made)
one_started = record {
  has_callback = true;
  log = [];
  notifiers = 1 ∷ [];
  objects = λ p. if p == 1 then record new_linux { running = true } else new_linux;
  monitoring_started = true;
  device_entries = [];
}

stop_monitoring-late_example :
    let late =
      stop_monitoring
        (linux_notifiers all_made)
        (add_device_notifier (linux_notifiers all_made) one_started 0).0 in
    ((late.objects 0).crashed ≡ true) × (late.objects 1 ≡ each stop (1 ∷ []) one_started.objects 1)
unfolding new_linux init
stop_monitoring-late_example = stop_monitoring-late all_made one_started 0 1 refl refl refl refl

-- Descriptor sets as functions; a request is its own socket.
abbrev small_sockets : Sockets
small_sockets = record {
  Set = ℕ → Bool;
  socket = λ r. r;
  fd_zero = λ x. false;
  fd_set = λ x s y. if x == y then true else s y;
  fd_clr = λ x s y. if x == y then false else s y;
  fd_isset = λ x s. s x;
  isset-zero = λ x. refl;
  isset-set = λ x y s h. rw h refl;
  isset-clr = λ x y s. refl;
}

abbrev new_windows : Windows small_sockets
new_windows = record {
  active_flag = false;
  pending_requests = [];
  read_set = λ x. false;
  mdns_records = [];
}

abbrev lidar_appears : List Event
lidar_appears =
    browses true (codes "LTME-02A") (some 2)
    ∷ resolves 2 false (codes "LTME-02A._ldcp._tcp.local.") (codes "lidar.local.") 2105 [] (some 3)
    ∷ gets_address 3 false (codes "lidar.local.") 16777216
    ∷ []

-- The state behind the three callbacks.
abbrev after_lidar : Windows small_sockets
after_lidar =
    elim (run small_sockets (λ txt. []) (init_windows small_sockets new_windows (some 1)).0
      lidar_appears) [ none ↦ new_windows | some s ↦ s ]

run-requests_example : IsCovered small_sockets after_lidar
unfolding run init_windows ldcp_sdk.Notifier.Windows.Requests.step mathlib.Core.Option.bind
    ldcp_sdk.Notifier.Windows.service_resolve_callback ldcp_sdk.Notifier.Windows.resolved
    ldcp_sdk.Notifier.Windows.kept_record ldcp_sdk.Framing.Stream.split_at_char
run-requests_example =
    run-requests small_sockets (λ txt. []) new_windows after_lidar 1 lidar_appears refl

abbrev with_record : Windows small_sockets
with_record = record new_windows {
  mdns_records =
      record {
        service_name = codes "LTME-02A";
        host_name = codes "lidar.local.";
        port = 2105;
        txt_record = [];
      }
      ∷ [];
}

address-announces_example :
    let (s', notices) =
      service_get_addr_info_callback small_sockets
        (λ txt. [])
        with_record
        3
        false
        (codes "lidar.local.")
        16777216 in
    ((notices ≡ [])
      × (s'.mdns_records ≡ with_record.mdns_records)
      × All (λ r. eq_bytes r.host_name (codes "lidar.local.") ≡ false) with_record.mdns_records)
    ⊎ ((before after : List MdnsRecord) × (r : MdnsRecord) × (notices
          ≡ Notifier.attaches (device_of small_sockets (λ txt. []) 16777216 r) ∷ [])
        × (with_record.mdns_records ≡ before ++ (r ∷ after))
        × (s'.mdns_records ≡ before ++ after)
        × (r.host_name ≡ codes "lidar.local.")
        × All (λ r'. eq_bytes r'.host_name (codes "lidar.local.") ≡ false) before)
address-announces_example =
    address-announces small_sockets (λ txt. []) with_record 3 false (codes "lidar.local.") 16777216

stop_polling-early_example :
    let s = foldl move new_poller (starts ∷ stops ∷ runs ∷ runs ∷ []) in
    ((s.thread ≡ created) ⊎ (s.thread ≡ looping)) × ((move s starts).terminated ≡ true)
stop_polling-early_example = stop_polling-early (runs ∷ runs ∷ []) (tt, (tt, tt))

-- A resolving request, behind which the browsing one stands; the first makes another request.
abbrev two_pending : Windows small_sockets
two_pending = record new_windows { pending_requests = 2 ∷ 1 ∷ []; read_set = λ x. true }

abbrev answers_of : ℕ → List Event
answers_of r =
    if r == 2
    then resolves 2 false (codes "LTME-02A._ldcp._tcp.local.") (codes "lidar.local.") 2105 []
        (some 3)
      ∷ []
    else browses true (codes "LTME-02B") (some 4) ∷ []

poll_round-once_example :
    poll_round small_sockets (λ txt. []) (λ x. true) answers_of two_pending (suc 2)
    ≡ process_all small_sockets (λ txt. []) (λ x. true) answers_of two_pending (2 ∷ 1 ∷ [])
unfolding ldcp_sdk.Notifier.Windows.Round.holds
poll_round-once_example =
    poll_round-once small_sockets (λ txt. []) (λ x. true) answers_of two_pending (refl, (refl, tt))
      (((refl, (refl, tt)), tt), ((tt, tt), tt))
