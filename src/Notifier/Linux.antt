-- ===== src/Notifier/Linux.antt =====
-- NetworkDeviceNotifierLinux (src/device_notifier.cpp). Avahi is third-party code: which of its
-- objects can be made is a parameter, and an object is a number that was not used before. What the
-- source frees that is not there any more is kept in a list of its own.
pub mod Init
pub mod Records
pub mod Monitoring
use ldcp_sdk.Prelude.{
  ℕ, suc, ◌+◌, ◌-◌, Bool, true, false, List, [], ◌∷◌, ◌++◌, Option, none, some, ◌==◌, if◌then◌else◌,
  length, take, drop, eq_bytes,
}
use ldcp_sdk.Manager.{DeviceInfo, Notifiers}
use ldcp_sdk.Device.Words.{swap_16}
use ldcp_sdk.Framing.Stream.{split_at_char}
use ldcp_sdk.Notifier.{Notice, attaches, detaches, set_metadata}

pub record Linux : Type 0 where
  pub client : Option ℕ
  pub service_browser : Option ℕ
  pub simple_poll : Option ℕ
  pub fresh : ℕ
  -- The objects that are made and not freed, and those that were freed once too often.
  pub live : List ℕ
  pub freed_twice : List ℕ
  -- The thread is joinable.
  pub running : Bool
  -- A joinable std::thread was assigned to, or one that is not joinable was joined.
  pub crashed : Bool

-- NetworkDeviceNotifierLinux::NetworkDeviceNotifierLinux
unfoldable pub new_linux : Linux
new_linux = record {
  client = none;
  service_browser = none;
  simple_poll = none;
  fresh = 0;
  live = [];
  freed_twice = [];
  running = false;
  crashed = false;
}

-- Which of the three calls of init that make an object succeed.
pub record Makes : Type 0 where
  pub poll : Bool
  pub client : Bool
  pub browser : Bool

unfoldable pub make : Linux → Bool → Linux × Option ℕ
make s true = (record s { fresh = suc s.fresh; live = s.fresh ∷ s.live }, some s.fresh)
make s false = (s, none)

unfoldable pub is_live : ℕ → List ℕ → Bool
is_live h [] = false
is_live h (x ∷ xs) = let rest = is_live h xs in if x == h then true else rest

unfoldable pub dead : ℕ → List ℕ → List ℕ
dead h [] = []
dead h (x ∷ xs) = let rest = dead h xs in if x == h then xs else x ∷ rest

-- if (object) free(object)
unfoldable pub free : Option ℕ → Linux → Linux
free none s = s
free (some h) s =
    if is_live h s.live
    then record s { live = dead h s.live }
    else record s { freed_twice = h ∷ s.freed_twice }

-- FAIL_CLEAN_UP
unfoldable pub clean_up : Linux → Linux × Bool
unfolding free is_live dead
clean_up s = (free s.simple_poll (free s.client (free s.service_browser s)), false)

unfoldable pub init_browser : Linux → Bool → Linux × Bool
unfolding make clean_up
init_browser s ok =
    let (made, browser) = make s ok in
    let s' : Linux = record made { service_browser = browser } in
    elim browser [ none ↦ clean_up s' | some h ↦ (s', true) ]

unfoldable pub init_client : Linux → Makes → Linux × Bool
unfolding make clean_up init_browser
init_client s makes =
    let (made, client) = make s makes.client in
    let s' : Linux = record made { client = client } in
    elim client [ none ↦ clean_up s' | some h ↦ init_browser s' makes.browser ]

-- NetworkDeviceNotifierLinux::init
unfoldable pub init : Linux → Makes → Linux × Bool
unfolding make clean_up init_client
init s makes =
    let (made, poll) = make s makes.poll in
    let s' : Linux = record made { simple_poll = poll } in
    elim poll [ none ↦ clean_up s' | some h ↦ init_client s' makes ]

-- NetworkDeviceNotifierLinux::start
unfoldable pub start : Linux → Linux
start s = if s.running then record s { crashed = true } else record s { running = true }

-- NetworkDeviceNotifierLinux::stop
unfoldable pub stop : Linux → Linux
stop s = if s.running then record s { running = false } else record s { crashed = true }

-- NetworkDeviceNotifierLinux::clientCallback: it returns at once, whatever the client's state is.
unfoldable client_callback : ℕ → Linux → Linux
client_callback client_state s = s

pub data BrowserEvent : Type 0 where
  browser_new browser_remove browser_other : BrowserEvent

-- NetworkDeviceNotifierLinux::serviceBrowserCallback with handlers that are set: how many resolvers
-- it asks for, and what it hands to the manager.
unfoldable pub service_browser_callback : BrowserEvent → List ℕ → ℕ × List Notice
service_browser_callback browser_new name = (1, [])
service_browser_callback browser_remove name = (0, detaches name ∷ [])
service_browser_callback browser_other name = (0, [])

-- A text up to its first NUL, as std::string takes it from a pointer.
unfoldable pub c_string : List ℕ → List ℕ
c_string [] = []
c_string (c ∷ cs) = let rest = c_string cs in if c == 0 then [] else c ∷ rest

-- The body of the loop over the TXT records, for one of them. Its length may be larger than that of
-- the text, and substr takes what is there.
unfoldable pub add_record : List (List ℕ × List ℕ) → List ℕ → List (List ℕ × List ℕ)
unfolding c_string
add_record metadata txt = elim (split_at_char b'=' (c_string txt)) [
  | none ↦ metadata
  | some parts ↦ set_metadata parts.0 (take (length txt - length parts.0) parts.1) metadata
]

unfoldable pub add_records : List (List ℕ × List ℕ) → List (List ℕ) → List (List ℕ × List ℕ)
add_records metadata [] = metadata
add_records metadata (txt ∷ txts) = add_records (add_record metadata txt) txts

-- What NetworkDeviceNotifierLinux::serviceResolverCallback is told: the host byte order port, and
-- the IPv4 address in network byte order.
pub data ResolverEvent : Type 0 where
  resolver_found : List ℕ → ℕ → ℕ → List (List ℕ) → ResolverEvent
  resolver_other : ResolverEvent

-- NetworkDeviceNotifierLinux::serviceResolverCallback, but for the resolver, which it frees in the
-- end on every branch.
unfoldable pub service_resolver_callback : ResolverEvent → List Notice
service_resolver_callback (resolver_found name address port txt) =
    attaches (record {
      id = name;
      location = record { address = address; port = swap_16 port };
      metadata = add_records [] txt;
    })
    ∷ []
service_resolver_callback resolver_other = []

-- The class as the manager sees it, where init makes what `makes` says.
abbrev pub linux_notifiers : Makes → Notifiers
linux_notifiers makes = record {
  Notifier = Linux;
  init = λ s. init s makes;
  start = start;
  stop = stop;
}
