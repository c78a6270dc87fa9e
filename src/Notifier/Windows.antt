-- ===== src/Notifier/Windows.antt =====
-- NetworkDeviceNotifierWindows (src/device_notifier.cpp). Bonjour and Winsock are third-party code:
-- what a call of DNSServiceBrowse, DNSServiceResolve or DNSServiceGetAddrInfo returns is an argument
-- (`none`: an error), a request is a number, and `Sockets` is the interface to descriptor sets.
pub mod Requests
pub mod Announce
pub mod Polling
pub mod Round
use ldcp_sdk.Prelude.{
  ℕ, ◌≡◌, Bool, true, false, List, [], ◌∷◌, ◌++◌, Option, none, some, ◌==◌, ltb, length,
  if◌then◌else◌, eq_bytes, take_first,
}
use mathlib.Core.Option
use ldcp_sdk.Framing.Stream.{split_at_char}
use ldcp_sdk.Manager.{DeviceInfo}
use ldcp_sdk.Notifier.{Notice, attaches, detaches, set_metadata}

-- FD_SET may leave a full set as it is.
pub record Sockets : Type 1 where
  pub Set : Type 0
  -- DNSServiceRefSockFD
  pub socket : ℕ → ℕ
  pub fd_zero : Set
  pub fd_set : ℕ → Set → Set
  pub fd_clr : ℕ → Set → Set
  pub fd_isset : ℕ → Set → Bool
  pub isset-zero : (x : ℕ) → fd_isset x fd_zero ≡ false
  pub isset-set : (x y : ℕ) (s : Set) → (y == x) ≡ false → fd_isset x (fd_set y s) ≡ fd_isset x s
  pub isset-clr :
      (x y : ℕ) (s : Set) → fd_isset x (fd_clr y s) ≡ (if y == x then false else fd_isset x s)

-- struct mDNSRecord, with its texts as bytes
pub record MdnsRecord : Type 0 where
  pub service_name : List ℕ
  pub host_name : List ℕ
  pub port : ℕ
  pub txt_record : List ℕ

module _ (w : Sockets) where
  pub record Windows : Type 0 where
    pub active_flag : Bool
    pub pending_requests : List ℕ
    pub read_set : w.Set
    pub mdns_records : List MdnsRecord

  -- pending_requests_.push_front(request); FD_SET(DNSServiceRefSockFD(request), &read_set_)
  unfoldable pub push_request : Windows → ℕ → Windows
  push_request s request = record s {
    pending_requests = request ∷ s.pending_requests;
    read_set = w.fd_set (w.socket request) s.read_set;
  }

  -- std::list::remove
  unfoldable pub remove : ℕ → List ℕ → List ℕ
  remove x [] = []
  remove x (y ∷ ys) = let rest = remove x ys in if y == x then rest else y ∷ rest

  -- The end of both callbacks: the request is dropped unless more is to come.
  unfoldable pub drop_request : Windows → ℕ → Bool → Windows
  drop_request s sd_ref true = s
  drop_request s sd_ref false = record s {
    pending_requests = remove sd_ref s.pending_requests;
    read_set = w.fd_clr (w.socket sd_ref) s.read_set;
  }

  -- NetworkDeviceNotifierWindows::init
  unfoldable pub init_windows : Windows → Option ℕ → Windows × Bool
  init_windows s none = (s, false)
  init_windows s (some request) = (
    record s { pending_requests = request ∷ []; read_set = w.fd_set (w.socket request) w.fd_zero },
    true,
  )

  -- NetworkDeviceNotifierWindows::serviceBrowseCallback with a handler that is set; `added` is the
  -- flag kDNSServiceFlagsAdd.
  unfoldable pub service_browse_callback :
      Windows → Bool → List ℕ → Option ℕ → Windows × List Notice
  service_browse_callback s false service_name resolve = (s, detaches service_name ∷ [])
  service_browse_callback s true service_name none = (s, [])
  service_browse_callback s true service_name (some request) = (push_request s request, [])

  -- The record that serviceResolveCallback keeps, and the request that it makes. `none`: a full name
  -- with no dot, from which a null pointer is subtracted.
  unfoldable pub kept_record :
      Windows → List ℕ → ℕ → List ℕ → ℕ → Option (List ℕ × List ℕ) → Option Windows
  kept_record s host_name port txt request none = none
  kept_record s host_name port txt request (some (id, domain)) = some (
      push_request
        (record s {
          mdns_records =
              s.mdns_records
              ++ (record { service_name = id; host_name = host_name; port = port; txt_record = txt }
                  ∷ []);
        })
        request)

  -- The part of serviceResolveCallback up to the flags.
  unfoldable pub resolved : Windows → List ℕ → List ℕ → ℕ → List ℕ → Option ℕ → Option Windows
  resolved s full_name host_name port txt none = some s
  resolved s full_name host_name port txt (some request) =
      kept_record s host_name port txt request (split_at_char b'.' full_name)

  -- NetworkDeviceNotifierWindows::serviceResolveCallback
  unfoldable pub service_resolve_callback :
      Windows → ℕ → Bool → List ℕ → List ℕ → ℕ → List ℕ → Option ℕ → Option Windows
  service_resolve_callback s sd_ref more_coming full_name host_name port txt request =
      Option.map (λ s'. drop_request s' sd_ref more_coming)
        (resolved s full_name host_name port txt request)

  -- find_if on the host name, and erase: the record that is found, and the others.
  unfoldable pub take_record : List ℕ → List MdnsRecord → Option (MdnsRecord × List MdnsRecord)
  take_record host_name records = take_first (λ r. eq_bytes r.host_name host_name) records

  -- The loop over the items of a TXT record, as TXTRecordGetItemAtIndex gives them.
  unfoldable pub add_items :
      List (List ℕ × List ℕ) → List (List ℕ × List ℕ) → List (List ℕ × List ℕ)
  add_items metadata [] = metadata
  add_items metadata ((key, value) ∷ items) =
      add_items (if ltb 0 (length value) then set_metadata key value metadata else metadata) items

  -- The items of a TXT record: the keys and values that TXTRecordGetItemAtIndex gives.
  module _ (txt_items : List ℕ → List (List ℕ × List ℕ)) where
    -- The part of serviceGetAddrInfoCallback up to the flags.
    unfoldable pub announced :
        Windows → ℕ → Option (MdnsRecord × List MdnsRecord) → Windows × List Notice
    announced s address none = (s, [])
    announced s address (some (r, others)) = (
      record s { mdns_records = others },
      attaches (record {
        id = r.service_name;
        location = record { address = address; port = r.port };
        metadata = add_items [] (txt_items r.txt_record);
      })
          ∷ [],
    )

    -- NetworkDeviceNotifierWindows::serviceGetAddrInfoCallback with a handler that is set
    unfoldable pub service_get_addr_info_callback :
        Windows → ℕ → Bool → List ℕ → ℕ → Windows × List Notice
    service_get_addr_info_callback s sd_ref more_coming host_name address =
        let (s', notices) = announced s address (take_record host_name s.mdns_records) in
        (drop_request s' sd_ref more_coming, notices)
