-- ===== src/Notifier/Windows/Announce.antt =====
-- NetworkDeviceNotifierWindows (src/device_notifier.cpp): the device that an address announces.
use ldcp_sdk.Prelude.{
  ℕ, ◌≡◌, refl, Bool, true, false, List, [], ◌∷◌, ◌++◌, inl, inr, ◌⊎◌, All, eq_bytes, eq_bytes_iff,
  take_first-found,
}
use ldcp_sdk.Manager.{DeviceInfo}
use ldcp_sdk.Notifier.{attaches}
use ldcp_sdk.Notifier.Windows.{
  Sockets, MdnsRecord, Windows, add_items, take_record, announced, drop_request,
  service_get_addr_info_callback,
}

module _ (w : Sockets) (txt_items : List ℕ → List (List ℕ × List ℕ)) where
  -- What the device of a record is announced as.
  abbrev pub device_of : ℕ → MdnsRecord → DeviceInfo
  device_of address r = record {
    id = r.service_name;
    location = record { address = address; port = r.port };
    metadata = add_items w [] (txt_items r.txt_record);
  }

  drop_request-mdns_records :
      (s : Windows w) (r : ℕ) (more : Bool)
      → (drop_request w s r more).mdns_records ≡ s.mdns_records
  unfolding drop_request
  drop_request-mdns_records s r true = refl
  drop_request-mdns_records s r false = refl

  -- An address is announced for the oldest record of its host, as a device with the record's name,
  -- port and metadata, and that record alone is dropped; where no record is of that host, nothing
  -- is announced and the records stay.
  pub address-announces :
      (s : Windows w) (sd_ref : ℕ) (more_coming : Bool) (host_name : List ℕ) (address : ℕ)
      → let (s', notices) =
          service_get_addr_info_callback w txt_items s sd_ref more_coming host_name address in
        ((notices ≡ [])
          × (s'.mdns_records ≡ s.mdns_records)
          × All (λ r. eq_bytes r.host_name host_name ≡ false) s.mdns_records)
        ⊎ ((before after : List MdnsRecord) × (r : MdnsRecord) × (notices
              ≡ attaches (device_of address r) ∷ [])
            × (s.mdns_records ≡ before ++ (r ∷ after))
            × (s'.mdns_records ≡ before ++ after)
            × (r.host_name ≡ host_name)
            × All (λ r'. eq_bytes r'.host_name host_name ≡ false) before)
  unfolding service_get_addr_info_callback announced take_record
  address-announces s sd_ref more host_name address =
      elim (take_first-found (λ r. eq_bytes r.host_name host_name) s.mdns_records) [
        | inl (missing, rest) ↦
            inl (rw missing refl, rw (drop_request-mdns_records, missing) refl, rest)
        | inr (before, after, r, found, split, same, rest) ↦ inr (
          before,
          after,
          r,
          rw found refl,
          split,
          rw (drop_request-mdns_records, found) refl,
          (eq_bytes_iff _ _).0 same,
          rest,
        )
      ]
