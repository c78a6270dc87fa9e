-- ===== src/Network/Datagrams.antt =====
-- The datagrams that the OOB socket of a NetworkTransport receives, one after the other
-- (NetworkTransport::oobPacketHandler of src/transport.cpp).
use ldcp_sdk.Prelude.{ℕ, ◌≡◌, refl, ap, ◌∙◌, true, false, ◌&&◌, List, [], ◌∷◌, ◌++◌, All}
use ldcp_sdk.Location.{NetworkLocation, network_location_eq}
use ldcp_sdk.Packet.{verify_oob_packet}
use ldcp_sdk.Network.{Network, oob_packet_handler}

abbrev pub Datagram : Type 0
Datagram = NetworkLocation × List ℕ

-- The packets among the datagrams, in order: those of the device that pass the check. The others
-- are of another sender, or do not pass.
pub data Carries (device : NetworkLocation) : List Datagram → List (List ℕ) → Type 0 where
  nothing_more : Carries device [] []
  packet_of :
      {sender : NetworkLocation} {p : List ℕ} {ds : List Datagram} {ps : List (List ℕ)}
      → network_location_eq sender device ≡ true
      → Carries device ds ps
      → Carries device ((sender, p) ∷ ds) (p ∷ ps)
  noise :
      {sender : NetworkLocation} {p : List ℕ} {ds : List Datagram} {ps : List (List ℕ)}
      → (network_location_eq sender device && verify_oob_packet p) ≡ false
      → Carries device ds ps
      → Carries device ((sender, p) ∷ ds) ps

module _ {Value : Type 0} where
  -- The calls of oobPacketHandler for the datagrams, one by one: the packets that it hands on.
  unfoldable pub oob_received : Network Value → List Datagram → Network Value × List (List ℕ)
  oob_received s [] = (s, [])
  oob_received s ((sender, packet) ∷ ds) =
      let (s₁, first) = oob_packet_handler s false sender packet in
      let (s₂, others) = oob_received s₁ ds in (s₂, first ++ others)

  pub oob_received-Carries :
      (device : NetworkLocation) (s : Network Value) (ds : List Datagram) (ps : List (List ℕ))
      → s.device_address ≡ device
      → Carries device ds ps
      → All (λ p. verify_oob_packet p ≡ true) ps
      → (oob_received s ds).1 ≡ ps
  unfolding oob_received oob_packet_handler
  oob_received-Carries device s _ _ at nothing_more v = refl
  oob_received-Carries device s _ _ at (packet_of {sender} from c) (v, vs) =
      let own : network_location_eq sender s.device_address ≡ true =
        ap (network_location_eq sender) at ∙ from in
      rw (own, v, oob_received-Carries device (record s { oob_receiving = true }) _ _ at c vs) refl
  oob_received-Carries device s _ _ at (noise {sender} {p} other c) v =
      let dropped : (network_location_eq sender s.device_address && verify_oob_packet p) ≡ false =
        ap (λ l. network_location_eq sender l && verify_oob_packet p) at ∙ other in
      rw (dropped, oob_received-Carries device (record s { oob_receiving = true }) _ _ at c v) refl
