-- ===== src/NetworkMap/Laws.antt =====
-- What an accepted network map is.
use client_api.Prelude.{
  Bytes, bytes_eq, bytes_beq_iff, ◌≡◌, refl, true, false, not, Option, none, some, List, [], ◌∷◌,
  ◌==◌, map, Distinct, contains, All, All-map, ok, >>-eq-ok, reject-eq-ok, reject-ok, for_each,
  arith,
}
use client_api.Go.Strings.{trim_space}
use client_api.Types.Relay.{RelayCredential}
use client_api.Types.Node.{Node, Peer}
use client_api.Types.Map.{NetworkMapSnapshot}
use client_api.External.{External}
use client_api.Wireguard.{
  validate_hostname, validate_public_key, validate_endpoint, validate_prefix,
}
use client_api.AclGrants.{validate_acl_grants}
use client_api.Application.{validate_application_bindings}
use client_api.Sharing.{validate_share_peer_grants}
use client_api.NetworkMap.{
  validate_map_texts, validate_service_hosts, validate_optional_endpoint, validate_map_node,
  validate_peer_port, validate_map_peer, validate_peers, validate_stun_endpoint, validate_relay,
  validate_relay_credential, validate_network, validate_members, validate_transport,
  validate_network_map_snapshot,
}

-- A credential is for the map's node in the map's network.
abbrev pub IsCredentialOf : NetworkMapSnapshot → Option RelayCredential → Type 0
IsCredentialOf s none = Unit
IsCredentialOf s (some c) =
    (trim_space c.network_id ≡ trim_space s.network.id)
    × (trim_space c.node_id ≡ trim_space s.node.id)

absent :
    (id : Bytes) (seen : List Bytes) (peers : List Peer)
    → All (λ (p : Peer). contains p.id (id ∷ seen) ≡ false) peers
    → contains id (map (λ (p : Peer). p.id) peers) ≡ false
unfolding contains
absent id seen [] h = refl
absent id seen (p ∷ ps) (a, h) =
    ground (arith, absent id seen ps h, bytes_beq_iff id p.id, bytes_beq_iff p.id id)

module _ ⦃x : External⦄ where
  peers_checked :
      (seen : List Bytes) (peers : List Peer)
      → validate_peers seen peers ≡ ok tt
      → All (λ p. validate_map_peer p ≡ ok tt) peers
        × Distinct (map (λ (p : Peer). p.id) peers)
        × All (λ p. contains p.id seen ≡ false) peers
  unfolding validate_peers contains
  peers_checked seen [] h = (tt, tt, tt)
  peers_checked seen (p ∷ ps) h =
      let (a, h1) = >>-eq-ok (validate_map_peer p) _ h in
      let (b, h2) = reject-eq-ok (contains p.id seen) _ _ h1 in
      let (c, d, e) = peers_checked (p.id ∷ seen) ps h2 in
      ((a, c), (absent p.id seen ps e, d), (b, All-map _ _ (λ q f. ground arith) ps e))

  -- What the checks of the node say of the network it is in.
  node_checked :
      (node : Node) (network_id : Bytes)
      → validate_map_node node network_id ≡ ok tt
      → ((trim_space node.id == []) ≡ false) × (trim_space node.network_id ≡ network_id)
  unfolding validate_map_node
  node_checked node network_id h =
      let (a, h1) = reject-eq-ok (trim_space node.id == []) _ _ h in
      let (b, h2) = reject-eq-ok (not (trim_space node.network_id == network_id)) _ _ h1 in
      (a, ground (arith, bytes_beq_iff (trim_space node.network_id) network_id))

  -- A peer's own checks.
  peer_checked :
      (p : Peer)
      → validate_map_peer p ≡ ok tt
      → ((trim_space p.id == []) ≡ false)
        × (validate_hostname p.hostname ≡ ok tt)
        × (validate_public_key p.public_key ≡ ok tt)
        × (validate_acl_grants p ≡ ok tt)
  unfolding validate_map_peer
  peer_checked p h =
      let (a, h1) = reject-eq-ok (trim_space p.id == []) _ _ h in
      let (_, h2) = >>-eq-ok (validate_map_texts (p.id ∷ p.network_id ∷ p.status ∷ [])) _ h1 in
      let (b, h3) = >>-eq-ok (validate_hostname p.hostname) _ h2 in
      let (c, h4) = >>-eq-ok (validate_public_key p.public_key) _ h3 in
      let (_, h5) = >>-eq-ok (validate_optional_endpoint p.endpoint) _ h4 in
      let (_, h6) = >>-eq-ok (for_each validate_endpoint p.endpoint_candidates) _ h5 in
      let (_, h7) = >>-eq-ok (for_each validate_prefix p.allowed_ips) _ h6 in
      let (_, h8) = >>-eq-ok (for_each validate_peer_port p.allowed_ports) _ h7 in
      let (d, h9) = >>-eq-ok (validate_acl_grants p) _ h8 in (a, b, c, d)

  -- What an accepted map is: one network with the node in it, peers under different IDs, and a
  -- relay credential for this node in this network.
  pub record IsCoherent (s : NetworkMapSnapshot) : Type 0 where
    pub network_named : (trim_space s.network.id == []) ≡ false
    pub node_named : (trim_space s.node.id == []) ≡ false
    pub node_within : trim_space s.node.network_id ≡ trim_space s.network.id
    pub peers_distinct : Distinct (map (λ (p : Peer). p.id) s.peers)
    pub peers_valid : All (λ p. validate_map_peer p ≡ ok tt) s.peers
    pub applications_bound : validate_application_bindings s ≡ ok tt
    pub grants_bound : validate_share_peer_grants s ≡ ok tt
    pub relays_accepted : x.relays_valid s.relays ≡ true
    pub credential_bound : IsCredentialOf s s.relay_credential

  credential_checked :
      (s : NetworkMapSnapshot) (o : Option RelayCredential)
      → validate_relay_credential s o ≡ ok tt
      → IsCredentialOf s o
  unfolding validate_relay_credential
  credential_checked s none h = tt
  credential_checked s (some d) h =
      let (_, h1) =
        >>-eq-ok
          (validate_map_texts
            (d.algorithm ∷ d.key_id ∷ d.network_id ∷ d.node_id ∷ d.signature ∷ []))
          _ h in
      let (a, h2) =
        reject-eq-ok (not (trim_space d.network_id == trim_space s.network.id)) _ _ h1 in
      let b = reject-ok (not (trim_space d.node_id == trim_space s.node.id)) _ h2 in
      (
        ground (arith, bytes_beq_iff (trim_space d.network_id) (trim_space s.network.id)),
        ground (arith, bytes_beq_iff (trim_space d.node_id) (trim_space s.node.id)),
      )

  network_checked :
      (s : NetworkMapSnapshot)
      → validate_network s ≡ ok tt
      → (trim_space s.network.id == []) ≡ false
  unfolding validate_network
  network_checked s h = (reject-eq-ok (trim_space s.network.id == []) _ _ h).0

  transport_checked :
      (s : NetworkMapSnapshot)
      → validate_transport s ≡ ok tt
      → (x.relays_valid s.relays ≡ true) × (validate_relay_credential s s.relay_credential ≡ ok tt)
  unfolding validate_transport
  transport_checked s h =
      let (_, h1) = >>-eq-ok (for_each validate_stun_endpoint s.stun_endpoints) _ h in
      let (a, h2) = reject-eq-ok (not (x.relays_valid s.relays)) _ _ h1 in
      let (_, h3) = >>-eq-ok (for_each validate_relay s.relays) _ h2 in
      (ground arith, (>>-eq-ok (validate_relay_credential s s.relay_credential) _ h3).0)

  -- An accepted map names its network and its node, the node is in that network, its peers are
  -- valid and have different IDs, its applications and sharing grants are bound to the map's nodes,
  -- and its relay credential is for this node in this network.
  pub validate_network_map_snapshot-IsCoherent :
      (s : NetworkMapSnapshot) → validate_network_map_snapshot s ≡ ok tt → IsCoherent s
  unfolding validate_network_map_snapshot validate_members
  validate_network_map_snapshot-IsCoherent s h =
      let (a, h1) = >>-eq-ok (validate_network s) _ h in
      let (m, t) = >>-eq-ok (validate_members s) _ h1 in
      let (b, m1) = >>-eq-ok (validate_map_node s.node (trim_space s.network.id)) _ m in
      let (_, m2) = >>-eq-ok (validate_service_hosts s) _ m1 in
      let (c, m3) = >>-eq-ok (validate_application_bindings s) _ m2 in
      let (d, p) = >>-eq-ok (validate_share_peer_grants s) _ m3 in
      let (e, f, _) = peers_checked [] s.peers p in
      let (i, j) = node_checked s.node (trim_space s.network.id) b in
      let (k, l) = transport_checked s t in
      record {
        network_named = network_checked s a;
        node_named = i;
        node_within = j;
        peers_distinct = f;
        peers_valid = e;
        applications_bound = c;
        grants_bound = d;
        relays_accepted = k;
        credential_bound = credential_checked s s.relay_credential l;
      }
