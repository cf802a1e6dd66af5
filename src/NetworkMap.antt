-- ===== src/NetworkMap.antt =====
-- clientapi/v1/networkmap_validate.go: the untrusted map boundary. Where the source ranges over a Go
-- map of fields, in any order, the fields are checked in the order in which they are written.
pub mod Catalog
pub mod Members
pub mod Laws
unfoldable pub use Catalog.{
  validate_map_texts, validate_applications, validate_service, validate_services,
  validate_service_hosts, validate_dns_config,
}
unfoldable pub use Members.{
  validate_optional_endpoint, validate_map_node, validate_map_peer, validate_peer_port,
}
use client_api.Prelude.{
  Bytes, bytes, bytes_eq, Bool, true, false, not, ◌||◌, Option, none, some, List, [], ◌∷◌, ◌==◌,
  contains, Result, ok, err, ◌>>=◌, ◌>>◌, reject, Check, for_each, if◌then◌else◌,
}
use client_api.Go.Strings.{trim_space}
use client_api.Types.Relay.{RelayEndpoint, RelayCredential}
use client_api.Types.Network.{Network}
use client_api.Types.Node.{Peer, StunEndpoint}
use client_api.Types.Map.{NetworkMapSnapshot, MapSignature, RegisterNodeResponse, snapshot_of}
use client_api.External.{External}
use client_api.Wireguard.{validate_safe_text, validate_prefix, validate_dns_ip, validate_endpoint}
use client_api.Application.{validate_application_bindings}
use client_api.Sharing.{validate_share_peer_grants}
use client_api.Errors.{
  Error, network_id_missing, peer_duplicate, stun_id_missing, relays_invalid, relay_id_missing,
  relay_network_mismatch, relay_node_mismatch,
}

-- The text fields of the network and the registration binding.
abbrev pub network_texts : NetworkMapSnapshot → List Bytes
network_texts s =
    s.network.name ∷ s.network.cell_id ∷ s.network.authoritative_cell_id
    ∷ s.network.migrating_to_cell_id ∷ s.network.owner_id ∷ s.network.account_id
    ∷ s.registration_binding ∷ []

module _ ⦃x : External⦄ where
  unfoldable pub validate_optional_prefix : Bytes → Check Error
  validate_optional_prefix value = if value == [] then ok tt else validate_prefix value

  -- The loop over the peers, with the IDs seen before.
  unfoldable pub validate_peers : List Bytes → List Peer → Check Error
  validate_peers seen [] = ok tt
  validate_peers seen (peer ∷ peers) = do
    validate_map_peer peer
    reject (contains peer.id seen) peer_duplicate
    validate_peers (peer.id ∷ seen) peers

  unfoldable pub validate_stun_endpoint : StunEndpoint → Check Error
  validate_stun_endpoint endpoint = do
    reject (trim_space endpoint.id == []) stun_id_missing
    validate_safe_text endpoint.id
    validate_endpoint endpoint.addr

  unfoldable pub validate_relay : RelayEndpoint → Check Error
  validate_relay endpoint = do
    reject (trim_space endpoint.id == []) relay_id_missing
    validate_map_texts (endpoint.id ∷ endpoint.protocol ∷ endpoint.region ∷ [])
    validate_endpoint endpoint.addr

  unfoldable pub validate_relay_credential :
      NetworkMapSnapshot → Option RelayCredential → Check Error
  validate_relay_credential s none = ok tt
  validate_relay_credential s (some c) = do
    validate_map_texts (c.algorithm ∷ c.key_id ∷ c.network_id ∷ c.node_id ∷ c.signature ∷ [])
    reject (not (trim_space c.network_id == trim_space s.network.id)) relay_network_mismatch
    reject (not (trim_space c.node_id == trim_space s.node.id)) relay_node_mismatch

  unfoldable pub validate_map_signature : Option MapSignature → Check Error
  validate_map_signature none = ok tt
  validate_map_signature (some g) =
      validate_map_texts (g.algorithm ∷ g.key_id ∷ g.payload_hash ∷ g.signature ∷ [])

  -- The checks of the network itself, up to its services.
  unfoldable pub validate_network : NetworkMapSnapshot → Check Error
  validate_network s = do
    reject (trim_space s.network.id == []) network_id_missing
    validate_safe_text s.network.id
    validate_map_texts (network_texts s)
    validate_prefix s.network.cidr
    validate_optional_prefix s.network.ipv6_cidr
    for_each validate_dns_ip s.network.dns
    validate_dns_config s.network.dns_config
    validate_applications s.network.applications
    validate_services s.network.services

  -- The checks of the node, of what binds identities, and of the peers.
  unfoldable pub validate_members : NetworkMapSnapshot → Check Error
  validate_members s = do
    validate_map_node s.node (trim_space s.network.id)
    validate_service_hosts s
    validate_application_bindings s
    validate_share_peer_grants s
    validate_peers [] s.peers

  unfoldable pub validate_transport : NetworkMapSnapshot → Check Error
  validate_transport s = do
    for_each validate_stun_endpoint s.stun_endpoints
    reject (not (x.relays_valid s.relays)) relays_invalid
    for_each validate_relay s.relays
    validate_relay_credential s s.relay_credential
    validate_map_signature s.map_signature

  -- ValidateNetworkMapSnapshot
  unfoldable pub validate_network_map_snapshot : NetworkMapSnapshot → Check Error
  validate_network_map_snapshot s = do validate_network s; validate_members s; validate_transport s

  -- ValidateNetworkMap
  unfoldable pub validate_network_map : RegisterNodeResponse → Check Error
  validate_network_map r = validate_network_map_snapshot (snapshot_of r)
