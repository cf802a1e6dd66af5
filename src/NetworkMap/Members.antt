-- ===== src/NetworkMap/Members.antt =====
-- networkmap_validate.go: the node and the peers.
use client_api.Prelude.{
  Bytes, bytes_eq, not, [], ◌∷◌, ◌==◌, ok, ◌>>◌, reject, Check, for_each, if◌then◌else◌,
}
use client_api.Go.Strings.{trim_space}
use client_api.Types.Node.{Node, Peer, AclPort}
use client_api.External.{External}
use client_api.Wireguard.{
  validate_safe_text, validate_hostname, validate_public_key, validate_addr, validate_endpoint,
  validate_prefix,
}
use client_api.AclGrants.{is_known_protocol, is_bad_port, validate_acl_grants}
use client_api.NetworkMap.Catalog.{validate_map_texts}
use client_api.Errors.{
  Error, node_id_missing, node_network_mismatch, peer_id_missing, port_protocol, port_number,
}

unfoldable pub validate_peer_port : AclPort → Check Error
validate_peer_port port = do
  reject (not (is_known_protocol port.protocol)) port_protocol
  reject (is_bad_port port) port_number

module _ ⦃x : External⦄ where
  -- validateOptionalEndpoint
  unfoldable pub validate_optional_endpoint : Bytes → Check Error
  validate_optional_endpoint value = if value == [] then ok tt else validate_endpoint value

  unfoldable pub validate_optional_addr : Bytes → Check Error
  validate_optional_addr value = if value == [] then ok tt else validate_addr value

  -- validateMapNode
  unfoldable pub validate_map_node : Node → Bytes → Check Error
  validate_map_node node network_id = do
    reject (trim_space node.id == []) node_id_missing
    reject (not (trim_space node.network_id == network_id)) node_network_mismatch
    validate_map_texts (
        node.id ∷ node.network_id ∷ node.user_id ∷ node.identity_public_key
        ∷ node.device_fingerprint ∷ node.status ∷ [])
    validate_hostname node.hostname
    validate_public_key node.public_key
    validate_addr node.assigned_ip
    validate_optional_addr node.assigned_ipv6
    validate_optional_endpoint node.endpoint
    for_each validate_endpoint node.endpoint_candidates
    for_each validate_prefix node.advertised_ips
    for_each validate_safe_text node.tags

  -- validateMapPeer
  unfoldable pub validate_map_peer : Peer → Check Error
  validate_map_peer peer = do
    reject (trim_space peer.id == []) peer_id_missing
    validate_map_texts (peer.id ∷ peer.network_id ∷ peer.status ∷ [])
    validate_hostname peer.hostname
    validate_public_key peer.public_key
    validate_optional_endpoint peer.endpoint
    for_each validate_endpoint peer.endpoint_candidates
    for_each validate_prefix peer.allowed_ips
    for_each validate_peer_port peer.allowed_ports
    validate_acl_grants peer
    for_each validate_safe_text peer.tags
