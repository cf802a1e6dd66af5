-- ===== src/Tests/Maps.antt =====
-- Validation of maps on the sample.
use mathlib.Core.List.{Memᴰ}
use client_api.Prelude.{
  Bytes, bytes, ◌≡◌, ◌≢◌, ◌≤◌, ◌<◌, ◌+◌, refl, true, some, ok, [], All, length, arith,
}
use client_api.Go.Netip.{Prefix, prefix_contains}
use client_api.Types.Network.{SharePeerGrant}
use client_api.Tests.{program}
use client_api.Tests.Sample.{
  outside, office, now, quad, net, peer, guest, acl_grant, share, wiki, route,
}
use client_api.NetworkMap.Laws.{IsCoherent, validate_network_map_snapshot-IsCoherent}
use client_api.AclGrants.Laws.{
  IsPort, validate_acl_grants-prefix_contains, validate_acl_grants-IsPort,
}
use client_api.Application.Identities.{IsNode}
use client_api.Application.Laws.{IsDestination, validate_application_bindings-IsDestination}
use client_api.Sharing.{validate, max_share_peer_grant_ttl}
use client_api.Sharing.Laws.{
  ArePairwiseApart, IsBoundBy, validate-ArePairwiseApart, validate_share_peer_grants-IsBoundBy,
  validate_share_peer_grants_at-leased,
}

validate_network_map_snapshot-IsCoherent_example : IsCoherent office
unfolding program
validate_network_map_snapshot-IsCoherent_example =
    validate_network_map_snapshot-IsCoherent office refl

validate_acl_grants-prefix_contains_example :
    (value : Bytes) × (route : Prefix) × Memᴰ value peer.allowed_ips
    × (outside.parse_prefix value ≡ some route)
    × (prefix_contains route (quad 10 9 4 200) ≡ true)
unfolding program
validate_acl_grants-prefix_contains_example =
    validate_acl_grants-prefix_contains peer acl_grant (bytes "10.9.4.0/24")
      (net (quad 10 9 4 0) 24) (quad 10 9 4 200) refl (Memᴰ.head refl) (Memᴰ.head refl) refl refl

validate_acl_grants-IsPort_example :
    (peer.acl_restricted ≡ true)
    × (length peer.allowed_ports ≡ 0)
    × All IsPort acl_grant.allowed_ports
unfolding program
validate_acl_grants-IsPort_example = validate_acl_grants-IsPort peer acl_grant refl (Memᴰ.head refl)

validate_application_bindings-IsDestination_example :
    IsDestination office (bytes "192.168.7.0/24")
    × IsNode office route.connector.node_id route.connector.public_key
unfolding program
validate_application_bindings-IsDestination_example =
    validate_application_bindings-IsDestination office wiki route (bytes "192.168.7.0/24") refl
      (Memᴰ.head refl) (Memᴰ.head refl) (Memᴰ.head refl)

validate-ArePairwiseApart_example :
    ArePairwiseApart share.rights
    × (1 ≤ 2)
    × (2 ≤ 128)
    × (share.source_node_id ≢ share.recipient_node_id)
    × (share.issued_at < share.expires_at)
    × (share.expires_at ≤ share.issued_at + max_share_peer_grant_ttl)
unfolding program
validate-ArePairwiseApart_example = validate-ArePairwiseApart share refl

foreign : guest.network_id ≢ []
unfolding program
foreign h = cc

elsewhere : guest.network_id ≢ office.network.id
unfolding program
elsewhere h = ground arith

validate_share_peer_grants-IsBoundBy_example :
    (g : SharePeerGrant) × Memᴰ g office.network.share_peer_grants
    × (validate g ≡ ok tt)
    × IsBoundBy office guest g
unfolding program
validate_share_peer_grants-IsBoundBy_example =
    validate_share_peer_grants-IsBoundBy office guest refl (Memᴰ.tail (Memᴰ.head refl)) foreign
      elsewhere

validate_share_peer_grants_at-leased_example : (share.issued_at ≤ now) × (now < share.expires_at)
unfolding program
validate_share_peer_grants_at-leased_example =
    validate_share_peer_grants_at-leased office now share refl (Memᴰ.head refl)
