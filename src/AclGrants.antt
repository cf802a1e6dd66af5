-- ===== src/AclGrants.antt =====
-- clientapi/v1/acl_grants.go: the correlated destination and port permissions of a peer.
pub mod Laws
use client_api.Prelude.{
  Bytes, bytes, bytes_eq, ℕ, Bool, true, false, not, ◌&&◌, ◌||◌, Option, none, some, List, [], ◌∷◌,
  leb, ltb, ◌==◌, nat_eq, any, length, ℤ, pos, int_eq, ltb_ℤ, Result, ok, err, ◌>>=◌, ◌>>◌, reject,
  Check, for_each, if◌then◌else◌,
}
use client_api.Go.Netip.{
  Addr, Prefix, bit_len, is_4_in_6, masked, prefix_beq, prefix_bits, prefix_contains,
}
use client_api.Types.Node.{Peer, AclPort, AclGrant}
use client_api.External.{External}
use client_api.Errors.{
  Error, acl_mixed, acl_too_many, acl_allowed_ips, acl_destinations, acl_too_many_ports,
  acl_destination_not_canonical, acl_destination_outside, acl_protocol, acl_port,
}

abbrev pub is_known_protocol : Bytes → Bool
is_known_protocol p = p == bytes "tcp" || p == bytes "udp" || p == bytes "icmp"

-- ICMP takes port 0, the others 1 to 65535.
abbrev pub is_bad_port : AclPort → Bool
is_bad_port port =
    port.protocol == bytes "icmp" && not (port.port == pos 0)
    || not (port.protocol == bytes "icmp")
      && (ltb_ℤ port.port (pos 1) || ltb_ℤ (pos 65535) port.port)

-- The loop over a grant's ports.
unfoldable pub validate_port : AclPort → Check Error
validate_port port = do
  reject (not (is_known_protocol port.protocol)) acl_protocol
  reject (is_bad_port port) acl_port

-- Whether a route covers the destination.
unfoldable pub covers : Prefix → Prefix → Bool
covers prefix route =
    bit_len route.ip == bit_len prefix.ip
    && leb (prefix_bits route) (prefix_bits prefix)
    && prefix_contains route prefix.ip

module _ ⦃x : External⦄ where
  -- The masked routes of the peer's allowed_ips.
  unfoldable pub parse_routes : List Bytes → Result Error (List Prefix)
  parse_routes [] = ok []
  parse_routes (value ∷ values) = elim (x.parse_prefix value) [
    | none ↦ err acl_allowed_ips
    | some prefix ↦ do routes ← parse_routes values; ok (masked prefix ∷ routes)
  ]

  abbrev pub canonical_destination : Option Prefix → Result Error Prefix
  canonical_destination none = err acl_destination_not_canonical
  canonical_destination (some prefix) =
      if is_4_in_6 prefix.ip || not (prefix_beq prefix (masked prefix))
      then err acl_destination_not_canonical
      else ok prefix

  -- The loop over a grant's destinations.
  unfoldable pub validate_destination : List Prefix → Bytes → Check Error
  validate_destination routes cidr = do
    prefix ← canonical_destination (x.parse_prefix cidr)
    reject (not (any (covers prefix) routes)) acl_destination_outside

  -- The loop over the grants.
  unfoldable pub validate_grant : List Prefix → AclGrant → Check Error
  validate_grant routes grant = do
    reject (length grant.destination_cidrs == 0 || ltb 1000 (length grant.destination_cidrs))
        acl_destinations
    reject (ltb 65535 (length grant.allowed_ports)) acl_too_many_ports
    for_each (validate_destination routes) grant.destination_cidrs
    for_each validate_port grant.allowed_ports

  -- validateACLGrants
  unfoldable pub validate_acl_grants : Peer → Check Error
  validate_acl_grants peer = if length peer.acl_grants == 0 then ok tt else do
    reject (not peer.acl_restricted || not (length peer.allowed_ports == 0)) acl_mixed
    reject (ltb 1000 (length peer.acl_grants)) acl_too_many
    routes ← parse_routes peer.allowed_ips
    for_each (validate_grant routes) peer.acl_grants
