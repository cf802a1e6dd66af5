-- ===== src/Sharing.antt =====
-- clientapi/v1/sharing.go: short-lived grants between a recipient and a source machine.
pub mod Laws
use client_api.Prelude.{
  Bytes, bytes, bytes_eq, ℕ, Bool, true, false, not, ◌&&◌, ◌||◌, Option, none, some, List, [], ◌∷◌,
  ◌++◌, ◌-◌, ◌*◌, ◌/◌, ◌^◌, leb, ltb, ◌==◌, nat_eq, any, contains, length, Result, ok, err, ◌>>=◌,
  ◌>>◌, reject, Check, for_each, if◌then◌else◌,
}
use client_api.Go.Strings.{trim_space}
use client_api.Go.Netip.{
  Addr, unset, v4, v6, Prefix, bit_len, is_4_in_6, prefix_bits, overlaps, host_prefix,
}
use client_api.Go.Sort.{sort}
use client_api.Go.Sort.Texts.{bytes_lt}
use client_api.Types.Time.{Time, is_zero, before, after, minute}
use client_api.Types.Network.{SharePeerGrant, ShareTraffic}
use client_api.Types.Node.{Node, Peer}
use client_api.Types.Map.{NetworkMapSnapshot}
use client_api.External.{External}
use client_api.Wireguard.{validate_safe_text, validate_public_key}
use client_api.Errors.{
  Error, share_field, share_endpoints_same, share_initiation, share_lease, share_addresses_overlap,
  share_rights_count, share_port_range, share_icmp_ports, share_protocol, share_rights_overlap,
  share_outside_lease, share_duplicate, share_local_mismatch, share_peer_mismatch,
  share_peer_absent, share_overlaps_network, share_key_shared, share_overlaps_peer,
  share_cross_network, share_hosts, share_host_prefix, share_duplicate_family,
}

abbrev pub share_initiation_recipient_only : Bytes
share_initiation_recipient_only = bytes "recipient_only"

abbrev pub max_share_peer_grant_ttl : ℕ
max_share_peer_grant_ttl = 2 * minute

-- Addr.IsUnspecified, IsLoopback, IsMulticast, IsLinkLocalUnicast, of addresses that are not 4in6
abbrev pub is_special : Addr → Bool
is_special unset = false
is_special (v4 n) = n == 0 || n / 0x1000000 == 127 || n / 0x10000000 == 0xe || n / 0x10000 == 0xa9fe
is_special (v6 n z) = n == 0 && z == [] || n == 1 || n / 2 ^ 120 == 0xff || n / 2 ^ 118 == 0x3fa

-- The identifier fields, in the order in which they are written.
abbrev pub identifiers : SharePeerGrant → List Bytes
identifiers g =
    g.grant_id ∷ g.recipient_network_id ∷ g.recipient_node_id ∷ g.source_network_id
    ∷ g.source_node_id ∷ []

unfoldable pub validate_share_field : Bytes → Check Error
validate_share_field value = do
  reject (value == [] || not (value == trim_space value) || ltb 128 (length value)) share_field
  validate_safe_text value

abbrev pub is_bad_lease : SharePeerGrant → Bool
is_bad_lease g =
    is_zero g.issued_at
    || not (after g.expires_at g.issued_at)
    || ltb max_share_peer_grant_ttl (g.expires_at - g.issued_at)

-- The switch on a right's protocol.
unfoldable pub validate_ports : ShareTraffic → Check Error
validate_ports right =
    if right.protocol == bytes "tcp" || right.protocol == bytes "udp"
    then reject
        (ltb right.first_port 1
          || ltb right.last_port right.first_port
          || ltb 65535 right.last_port)
        share_port_range
    else if right.protocol == bytes "icmp"
    then reject (not (right.first_port == 0) || not (right.last_port == 0)) share_icmp_ports
    else err share_protocol

abbrev pub rights_overlap : ShareTraffic → ShareTraffic → Bool
rights_overlap right other =
    right.protocol == other.protocol
    && leb right.first_port other.last_port
    && leb other.first_port right.last_port

-- The loop over the rights, with those before.
unfoldable pub validate_rights : List ShareTraffic → List ShareTraffic → Check Error
validate_rights earlier [] = ok tt
validate_rights earlier (right ∷ rights) = do
  validate_ports right
  reject (any (rights_overlap right) earlier) share_rights_overlap
  validate_rights (earlier ++ right ∷ []) rights

module _ ⦃x : External⦄ where
  abbrev pub is_host_prefix : Bytes → Prefix → Bool
  is_host_prefix text prefix =
      prefix_bits prefix == bit_len prefix.ip
      && x.prefix_string prefix == text
      && not (is_4_in_6 prefix.ip)
      && not (is_special prefix.ip)

  abbrev pub host_of : Bytes → Option Prefix → Result Error Prefix
  host_of text none = err share_host_prefix
  host_of text (some prefix) =
      if is_host_prefix text prefix then ok prefix else err share_host_prefix

  abbrev pub same_family : Prefix → Prefix → Bool
  same_family a b = bit_len a.ip == bit_len b.ip

  -- The loop in shareHostPrefixes, with the result so far.
  unfoldable pub collect_hosts : List Prefix → List Bytes → Result Error (List Prefix)
  collect_hosts found [] = ok found
  collect_hosts found (text ∷ texts) = do
    prefix ← host_of text (x.parse_prefix text)
    reject (any (same_family prefix) found) share_duplicate_family
    collect_hosts (found ++ prefix ∷ []) texts

  -- shareHostPrefixes
  unfoldable pub share_host_prefixes : List Bytes → Result Error (List Prefix)
  share_host_prefixes texts = do
    reject (ltb (length texts) 1 || ltb 2 (length texts)) share_hosts
    collect_hosts [] texts

  -- SharePeerGrant.Validate
  unfoldable pub validate : SharePeerGrant → Check Error
  validate g = do
    for_each validate_share_field (identifiers g)
    reject
        (g.source_node_id == g.recipient_node_id || g.source_public_key == g.recipient_public_key)
        share_endpoints_same
    validate_public_key g.source_public_key
    validate_public_key g.recipient_public_key
    reject (not (g.initiation == share_initiation_recipient_only) || g.revision == 0)
        share_initiation
    reject (is_bad_lease g) share_lease
    left ← share_host_prefixes g.source_allowed_ips
    right ← share_host_prefixes g.recipient_allowed_ips
    reject (any (λ a. any (overlaps a) right) left) share_addresses_overlap
    reject (length g.rights == 0 || ltb 128 (length g.rights)) share_rights_count
    validate_rights [] g.rights

-- slices.Equal
unfoldable pub texts_beq : List Bytes → List Bytes → Bool
texts_beq [] [] = true
texts_beq (a ∷ as') (b ∷ bs) = a == b && texts_beq as' bs
texts_beq _ _ = false

-- shareIPsEqual
unfoldable pub share_ips_equal : List Bytes → List Bytes → Bool
share_ips_equal left right = texts_beq (sort bytes_lt left) (sort bytes_lt right)

-- One end of a grant.
pub record Endpoint : Type 0 where
  pub network : Bytes
  pub node : Bytes
  pub key : Bytes
  pub ips : List Bytes

abbrev pub recipient_end : SharePeerGrant → Endpoint
recipient_end g = record {
  network = g.recipient_network_id;
  node = g.recipient_node_id;
  key = g.recipient_public_key;
  ips = g.recipient_allowed_ips;
}

abbrev pub source_end : SharePeerGrant → Endpoint
source_end g = record {
  network = g.source_network_id;
  node = g.source_node_id;
  key = g.source_public_key;
  ips = g.source_allowed_ips;
}

abbrev is_source : NetworkMapSnapshot → SharePeerGrant → Bool
is_source s g = s.node.id == g.source_node_id && s.network.id == g.source_network_id

-- The end at this node: the recipient's, unless this node is the source.
unfoldable pub local_end : NetworkMapSnapshot → SharePeerGrant → Endpoint
local_end s g = if is_source s g then source_end g else recipient_end g

unfoldable pub remote_end : NetworkMapSnapshot → SharePeerGrant → Endpoint
remote_end s g = if is_source s g then recipient_end g else source_end g

module _ ⦃x : External⦄ where
  abbrev add_host : Option Addr → Option (List Bytes) → Option (List Bytes)
  add_host none rest = none
  add_host (some addr) none = none
  add_host (some addr) (some rest) = some (x.prefix_string (host_prefix addr) ∷ rest)

  -- The assigned addresses as host prefixes; `none` where one does not parse.
  unfoldable pub local_hosts : List Bytes → Option (List Bytes)
  local_hosts [] = some []
  local_hosts (text ∷ texts) =
      let rest = local_hosts texts in if text == [] then rest else add_host (x.parse_addr text) rest

  abbrev matches_hosts : Option (List Bytes) → List Bytes → Bool
  matches_hosts none texts = false
  matches_hosts (some hosts) texts = share_ips_equal hosts texts

  -- shareLocalIPsMatch
  unfoldable pub share_local_ips_match : Node → List Bytes → Bool
  share_local_ips_match node texts =
      matches_hosts (local_hosts (node.assigned_ip ∷ node.assigned_ipv6 ∷ [])) texts

  -- The first loop over the peers: the remote peer, at most once with another binding.
  unfoldable pub find_remote : Endpoint → Bool → List Peer → Result Error Bool
  find_remote remote found [] = ok found
  find_remote remote found (peer ∷ peers) = do
    reject
        (peer.id == remote.node
          && (not (peer.network_id == remote.network)
              || not (peer.public_key == remote.key)
              || not (share_ips_equal peer.allowed_ips remote.ips)))
        share_peer_mismatch
    find_remote remote (found || peer.id == remote.node) peers

  abbrev parsed_overlaps : Option Prefix → Option Prefix → Bool
  parsed_overlaps (some a) (some b) = overlaps a b
  parsed_overlaps _ _ = false

  abbrev texts_overlap : Bytes → Bytes → Bool
  texts_overlap a b = parsed_overlaps (x.parse_prefix a) (x.parse_prefix b)

  -- The loop over the other peers, for one address of the remote end.
  unfoldable pub check_other_peer : Endpoint → Bytes → Peer → Check Error
  check_other_peer remote value peer = if peer.id == remote.node then ok tt else do
    reject (peer.public_key == remote.key) share_key_shared
    reject (any (λ other. texts_overlap other value) peer.allowed_ips) share_overlaps_peer

  unfoldable pub check_remote_ip : NetworkMapSnapshot → Bytes → Endpoint → Bytes → Check Error
  check_remote_ip s local_network remote value = do
    reject
        (not (remote.network == local_network)
          && (texts_overlap s.network.cidr value || texts_overlap s.network.ipv6_cidr value))
        share_overlaps_network
    for_each (check_other_peer remote value) s.peers

  -- One round of the loop over the grants, with the grant IDs seen before.
  unfoldable pub validate_grant : NetworkMapSnapshot → List Bytes → SharePeerGrant → Check Error
  validate_grant s seen g = do
    validate g
    reject (contains g.grant_id seen) share_duplicate
    let local = local_end s g
    let remote = remote_end s g
    reject
        (not (local.network == s.network.id)
          || not (local.node == s.node.id)
          || not (local.key == s.node.public_key)
          || not (share_local_ips_match s.node local.ips))
        share_local_mismatch
    found ← find_remote remote false s.peers
    reject (not found) share_peer_absent
    for_each (check_remote_ip s local.network remote) remote.ips

  -- The loop over the grants; its result are the peers that a grant binds.
  unfoldable pub validate_grants :
      NetworkMapSnapshot → List Bytes → List Bytes → List SharePeerGrant → Result Error (List Bytes)
  validate_grants s seen bound [] = ok bound
  validate_grants s seen bound (g ∷ grants) = do
    validate_grant s seen g
    validate_grants s (g.grant_id ∷ seen) ((remote_end s g).node ∷ bound) grants

  abbrev pub is_unbound : NetworkMapSnapshot → List Bytes → Peer → Bool
  is_unbound s bound peer =
      not (peer.network_id == [])
      && not (peer.network_id == s.network.id)
      && not (contains peer.id bound)

  -- validateSharePeerGrants
  unfoldable pub validate_share_peer_grants : NetworkMapSnapshot → Check Error
  validate_share_peer_grants s = do
    bound ← validate_grants s [] [] s.network.share_peer_grants
    reject (any (is_unbound s bound) s.peers) share_cross_network

  abbrev pub is_outside_lease : Time → SharePeerGrant → Bool
  is_outside_lease now g = before now g.issued_at || not (before now g.expires_at)

  -- ValidateSharePeerGrantsAt
  unfoldable pub validate_share_peer_grants_at : NetworkMapSnapshot → Time → Check Error
  validate_share_peer_grants_at s now = do
    validate_share_peer_grants s
    reject (any (is_outside_lease now) s.network.share_peer_grants) share_outside_lease
