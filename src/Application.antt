-- ===== src/Application.antt =====
-- clientapi/v1/application.go: the targets and routes of account applications.
pub mod Identities
pub mod Laws
use client_api.Prelude.{
  Bytes, bytes, bytes_eq, Eq, ℕ, Bool, true, false, not, ◌&&◌, ◌||◌, Option, none, some, List, [],
  ◌∷◌, leb, ltb, ◌==◌, nat_eq, any, contains, length, Result, ok, err, ◌>>=◌, ◌>>◌, reject, Check,
  for_each, if◌then◌else◌, beq_refl, ◌≡◌, ◌↔◌, arith, bytes_beq_iff, bytes_beq, ◌^◌, ◌+◌, ◌*◌,
}
use client_api.Go.Strings.{to_lower, contains_byte}
use client_api.Go.Net.{parse_digits}
use client_api.Go.Hex
use client_api.Go.Netip.{
  Addr, v4, v6, Prefix, zero_prefix, bit_len, is_valid_addr, is_valid_prefix, is_4_in_6, masked,
  prefix_beq, prefix_bits, overlaps, host_prefix,
}
use client_api.Types.Time.{is_zero}
use client_api.Types.Network.{ServiceHost, Application, ApplicationRoute}
use client_api.Types.Map.{NetworkMapSnapshot}
use client_api.Types.Node.{Peer}
use client_api.Domains.{valid_dns_domain}
use client_api.External.{External, Url}
use client_api.Errors.{
  Error, app_cidr, app_domain, app_url, app_url_port, app_target_type, app_address, app_policy_hash,
  app_node_binding, app_route_binding, app_route_destination, app_route_overlay, app_route_scope,
}

pub record ApplicationTarget : Type 0 where
  pub domain : Bytes
  pub prefix : Prefix
  pub tcp_port : ℕ

abbrev pub v4_block : ℕ → ℕ → Prefix
v4_block n bits = record { ip = v4 n; bits_plus_one = bits + 1 }

abbrev pub v6_block : ℕ → ℕ → Prefix
v6_block n bits = record { ip = v6 n []; bits_plus_one = bits + 1 }

-- 0.0.0.0/8, 127.0.0.0/8, 169.254.0.0/16, 224.0.0.0/4, 240.0.0.0/4, ::/128, ::1/128,
-- ::ffff:0:0/96, fe80::/10 and ff00::/8
unfoldable pub forbidden_blocks : List Prefix
forbidden_blocks =
    v4_block 0 8
    ∷ v4_block 0x7f000000 8
    ∷ v4_block 0xa9fe0000 16
    ∷ v4_block 0xe0000000 4
    ∷ v4_block 0xf0000000 4
    ∷ v6_block 0 128
    ∷ v6_block 1 128
    ∷ v6_block (0xffff * 2 ^ 32) 96
    ∷ v6_block (0xfe80 * 2 ^ 112) 10
    ∷ v6_block (0xff00 * 2 ^ 112) 8
    ∷ []

-- applicationPrefixAllowed
unfoldable pub application_prefix_allowed : Prefix → Bool
application_prefix_allowed prefix =
    not (not (is_valid_prefix prefix) || is_4_in_6 prefix.ip || prefix_bits prefix == 0)
    && not (any (overlaps prefix) forbidden_blocks)

-- applicationAddressAllowed
unfoldable pub application_address_allowed : Addr → Bool
application_address_allowed address =
    not (not (is_valid_addr address) || is_4_in_6 address)
    && application_prefix_allowed (host_prefix address)

-- ValidateApplicationAddress
unfoldable pub validate_application_address : Addr → Check Error
validate_application_address address =
    reject (not (application_address_allowed address)) app_address

module _ ⦃x : External⦄ where
  -- The text is that of a masked prefix that is allowed.
  abbrev pub is_canonical_prefix : Bytes → Prefix → Bool
  is_canonical_prefix text prefix =
      x.prefix_string (masked prefix) == text && application_prefix_allowed prefix

  abbrev pub cidr_target : Bytes → Option Prefix → Result Error ApplicationTarget
  cidr_target target none = err app_cidr
  cidr_target target (some prefix) =
      if is_canonical_prefix target prefix
      then ok (record { domain = []; prefix = prefix; tcp_port = 0 })
      else err app_cidr

  abbrev pub is_origin : Url → Bool
  is_origin u =
      (u.scheme == bytes "http" || u.scheme == bytes "https")
      && not u.has_user
      && (u.path == [] || u.path == bytes "/")
      && u.raw_query == []
      && u.fragment == []
      && valid_dns_domain u.hostname

  abbrev pub explicit_port : Option ℕ → Result Error ℕ
  explicit_port none = err app_url_port
  explicit_port (some port) = if port == 0 then err app_url_port else ok port

  abbrev pub url_port : Url → Result Error ℕ
  url_port u =
      if u.port == []
      then ok (if u.scheme == bytes "https" then 443 else 80)
      else explicit_port (parse_digits (2 ^ 16) u.port)

  abbrev pub url_target : Option Url → Result Error ApplicationTarget
  url_target none = err app_url
  url_target (some u) = do
    reject (not (is_origin u)) app_url
    port ← url_port u
    ok (record { domain = to_lower u.hostname; prefix = zero_prefix; tcp_port = port })

  -- ParseApplicationTarget
  unfoldable pub parse_application_target : Bytes → Bytes → Result Error ApplicationTarget
  parse_application_target kind target =
      if kind == bytes "cidr"
      then cidr_target target (x.parse_prefix target)
      else if kind == bytes "domain"
      then (if not (valid_dns_domain target)
            || contains_byte target b'*'
            || not (target == to_lower target)
          then err app_domain
          else ok (record { domain = target; prefix = zero_prefix; tcp_port = 0 }))
      else if kind == bytes "url"
      then url_target (x.parse_url target)
      else err app_target_type

-- A Go map of identities: a later entry replaces an earlier one, and a missing key reads "".
unfoldable pub identity_of : List (Bytes × Bytes) → Bytes → Bytes
identity_of [] id = []
identity_of ((k, v) ∷ entries) id = if k == id then v else identity_of entries id

abbrev pub add_peers : List (Bytes × Bytes) → List Peer → List (Bytes × Bytes)
add_peers entries [] = entries
add_peers entries (p ∷ ps) = add_peers ((p.id, p.public_key) ∷ entries) ps

-- The node's identity, then the peers', the last one in front.
unfoldable pub identities : NetworkMapSnapshot → List (Bytes × Bytes)
identities s = add_peers ((s.node.id, s.node.public_key) ∷ []) s.peers

abbrev pub host_beq : ServiceHost → ServiceHost → Bool
host_beq a b = a.node_id == b.node_id && a.public_key == b.public_key

-- The loop over node bindings, here and in validateServiceHosts, with the node IDs seen before.
unfoldable pub validate_bindings :
    Error → List (Bytes × Bytes) → List Bytes → List ServiceHost → Check Error
validate_bindings e known seen [] = ok tt
validate_bindings e known seen (binding ∷ bindings) = do
  reject
      (binding.node_id == []
        || binding.public_key == []
        || not (identity_of known binding.node_id == binding.public_key)
        || contains binding.node_id seen)
      e
  validate_bindings e known (binding.node_id ∷ seen) bindings

abbrev pub is_digest : Option Bytes → Bool
is_digest none = false
is_digest (some hash) = length hash == 32

module _ ⦃x : External⦄ where
  -- Whether the prefix overlaps one of the overlay networks.
  abbrev pub overlaps_text : Prefix → Bytes → Bool
  overlaps_text prefix text = elim (x.parse_prefix text) [
    | none ↦ false
    | some net ↦ overlaps prefix net
  ]

  abbrev pub exceeds_target : ApplicationTarget → Prefix → Bool
  exceeds_target target prefix =
      is_valid_prefix target.prefix && not (prefix_beq prefix target.prefix)
      || not (is_valid_prefix target.prefix) && not (prefix_bits prefix == bit_len prefix.ip)

  abbrev pub route_prefix : List Bytes → Bytes → Option Prefix → Result Error Prefix
  route_prefix seen text none = err app_route_destination
  route_prefix seen text (some prefix) =
      if is_canonical_prefix text prefix && not (contains text seen)
      then ok prefix
      else err app_route_destination

  -- The loop over a route's CIDRs.
  unfoldable pub validate_route_cidrs :
      NetworkMapSnapshot → ApplicationTarget → List Bytes → List Bytes → Check Error
  validate_route_cidrs s target seen [] = ok tt
  validate_route_cidrs s target seen (text ∷ texts) = do
    prefix ← route_prefix seen text (x.parse_prefix text)
    reject (overlaps_text prefix s.network.cidr || overlaps_text prefix s.network.ipv6_cidr)
        app_route_overlay
    reject (exceeds_target target prefix) app_route_scope
    validate_route_cidrs s target (text ∷ seen) texts

  -- The loop over an application's routes.
  unfoldable pub validate_routes :
      NetworkMapSnapshot
      → List ServiceHost
      → ApplicationTarget
      → List Bytes
      → List ApplicationRoute
      → Check Error
  validate_routes s connectors target seen [] = ok tt
  validate_routes s connectors target seen (route ∷ routes) = do
    reject
        (not (any (host_beq route.connector) connectors)
          || contains route.connector.node_id seen
          || is_zero route.expires_at
          || length route.cidrs == 0
          || ltb 64 (length route.cidrs))
        app_route_binding
    validate_route_cidrs s target [] route.cidrs
    validate_routes s connectors target (route.connector.node_id ∷ seen) routes

  -- The loop over the applications.
  unfoldable pub validate_application_binding : NetworkMapSnapshot → Application → Check Error
  validate_application_binding s app = do
    reject (not (is_digest (Hex.decode app.policy_hash))) app_policy_hash
    validate_bindings app_node_binding (identities s) [] app.sources
    validate_bindings app_node_binding (identities s) [] app.connectors
    target ← parse_application_target app.target_type app.target
    validate_routes s app.connectors target [] app.routes

  -- validateApplicationBindings
  unfoldable pub validate_application_bindings : NetworkMapSnapshot → Check Error
  validate_application_bindings s = for_each (validate_application_binding s) s.network.applications
