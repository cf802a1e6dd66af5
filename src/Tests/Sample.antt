-- ===== src/Tests/Sample.antt =====
-- One network map with a peer under access grants, a shared peer and an application, with the
-- outside calls made concrete.
use client_api.Prelude.{
  Bytes, bytes, bytes_eq, ℕ, ◌+◌, ◌*◌, ◌/◌, ◌%◌, true, false, Option, none, some, List, [], ◌∷◌,
  ◌++◌, ◌==◌, pos, if◌then◌else◌, map,
}
use client_api.Go.Net.{itoa, cut_first}
use client_api.Go.Base64
use client_api.Go.Hex
use client_api.Go.Base64.{raw_url_encoding}
use client_api.Go.Netip.{Addr, unset, v4, v6, Prefix, prefix_bits}
use client_api.Types.Time.{minute, second}
use client_api.Types.Network.{Network, Application, ApplicationRoute, SharePeerGrant}
use client_api.Types.Node.{Node, Peer, AclGrant}
use client_api.Types.Keys.{SigningTrustKey, SigningTrustBundle, NodeCredentialClaims}
use client_api.Types.Map.{NetworkMapSnapshot, MapSignature, MapStreamEvent}
use client_api.External.{External, Url}

abbrev pub entry_of : {A : Type 0} → Bytes → List (Bytes × A) → Option A
entry_of t [] = none
entry_of t ((k, a) ∷ rest) = if k == t then some a else entry_of t rest

abbrev pub quad : ℕ → ℕ → ℕ → ℕ → Addr
quad a b c d = v4 (((a * 256 + b) * 256 + c) * 256 + d)

abbrev pub net : Addr → ℕ → Prefix
net a bits = record { ip = a; bits_plus_one = bits + 1 }

abbrev dotted : ℕ → Bytes
dotted n =
    itoa (n / 16777216)
    ++ bytes "."
    ++ itoa (n / 65536 % 256)
    ++ bytes "."
    ++ itoa (n / 256 % 256)
    ++ bytes "."
    ++ itoa (n % 256)

abbrev text_of : Addr → Bytes
text_of unset = []
text_of (v4 n) = dotted n
text_of (v6 n z) = []

-- A signing key of 32 bytes.
abbrev pub raw_key : Bytes
raw_key =
    7 ∷ 7 ∷ 7 ∷ 7 ∷ 7 ∷ 7 ∷ 7 ∷ 7 ∷ 7 ∷ 7 ∷ 7 ∷ 7 ∷ 7 ∷ 7 ∷ 7 ∷ 7 ∷ 7 ∷ 7 ∷ 7 ∷ 7 ∷ 7 ∷ 7 ∷ 7 ∷ 7
    ∷ 7 ∷ 7 ∷ 7 ∷ 7 ∷ 7 ∷ 7 ∷ 7 ∷ 7 ∷ []

-- The claims of a node credential by that key.
abbrev pub ticket_claims : NodeCredentialClaims
ticket_claims = record {
  version = pos 3;
  key_id = bytes "ed25519:" ++ Base64.encode raw_url_encoding (1 ∷ 2 ∷ 3 ∷ raw_key);
  algorithm = bytes "ed25519-node-credential-v3";
  network_id = bytes "net-1";
  node_id = bytes "n1";
  scopes = bytes "peer" ∷ bytes "relay" ∷ [];
  expires_at = 20 * minute;
  signature = Base64.encode raw_url_encoding (raw_key ++ raw_key);
}

-- Two lines stand for the JSON of claims.
abbrev pub claims_text : NodeCredentialClaims → Bytes
claims_text c = c.key_id ++ (10 ∷ c.signature)

abbrev pub ticket_text : Bytes
ticket_text = claims_text ticket_claims

-- What the text stands for: the ticket with the key ID and the signature of these two lines.
abbrev pub claims_between : Option (Bytes × Bytes) → Option (NodeCredentialClaims × Bytes)
claims_between none = none
claims_between (some (id, text)) = some (record ticket_claims { key_id = id; signature = text }, [])

abbrev https_url : Bytes → Url
https_url host = record {
  scheme = bytes "https";
  host = host;
  hostname = host;
  port = [];
  has_user = false;
  path = [];
  raw_query = [];
  fragment = [];
}

-- A checkpoint of the map stream, and the line that stands for its JSON.
abbrev pub checkpoint_event : MapStreamEvent
checkpoint_event = record {
  type = bytes "checkpoint";
  protocol_version = pos 3;
  capabilities =
      bytes "snapshot"
      ∷ bytes "signed-delta"
      ∷ bytes "checkpoint"
      ∷ bytes "resync"
      ∷ bytes "heartbeat"
      ∷ [];
  event_id = bytes "e7";
  from = record { network = 4; global = 9 };
  to = record { network = 4; global = 10 };
  base_hash = [];
  reason = [];
  snapshot = none;
  delta = none;
  result_signature = none;
}

abbrev pub checkpoint_text : Bytes
checkpoint_text = 123 ∷ 125 ∷ 10 ∷ []

instance abbrev pub outside : External
outside = record {
  parse_addr = λ t. entry_of t ((bytes "10.0.0.1", quad 10 0 0 1) ∷ []);
  parse_prefix = λ t. entry_of t (
      (bytes "10.0.0.0/24", net (quad 10 0 0 0) 24)
      ∷ (bytes "10.0.0.1/32", net (quad 10 0 0 1) 32)
      ∷ (bytes "10.0.0.2/32", net (quad 10 0 0 2) 32)
      ∷ (bytes "10.9.0.0/16", net (quad 10 9 0 0) 16)
      ∷ (bytes "10.9.4.0/24", net (quad 10 9 4 0) 24)
      ∷ (bytes "10.5.0.7/32", net (quad 10 5 0 7) 32)
      ∷ (bytes "192.168.7.0/24", net (quad 192 168 7 0) 24)
      ∷ []);
  addr_string = text_of;
  prefix_string = λ p. text_of p.ip ++ bytes "/" ++ itoa (prefix_bits p);
  parse_url = λ t. entry_of t (
      (bytes "https://a.example", https_url (bytes "a.example"))
      ∷ (bytes "https://b.example", https_url (bytes "b.example"))
      ∷ (
        bytes "http://127.0.0.1:8080",
        record (https_url (bytes "127.0.0.1")) { scheme = bytes "HTTP" },
      )
      ∷ (bytes "http://c.example", record (https_url (bytes "c.example")) { scheme = bytes "http" })
      ∷ []);
  request_formed = λ method url. true;
  is_loopback_ip = λ host. host == bytes "127.0.0.1";
  sha256 = λ m. 1 ∷ 2 ∷ 3 ∷ map (λ b. b % 256) m;
  ed25519_public = λ private_key. raw_key;
  ed25519_sign = λ private_key m. raw_key ++ raw_key;
  ed25519_verify = λ key m signature. signature == key ++ key;
  x25519_base = λ scalar. some scalar;
  marshal_map_payload = λ p. some p.key_id;
  marshal_credential_payload = λ p. some p.key_id;
  marshal_claims = λ c. some (claims_text c);
  decode_event = λ t. if t == checkpoint_text then some (checkpoint_event, []) else none;
  marshal_registration_proof = λ p. p.idempotency_id;
  decode_claims = λ t. claims_between (cut_first 10 t);
  at_eof = λ t. t == [];
  parse_duration = λ t. entry_of t ((bytes "5m0s", pos (5 * minute)) ∷ []);
  duration_string = λ d. bytes "5m0s";
  relays_valid = λ rs. true;
}

-- Its encoding and its ID.
abbrev pub key_text : Bytes
key_text = Base64.encode raw_url_encoding raw_key

abbrev pub key_name : Bytes
key_name = bytes "ed25519:" ++ Base64.encode raw_url_encoding (outside.sha256 raw_key)

abbrev pub trusted_key : SigningTrustKey
trusted_key = record {
  key_id = key_name;
  algorithm = bytes "ed25519";
  public_key = key_text;
  provider = [];
  provider_key = [];
  provider_version = pos 0;
  not_before = none;
  not_after = some (1000 * minute);
}

abbrev pub trust : SigningTrustBundle
trust = record { version = pos 1; active_key_id = key_name; keys = trusted_key ∷ [] }

-- WireGuard keys.
abbrev pub node_key : Bytes
node_key = bytes "AAAAAAAAAAAAAAAAAAAAAAAAAAAAAAAAAAAAAAAAAAA="

abbrev pub peer_key : Bytes
peer_key = bytes "AQAAAAAAAAAAAAAAAAAAAAAAAAAAAAAAAAAAAAAAAAA="

abbrev pub guest_key : Bytes
guest_key = bytes "AgAAAAAAAAAAAAAAAAAAAAAAAAAAAAAAAAAAAAAAAAA="

abbrev pub start : ℕ
start = 10 * minute

abbrev pub share : SharePeerGrant
share = record {
  grant_id = bytes "g1";
  recipient_network_id = bytes "net-1";
  recipient_node_id = bytes "n1";
  recipient_public_key = node_key;
  recipient_allowed_ips = bytes "10.0.0.1/32" ∷ [];
  source_network_id = bytes "net-2";
  source_node_id = bytes "guest";
  source_public_key = guest_key;
  source_allowed_ips = bytes "10.5.0.7/32" ∷ [];
  rights =
      record { protocol = bytes "tcp"; first_port = 22; last_port = 22 }
      ∷ record { protocol = bytes "tcp"; first_port = 80; last_port = 90 }
      ∷ [];
  initiation = bytes "recipient_only";
  revision = 1;
  issued_at = start;
  expires_at = start + minute;
}

abbrev pub route : ApplicationRoute
route = record {
  connector = record { node_id = bytes "n1"; public_key = node_key };
  cidrs = bytes "192.168.7.0/24" ∷ [];
  expires_at = start + minute;
}

abbrev pub wiki : Application
wiki = record {
  id = bytes "app-1";
  name = bytes "wiki";
  target = bytes "192.168.7.0/24";
  target_type = bytes "cidr";
  dns_enabled = false;
  policy_hash = bytes "00000000000000000000000000000000ffffffffffffffffffffffffffffffff";
  sources = record { node_id = bytes "p2"; public_key = peer_key } ∷ [];
  connectors = record { node_id = bytes "n1"; public_key = node_key } ∷ [];
  routes = route ∷ [];
}

abbrev pub network : Network
network = record {
  id = bytes "net-1";
  name = bytes "office";
  cidr = bytes "10.0.0.0/24";
  ipv6_cidr = [];
  dns = bytes "10.0.0.1" ∷ [];
  dns_config = none;
  applications = wiki ∷ [];
  services = [];
  share_peer_grants = share ∷ [];
  cell_id = [];
  authoritative_cell_id = [];
  migrating_to_cell_id = [];
  revision = 4;
  owner_id = bytes "u1";
  account_id = bytes "a1";
  created_at = start;
}

abbrev pub node : Node
node = record {
  id = bytes "n1";
  network_id = bytes "net-1";
  user_id = bytes "u1";
  hostname = bytes "host-1";
  identity_public_key = [];
  public_key = node_key;
  device_fingerprint = [];
  assigned_ip = bytes "10.0.0.1";
  assigned_ipv6 = [];
  endpoint = [];
  endpoint_generation = 0;
  endpoint_candidates = [];
  endpoint_expires_at = none;
  status = bytes "online";
  advertised_ips = [];
  requested_tags = [];
  tags = [];
  approval_state = [];
  ephemeral = false;
  key_expiry_enabled = false;
  key_expires_at = none;
  created_at = start;
  updated_at = start;
  last_seen = start;
}

abbrev pub acl_grant : AclGrant
acl_grant = record {
  destination_cidrs = bytes "10.9.4.0/24" ∷ [];
  allowed_ports = record { protocol = bytes "tcp"; port = pos 443 } ∷ [];
}

abbrev pub peer : Peer
peer = record {
  id = bytes "p2";
  network_id = bytes "net-1";
  hostname = bytes "db";
  public_key = peer_key;
  endpoint = [];
  endpoint_generation = 0;
  endpoint_candidates = [];
  endpoint_expires_at = none;
  status = [];
  allowed_ips = bytes "10.0.0.2/32" ∷ bytes "10.9.0.0/16" ∷ [];
  allowed_ports = [];
  acl_restricted = true;
  acl_grants = acl_grant ∷ [];
  tags = [];
}

abbrev pub guest : Peer
guest = record peer {
  id = bytes "guest";
  network_id = bytes "net-2";
  hostname = bytes "guest";
  public_key = guest_key;
  allowed_ips = bytes "10.5.0.7/32" ∷ [];
  acl_restricted = false;
  acl_grants = [];
}

abbrev pub signature : MapSignature
signature = record {
  version = pos 5;
  key_id = key_name;
  algorithm = bytes "ed25519-network-map-v5";
  issued_at = start;
  expires_at = start + minute;
  payload_hash = Hex.encode (outside.sha256 key_name);
  signature = Base64.encode raw_url_encoding (raw_key ++ raw_key);
}

abbrev pub office : NetworkMapSnapshot
office = record {
  revision = record { network = 4; global = 9 };
  network = network;
  node = node;
  peers = peer ∷ guest ∷ [];
  registration_binding = [];
  stun_endpoints = [];
  relays = [];
  relay_credential = none;
  map_signature = some signature;
}

abbrev pub now : ℕ
now = start + second
