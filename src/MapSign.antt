-- ===== src/MapSign.antt =====
-- clientapi/v1/mapsign.go: signing the network map and verifying its signature.
pub mod Canonical
pub mod Laws
use client_api.Prelude.{
  Bytes, bytes, bytes_eq, ℕ, Bool, true, false, not, ◌||◌, ◌&&◌, ◌+◌, ◌*◌, Option, none, some, [],
  ◌==◌, nat_eq, ltb, length, ℤ, pos, int_eq, Result, ok, err, ◌>>=◌, ◌>>◌, reject, Check,
  if◌then◌else◌,
}
use client_api.Go.Strings.{trim_space}
use client_api.Go.Base64
use client_api.Go.Base64.{raw_url_encoding}
use client_api.Go.Hex
use client_api.Go.Sort.{sort}
use client_api.Go.Sort.Texts.{bytes_lt}
use client_api.Types.Time.{Time, is_zero, before, after, minute, hour, truncate_second}
use client_api.Types.Relay.{RelayEndpoint}
use client_api.Types.Node.{Peer, StunEndpoint}
use client_api.Types.Map.{NetworkMapSnapshot, MapSignature, RegisterNodeResponse, snapshot_of}
use client_api.Types.Payload.{NetworkMapSigningPayload}
use client_api.Types.Keys.{SigningTrustBundle}
use client_api.External.{External}
use client_api.Trust.{signing_key_id, public_key_size, resolve}
use client_api.Sharing.{validate_share_peer_grants_at}
use client_api.Errors.{
  Error, signing_private_key, signing_public_key, signing_provider_missing, ttl_not_positive,
  provider_failed, provider_signature, signature_missing, signature_version, signature_algorithm,
  trust_anchor_missing, signing_key_id_mismatch, verify_public_key, signature_encoding,
  issued_at_missing, expires_at_missing, expires_before_issued, not_yet_valid, signature_expired,
  payload_hash_mismatch, verification_failed, payload_key_id_missing, marshal_failed,
}

abbrev pub map_signature_version : ℤ
map_signature_version = pos 5

abbrev pub map_signature_algorithm : Bytes
map_signature_algorithm = bytes "ed25519-network-map-v5"

abbrev pub default_network_map_signature_ttl : ℕ
default_network_map_signature_ttl = 24 * hour

abbrev pub max_network_map_signature_clock_skew : ℕ
max_network_map_signature_clock_skew = 5 * minute

-- ed25519.SignatureSize
abbrev pub signature_size : ℕ
signature_size = 64

-- ed25519.PrivateKeySize
abbrev pub private_key_size : ℕ
private_key_size = 64

-- By ID, then by the second text.
abbrev pub pair_lt : Bytes → Bytes → Bytes → Bytes → Bool
pair_lt id second id' second' = if id == id' then bytes_lt second second' else bytes_lt id id'

unfoldable pub peer_lt : Peer → Peer → Bool
peer_lt a b = pair_lt a.id a.hostname b.id b.hostname

unfoldable pub relay_lt : RelayEndpoint → RelayEndpoint → Bool
relay_lt a b = pair_lt a.id a.addr b.id b.addr

unfoldable pub stun_lt : StunEndpoint → StunEndpoint → Bool
stun_lt a b = pair_lt a.id a.addr b.id b.addr

-- The payload of canonicalNetworkMapPayload, before it is marshalled.
unfoldable pub signing_payload : NetworkMapSnapshot → Bytes → Time → Time → NetworkMapSigningPayload
signing_payload s key_id issued_at expires_at = record {
  schema = map_signature_version;
  key_id = trim_space key_id;
  issued_at = issued_at;
  expires_at = expires_at;
  revision = s.revision;
  registration_binding = trim_space s.registration_binding;
  network = s.network;
  node = s.node;
  peers = sort peer_lt s.peers;
  stun_endpoints = sort stun_lt s.stun_endpoints;
  relays = sort relay_lt s.relays;
}

-- What a fallible call returns, with its error.
abbrev pub required {ℓ} : {A : Type ℓ} → Error → Option A → Result Error A
required e none = err e
required e (some a) = ok a

-- The decoded text has the wanted size.
abbrev pub sized : Error → ℕ → Option Bytes → Result Error Bytes
sized e size none = err e
sized e size (some raw) = if length raw == size then ok raw else err e

-- The checks of the signature's times.
unfoldable pub check_times : MapSignature → Time → Check Error
check_times g now = do
  reject (is_zero g.issued_at) issued_at_missing
  reject (is_zero g.expires_at) expires_at_missing
  reject (not (after g.expires_at g.issued_at)) expires_before_issued
  reject (after g.issued_at (now + max_network_map_signature_clock_skew)) not_yet_valid
  reject (not (before now g.expires_at)) signature_expired

module _ ⦃x : External⦄ where
  -- canonicalNetworkMapPayload
  unfoldable pub canonical_network_map_payload :
      NetworkMapSnapshot → Bytes → Time → Time → Result Error Bytes
  canonical_network_map_payload s key_id issued_at expires_at = do
    reject (trim_space key_id == []) payload_key_id_missing
    required marshal_failed (x.marshal_map_payload (signing_payload s key_id issued_at expires_at))

  -- SignNetworkMapSnapshotWithProvider. The signer may be nil, and may fail; a time to live below
  -- one nanosecond is 0 here.
  unfoldable pub sign_network_map_snapshot_with_provider :
      Bytes
      → NetworkMapSnapshot
      → Time
      → ℕ
      → Option (Bytes → Option Bytes)
      → Result Error MapSignature
  sign_network_map_snapshot_with_provider public_key s at ttl signer = do
    reject (not (length public_key == public_key_size)) signing_public_key
    sign ← required signing_provider_missing signer
    reject (ttl == 0) ttl_not_positive
    let issued_at = truncate_second at
    let expires_at = issued_at + ttl
    key_id ← signing_key_id (Base64.encode raw_url_encoding public_key)
    payload ← canonical_network_map_payload s key_id issued_at expires_at
    signature ← required provider_failed (sign payload)
    reject (not (length signature == signature_size)) provider_signature
    ok (record {
      version = map_signature_version;
      key_id = key_id;
      algorithm = map_signature_algorithm;
      issued_at = issued_at;
      expires_at = expires_at;
      payload_hash = Hex.encode (x.sha256 payload);
      signature = Base64.encode raw_url_encoding signature;
    })

  -- SignNetworkMapSnapshotAt
  unfoldable pub sign_network_map_snapshot_at :
      Bytes → NetworkMapSnapshot → Time → ℕ → Result Error MapSignature
  sign_network_map_snapshot_at private_key s at ttl = do
    reject (not (length private_key == private_key_size)) signing_private_key
    sign_network_map_snapshot_with_provider (x.ed25519_public private_key) s at ttl
        (some (λ payload. some (x.ed25519_sign private_key payload)))

  -- SignNetworkMapSnapshot, at the time that the source takes from the clock.
  unfoldable pub sign_network_map_snapshot :
      Bytes → NetworkMapSnapshot → Time → Result Error MapSignature
  sign_network_map_snapshot private_key s now =
      sign_network_map_snapshot_at private_key s now default_network_map_signature_ttl

  -- The checks of the key and of the signature's own fields: the raw key and the raw signature.
  unfoldable pub check_key : MapSignature → Bytes → Result Error (Bytes × Bytes)
  check_key g public_key = do
    reject (public_key == []) trust_anchor_missing
    key_id ← signing_key_id public_key
    reject (trim_space g.key_id == [] || not (g.key_id == key_id)) signing_key_id_mismatch
    key ← sized verify_public_key public_key_size (Base64.decode raw_url_encoding public_key)
    signature ← sized signature_encoding signature_size (Base64.decode raw_url_encoding g.signature)
    ok (key, signature)

  unfoldable pub verify_signature : NetworkMapSnapshot → MapSignature → Bytes → Time → Check Error
  verify_signature s g expected_public_key now = do
    reject (not (g.version == map_signature_version)) signature_version
    reject (not (g.algorithm == map_signature_algorithm)) signature_algorithm
    (key, signature) ← check_key g (trim_space expected_public_key)
    check_times g now
    payload ← canonical_network_map_payload s g.key_id g.issued_at g.expires_at
    reject (not (g.payload_hash == Hex.encode (x.sha256 payload))) payload_hash_mismatch
    reject (not (x.ed25519_verify key payload signature)) verification_failed
    validate_share_peer_grants_at s now

  -- VerifyNetworkMapSnapshotSignatureAt
  unfoldable pub verify_network_map_snapshot_signature_at :
      NetworkMapSnapshot → Bytes → Time → Check Error
  verify_network_map_snapshot_signature_at s expected_public_key now = do
    g ← required signature_missing s.map_signature
    verify_signature s g expected_public_key now

  -- VerifyNetworkMapSnapshotSignatureWithTrustBundle, at the time that the source takes from the
  -- clock.
  unfoldable pub verify_network_map_snapshot_signature_with_trust_bundle :
      NetworkMapSnapshot → SigningTrustBundle → Time → Check Error
  verify_network_map_snapshot_signature_with_trust_bundle s trust now = do
    g ← required signature_missing s.map_signature
    key ← resolve trust g.key_id now
    verify_network_map_snapshot_signature_at s key.public_key now

  -- SignNetworkMapAt
  unfoldable pub sign_network_map_at :
      Bytes → RegisterNodeResponse → Time → ℕ → Result Error MapSignature
  sign_network_map_at private_key r at ttl =
      sign_network_map_snapshot_at private_key (snapshot_of r) at ttl

  -- SignNetworkMap, at the time that the source takes from the clock.
  unfoldable pub sign_network_map : Bytes → RegisterNodeResponse → Time → Result Error MapSignature
  sign_network_map private_key r now = sign_network_map_snapshot private_key (snapshot_of r) now

  -- SignNetworkMapWithProvider
  unfoldable pub sign_network_map_with_provider :
      Bytes
      → RegisterNodeResponse
      → Time
      → ℕ
      → Option (Bytes → Option Bytes)
      → Result Error MapSignature
  sign_network_map_with_provider public_key r at ttl signer =
      sign_network_map_snapshot_with_provider public_key (snapshot_of r) at ttl signer

  -- VerifyNetworkMapSignatureWithTrustBundle
  unfoldable pub verify_network_map_signature_with_trust_bundle :
      RegisterNodeResponse → SigningTrustBundle → Time → Check Error
  verify_network_map_signature_with_trust_bundle r trust now =
      verify_network_map_snapshot_signature_with_trust_bundle (snapshot_of r) trust now

  -- VerifyNetworkMapSignatureAt
  unfoldable pub verify_network_map_signature_at : RegisterNodeResponse → Bytes → Time → Check Error
  verify_network_map_signature_at r expected_public_key now =
      verify_network_map_snapshot_signature_at (snapshot_of r) expected_public_key now
