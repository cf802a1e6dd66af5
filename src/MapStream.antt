-- ===== src/MapStream.antt =====
-- clientapi/v1/mapstream.go: applying the events of the map stream to the cached map; and, of
-- api.go, the validation of an event's shape.
pub mod Merge
pub mod Delta
pub mod Events
pub mod Stale
unfoldable pub use Merge.{normalized_id_set, merge}
use client_api.Prelude.{
  Bytes, bytes, bytes_eq, Bool, true, false, not, ◌&&◌, ◌||◌, Option, none, some, List, [], ◌∷◌,
  ◌==◌, nat_eq, Result, ok, err, ◌>>=◌, ◌>>◌, reject, Check, if◌then◌else◌,
}
use client_api.Go.Strings.{trim_space}
use client_api.Types.Time.{Time}
use client_api.Types.Relay.{RelayEndpoint, RelayCredential}
use client_api.Types.Network.{Network}
use client_api.Types.Node.{Node, Peer, StunEndpoint}
use client_api.Types.Map.{MapRevision, MapSignature, NetworkMapSnapshot, MapDelta, MapStreamEvent}
use client_api.Types.Keys.{SigningTrustBundle}
use client_api.External.{External}
use client_api.Trust.{resolve}
use client_api.NetworkMap.{validate_network_map_snapshot}
use client_api.MapSign.{required, verify_network_map_snapshot_signature_at}
use client_api.Errors.{
  Error, resync_required, unsupported_event, event_id_missing, unexpected_payload,
  snapshot_incomplete, result_signature_missing, delta_missing, base_hash_missing,
}

-- MapRevision.Equal
unfoldable pub revision_equal : MapRevision → MapRevision → Bool
revision_equal a b = a.network == b.network && a.global == b.global

abbrev pub is_some {ℓ} : {A : Type ℓ} → Option A → Bool
is_some none = false
is_some (some a) = true

abbrev pub is_complete : Option NetworkMapSnapshot → Bool
is_complete none = false
is_complete (some s) = not (trim_space s.network.id == []) && not (trim_space s.node.id == [])

-- MapStreamEvent.HasFullMap
unfoldable pub has_full_map : MapStreamEvent → Bool
has_full_map e = is_complete e.snapshot

-- The kinds of event that the client knows.
pub data Kind : Type 0 where
  heartbeat checkpoint snapshot resync delta : Kind

-- The switches on event.Type.
unfoldable pub kind_of : Bytes → Option Kind
kind_of t =
    if t == bytes "heartbeat"
    then some heartbeat
    else if t == bytes "checkpoint"
    then some checkpoint
    else if t == bytes "snapshot"
    then some snapshot
    else if t == bytes "resync"
    then some resync
    else if t == bytes "delta"
    then some delta
    else none

unfoldable pub validate_shape : MapStreamEvent → Option Kind → Check Error
validate_shape e none = err unsupported_event
validate_shape e (some heartbeat) =
    reject (is_some e.snapshot || is_some e.delta) unexpected_payload
validate_shape e (some checkpoint) =
    reject (is_some e.snapshot || is_some e.delta) unexpected_payload
validate_shape e (some snapshot) = do
  reject (not (has_full_map e)) snapshot_incomplete
  reject (is_some e.delta) unexpected_payload
  reject (not (is_some e.result_signature)) result_signature_missing
validate_shape e (some resync) = do
  reject (not (has_full_map e)) snapshot_incomplete
  reject (is_some e.delta) unexpected_payload
  reject (not (is_some e.result_signature)) result_signature_missing
validate_shape e (some delta) = do
  reject (not (is_some e.delta)) delta_missing
  reject (is_some e.snapshot) unexpected_payload
  reject (trim_space e.base_hash == []) base_hash_missing
  reject (not (is_some e.result_signature)) result_signature_missing

-- validateMapStreamEvent
unfoldable pub validate_map_stream_event : MapStreamEvent → Check Error
validate_map_stream_event e = do
  reject (trim_space e.event_id == []) event_id_missing
  validate_shape e (kind_of e.type)

abbrev hash_of : Option MapSignature → Bytes
hash_of none = []
hash_of (some g) = trim_space g.payload_hash

-- currentMapHash
unfoldable pub current_map_hash : NetworkMapSnapshot → Bytes
current_map_hash s = hash_of s.map_signature

abbrev pub or_else {ℓ} : {A : Type ℓ} → Option A → A → A
or_else none a = a
or_else (some b) a = b

abbrev pub or_keep {ℓ} : {A : Type ℓ} → Option A → Option A → Option A
or_keep none old = old
or_keep (some b) old = some b

-- mergePeers
unfoldable pub merge_peers : List Peer → List Peer → List Bytes → Result Error (List Peer)
merge_peers = merge (λ (p : Peer). p.id)

-- mergeRelays
unfoldable pub merge_relays :
    List RelayEndpoint → List RelayEndpoint → List Bytes → Result Error (List RelayEndpoint)
merge_relays = merge (λ (r : RelayEndpoint). r.id)

-- applyMapDelta. cloneNetworkMapSnapshot copies what the value points to, and is the identity on
-- values.
unfoldable pub apply_map_delta : NetworkMapSnapshot → MapDelta → Result Error NetworkMapSnapshot
apply_map_delta current d = do
  peers ← merge_peers current.peers d.peer_upserts d.peer_remove_ids
  relays ← merge_relays current.relays d.relay_upserts d.relay_remove_ids
  ok (record current {
    network = or_else d.network current.network;
    node = or_else d.node current.node;
    peers = peers;
    stun_endpoints = or_else d.stun_endpoints current.stun_endpoints;
    relays = relays;
    relay_credential = or_keep d.relay_credential current.relay_credential;
  })

-- The event's revision and signature on a reconstructed map.
abbrev pub stamp : MapStreamEvent → NetworkMapSnapshot → NetworkMapSnapshot
stamp e s = record s { revision = e.to; map_signature = e.result_signature }

abbrev same_hash : Option MapSignature → Option MapSignature → Bool
same_hash (some g) (some h) = g.payload_hash == h.payload_hash
same_hash _ _ = false

unfoldable pub is_already_applied : NetworkMapSnapshot → MapStreamEvent → Bool
is_already_applied current e =
    revision_equal current.revision e.to && same_hash current.map_signature e.result_signature

-- ApplyMapStreamEvent's results: a map, the current map beside ErrMapStreamEventAlreadyApplied, or
-- another error.
pub data Applied : Type 0 where
  replaced : NetworkMapSnapshot → Applied
  already_applied : NetworkMapSnapshot → Applied
  failed : Error → Applied

abbrev pub to_applied : Result Error NetworkMapSnapshot → Applied
to_applied (ok s) = replaced s
to_applied (err e) = failed e

module _ ⦃x : External⦄ where
  -- verifyMapStreamResult
  unfoldable pub verify_map_stream_result :
      SigningTrustBundle → Time → NetworkMapSnapshot → Result Error NetworkMapSnapshot
  verify_map_stream_result trust now s = do
    validate_network_map_snapshot s
    g ← required result_signature_missing s.map_signature
    key ← resolve trust g.key_id now
    verify_network_map_snapshot_signature_at s key.public_key now
    ok s

  unfoldable pub apply_checkpoint :
      NetworkMapSnapshot → MapStreamEvent → Result Error NetworkMapSnapshot
  apply_checkpoint current e = do
    reject (not (revision_equal current.revision e.to)) resync_required
    reject (not (e.base_hash == []) && not (e.base_hash == current_map_hash current))
        resync_required
    ok current

  -- A nil snapshot cannot reach this branch behind the validation; Go would panic on it.
  unfoldable pub apply_snapshot :
      MapStreamEvent
      → SigningTrustBundle
      → Time
      → Option NetworkMapSnapshot
      → Result Error NetworkMapSnapshot
  apply_snapshot e trust now none = err snapshot_incomplete
  apply_snapshot e trust now (some s) = verify_map_stream_result trust now (stamp e s)

  -- So for a nil delta.
  unfoldable pub apply_delta :
      NetworkMapSnapshot
      → MapStreamEvent
      → SigningTrustBundle
      → Time
      → Option MapDelta
      → Result Error NetworkMapSnapshot
  apply_delta current e trust now none = err delta_missing
  apply_delta current e trust now (some d) = do
    reject (not (revision_equal current.revision e.from)) resync_required
    reject (not (e.base_hash == current_map_hash current)) resync_required
    next ← apply_map_delta current d
    verify_map_stream_result trust now (stamp e next)

  unfoldable pub apply_kind :
      NetworkMapSnapshot
      → MapStreamEvent
      → SigningTrustBundle
      → Time
      → Option Kind
      → Result Error NetworkMapSnapshot
  apply_kind current e trust now none = err unsupported_event
  apply_kind current e trust now (some heartbeat) = apply_checkpoint current e
  apply_kind current e trust now (some checkpoint) = apply_checkpoint current e
  apply_kind current e trust now (some snapshot) = apply_snapshot e trust now e.snapshot
  apply_kind current e trust now (some resync) = apply_snapshot e trust now e.snapshot
  apply_kind current e trust now (some delta) = apply_delta current e trust now e.delta

  -- ApplyMapStreamEvent
  unfoldable pub apply_map_stream_event :
      NetworkMapSnapshot → MapStreamEvent → SigningTrustBundle → Time → Applied
  apply_map_stream_event current e trust now = elim (validate_map_stream_event e) [
    | err problem ↦ failed problem
    | ok _ ↦
        if is_already_applied current e
        then already_applied current
        else to_applied (apply_kind current e trust now (kind_of e.type))
  ]
