-- ===== src/Types/Map.antt =====
-- types.go: the signed network map, its revisions, and the events of the map stream.
use client_api.Prelude.{Bytes, ℕ, ℤ, Option, List}
use client_api.Types.Time.{Time}
use client_api.Types.Network.{Network}
use client_api.Types.Node.{Node, Peer, StunEndpoint}
use client_api.Types.Relay.{RelayEndpoint, RelayCredential}

pub record MapRevision : Type 0 where
  pub network : ℕ
  pub global : ℕ

pub record MapSignature : Type 0 where
  pub version : ℤ
  pub key_id : Bytes
  pub algorithm : Bytes
  pub issued_at : Time
  pub expires_at : Time
  pub payload_hash : Bytes
  pub signature : Bytes

pub record NetworkMapSnapshot : Type 0 where
  pub revision : MapRevision
  pub network : Network
  pub node : Node
  pub peers : List Peer
  pub registration_binding : Bytes
  pub stun_endpoints : List StunEndpoint
  pub relays : List RelayEndpoint
  pub relay_credential : Option RelayCredential
  pub map_signature : Option MapSignature

pub record RegisterNodeResponse : Type 0 where
  pub schema_version : ℤ
  pub idempotency_id : Bytes
  pub revision : MapRevision
  pub network : Network
  pub node : Node
  pub peers : List Peer
  pub registration_binding : Bytes
  pub node_credential : Bytes
  pub stun_endpoints : List StunEndpoint
  pub relays : List RelayEndpoint
  pub relay_credential : Option RelayCredential
  pub map_signature : Option MapSignature

-- RegisterNodeResponse.Snapshot
unfoldable pub snapshot_of : RegisterNodeResponse → NetworkMapSnapshot
snapshot_of r = record {
  revision = r.revision;
  network = r.network;
  node = r.node;
  peers = r.peers;
  registration_binding = r.registration_binding;
  stun_endpoints = r.stun_endpoints;
  relays = r.relays;
  relay_credential = r.relay_credential;
  map_signature = r.map_signature;
}

pub record MapCursor : Type 0 where
  pub revision : MapRevision
  pub map_hash : Bytes

pub record MapDelta : Type 0 where
  pub network : Option Network
  pub node : Option Node
  pub peer_upserts : List Peer
  pub peer_remove_ids : List Bytes
  pub stun_endpoints : Option (List StunEndpoint)
  pub relay_upserts : List RelayEndpoint
  pub relay_remove_ids : List Bytes
  pub relay_credential : Option RelayCredential

pub record MapStreamEvent : Type 0 where
  pub type : Bytes
  pub protocol_version : ℤ
  pub capabilities : List Bytes
  pub event_id : Bytes
  pub from : MapRevision
  pub to : MapRevision
  pub base_hash : Bytes
  pub reason : Bytes
  pub snapshot : Option NetworkMapSnapshot
  pub delta : Option MapDelta
  pub result_signature : Option MapSignature
