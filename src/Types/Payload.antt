-- ===== src/Types/Payload.antt =====
-- mapsign.go: what the signature of a network map covers; registration.go: what the proof of a
-- device identity covers.
use client_api.Prelude.{Bytes, ℕ, ℤ, List}
use client_api.Types.Time.{Time}
use client_api.Types.Network.{Network}
use client_api.Types.Node.{Node, Peer, StunEndpoint}
use client_api.Types.Map.{MapRevision}
use client_api.Types.Relay.{RelayEndpoint}

pub record NetworkMapSigningPayload : Type 0 where
  pub schema : ℤ
  pub key_id : Bytes
  pub issued_at : Time
  pub expires_at : Time
  pub revision : MapRevision
  pub registration_binding : Bytes
  pub network : Network
  pub node : Node
  pub peers : List Peer
  pub stun_endpoints : List StunEndpoint
  pub relays : List RelayEndpoint

pub record RegistrationProof : Type 0 where
  pub schema_version : ℤ
  pub proof : Bytes
  pub idempotency_id : Bytes
  pub network_id : Bytes
  pub network_name : Bytes
  pub account_id : Bytes
  pub cell_id : Bytes
  pub join_token_binding : Bytes
  pub node_credential_binding : Bytes
  pub registration_binding : Bytes
  pub session_token_binding : Bytes
  pub hostname : Bytes
  pub client_version : Bytes
  pub identity_public_key : Bytes
  pub public_key : Bytes
  pub device_fingerprint : Bytes
  pub endpoint : Bytes
  pub generation : ℕ
  pub candidates : List Bytes
  pub ttl : Bytes
  pub advertised_ips : List Bytes
  pub tags : List Bytes
