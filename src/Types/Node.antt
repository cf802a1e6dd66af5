-- ===== src/Types/Node.antt =====
-- types.go: nodes, peers and what a peer may reach.
use client_api.Prelude.{Bytes, ℕ, ℤ, Bool, Option, List}
use client_api.Types.Time.{Time}

pub record Node : Type 0 where
  pub id : Bytes
  pub network_id : Bytes
  pub user_id : Bytes
  pub hostname : Bytes
  pub identity_public_key : Bytes
  pub public_key : Bytes
  pub device_fingerprint : Bytes
  pub assigned_ip : Bytes
  pub assigned_ipv6 : Bytes
  pub endpoint : Bytes
  pub endpoint_generation : ℕ
  pub endpoint_candidates : List Bytes
  pub endpoint_expires_at : Option Time
  pub status : Bytes
  pub advertised_ips : List Bytes
  pub requested_tags : List Bytes
  pub tags : List Bytes
  pub approval_state : Bytes
  pub ephemeral : Bool
  pub key_expiry_enabled : Bool
  pub key_expires_at : Option Time
  pub created_at : Time
  pub updated_at : Time
  pub last_seen : Time

pub record AclPort : Type 0 where
  pub protocol : Bytes
  pub port : ℤ

pub record AclGrant : Type 0 where
  pub destination_cidrs : List Bytes
  pub allowed_ports : List AclPort

pub record Peer : Type 0 where
  pub id : Bytes
  pub network_id : Bytes
  pub hostname : Bytes
  pub public_key : Bytes
  pub endpoint : Bytes
  pub endpoint_generation : ℕ
  pub endpoint_candidates : List Bytes
  pub endpoint_expires_at : Option Time
  pub status : Bytes
  pub allowed_ips : List Bytes
  pub allowed_ports : List AclPort
  pub acl_restricted : Bool
  pub acl_grants : List AclGrant
  pub tags : List Bytes

pub record StunEndpoint : Type 0 where
  pub id : Bytes
  pub addr : Bytes
