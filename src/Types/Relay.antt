-- ===== src/Types/Relay.antt =====
-- The relay protocol's endpoints and credentials: the fields that this program reads.
use client_api.Prelude.{Bytes}

pub record RelayEndpoint : Type 0 where
  pub id : Bytes
  pub addr : Bytes
  pub protocol : Bytes
  pub region : Bytes

pub record RelayCredential : Type 0 where
  pub algorithm : Bytes
  pub key_id : Bytes
  pub network_id : Bytes
  pub node_id : Bytes
  pub signature : Bytes
