-- ===== src/Types/Network.antt =====
-- types.go: the network with its catalogs (applications, services, DNS) and sharing.go's grants.
use client_api.Prelude.{Bytes, ℕ, Bool, Option, List}
use client_api.Types.Time.{Time}

pub record ServiceHost : Type 0 where
  pub node_id : Bytes
  pub public_key : Bytes

pub record ApplicationRoute : Type 0 where
  pub connector : ServiceHost
  pub cidrs : List Bytes
  pub expires_at : Time

pub record Application : Type 0 where
  pub id : Bytes
  pub name : Bytes
  pub target : Bytes
  pub target_type : Bytes
  pub dns_enabled : Bool
  pub policy_hash : Bytes
  pub sources : List ServiceHost
  pub connectors : List ServiceHost
  pub routes : List ApplicationRoute

pub record ServicePort : Type 0 where
  pub protocol : Bytes
  pub port : ℕ

pub record AdvertisedService : Type 0 where
  pub id : Bytes
  pub name : Bytes
  pub description : Bytes
  pub dns_name : Bytes
  pub ports : List ServicePort
  pub tags : List Bytes
  pub eligible_tags : List Bytes
  pub approval_mode : Bytes
  pub approval_status : Bytes
  pub health : Bytes
  pub hosts : List ServiceHost

pub record DnsNameserver : Type 0 where
  pub id : Bytes
  pub address : Bytes
  pub scope : Bytes
  pub priority : ℕ
  pub split_domains : List Bytes

pub record DnsConfig : Type 0 where
  pub magicdns_enabled : Bool
  pub https_certs_enabled : Bool
  pub override_local_dns : Bool
  pub suffix : Bytes
  pub nameservers : List DnsNameserver
  pub search_domains : List Bytes

pub record ShareTraffic : Type 0 where
  pub protocol : Bytes
  pub first_port : ℕ
  pub last_port : ℕ

pub record SharePeerGrant : Type 0 where
  pub grant_id : Bytes
  pub recipient_network_id : Bytes
  pub recipient_node_id : Bytes
  pub recipient_public_key : Bytes
  pub recipient_allowed_ips : List Bytes
  pub source_network_id : Bytes
  pub source_node_id : Bytes
  pub source_public_key : Bytes
  pub source_allowed_ips : List Bytes
  pub rights : List ShareTraffic
  pub initiation : Bytes
  pub revision : ℕ
  pub issued_at : Time
  pub expires_at : Time

pub record Network : Type 0 where
  pub id : Bytes
  pub name : Bytes
  pub cidr : Bytes
  pub ipv6_cidr : Bytes
  pub dns : List Bytes
  pub dns_config : Option DnsConfig
  pub applications : List Application
  pub services : List AdvertisedService
  pub share_peer_grants : List SharePeerGrant
  pub cell_id : Bytes
  pub authoritative_cell_id : Bytes
  pub migrating_to_cell_id : Bytes
  pub revision : ℕ
  pub owner_id : Bytes
  pub account_id : Bytes
  pub created_at : Time
