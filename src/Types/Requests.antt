-- ===== src/Types/Requests.antt =====
-- types.go: the requests of the client and the results of enrollment.
use client_api.Prelude.{Bytes, ℕ, ℤ, Bool, Option, List}
use client_api.Types.Time.{Time}
use client_api.Types.Map.{RegisterNodeResponse}

pub record CreateNetworkRequest : Type 0 where
  pub name : Bytes
  pub cidr : Bytes
  pub ipv6_cidr : Bytes
  pub dns : List Bytes
  pub cell_id : Bytes
  pub account_id : Bytes
  pub idempotency_key : Bytes

pub record CreateJoinTokenRequest : Type 0 where
  pub network_id : Bytes
  pub network_name : Bytes
  pub account_id : Bytes
  pub ttl : Bytes
  pub reusable : Bool
  pub ephemeral : Bool
  pub preauthorized : Bool
  pub tags : List Bytes
  pub idempotency_key : Bytes

pub record CreateJoinTokenResponse : Type 0 where
  pub id : Bytes
  pub token : Bytes
  pub account_id : Bytes
  pub network_id : Bytes
  pub network_name : Bytes
  pub reusable : Bool
  pub ephemeral : Bool
  pub preauthorized : Bool
  pub tags : List Bytes
  pub expires_at : Time

pub record RegisterNodeRequest : Type 0 where
  pub schema_version : ℤ
  pub idempotency_id : Bytes
  pub network_id : Bytes
  pub network_name : Bytes
  pub account_id : Bytes
  pub cell_id : Bytes
  pub join_token : Bytes
  pub node_credential : Bytes
  pub registration_binding : Bytes
  pub session_token_binding : Bytes
  pub hostname : Bytes
  pub client_version : Bytes
  pub identity_public_key : Bytes
  pub identity_signature : Bytes
  pub public_key : Bytes
  pub device_fingerprint : Bytes
  pub endpoint : Bytes
  pub generation : ℕ
  pub candidates : List Bytes
  pub ttl : Bytes
  pub advertised_ips : List Bytes
  pub tags : List Bytes

pub record NodeEnrollmentRequest : Type 0 where
  pub id : Bytes
  pub status : Bytes
  pub account_id : Bytes
  pub network_id : Bytes
  pub network_name : Bytes
  pub hostname : Bytes
  pub public_key : Bytes
  pub identity_public_key : Bytes
  pub device_fingerprint : Bytes
  pub tags : List Bytes
  pub approval_url : Bytes
  pub approved_by_user_id : Bytes
  pub rejected_by_user_id : Bytes
  pub rejection_reason : Bytes
  pub node_id : Bytes
  pub created_at : Time
  pub expires_at : Time
  pub approved_at : Option Time
  pub rejected_at : Option Time
  pub completed_at : Option Time

pub record CreateNodeEnrollmentRequestResponse : Type 0 where
  pub request : NodeEnrollmentRequest
  pub poll_token : Bytes
  pub poll_after_seconds : ℤ

pub record NodeEnrollmentRequestStatusResponse : Type 0 where
  pub request : NodeEnrollmentRequest
  pub poll_after_seconds : ℤ

pub record CompleteNodeEnrollmentRequestResponse : Type 0 where
  pub request : NodeEnrollmentRequest
  pub registration : Option RegisterNodeResponse

pub record UpdateNodeEndpointRequest : Type 0 where
  pub endpoint : Bytes
  pub generation : ℕ
  pub candidates : List Bytes
  pub ttl : Bytes
  pub status : Bytes
  pub client_version : Bytes
