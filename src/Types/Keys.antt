-- ===== src/Types/Keys.antt =====
-- signing_trust.go and types.go: signing keys that a client trusts. nodecredential.go: the claims of
-- a node credential.
use client_api.Prelude.{Bytes, ℤ, Option, List}
use client_api.Types.Time.{Time}

pub record SigningTrustKey : Type 0 where
  pub key_id : Bytes
  pub algorithm : Bytes
  pub public_key : Bytes
  pub provider : Bytes
  pub provider_key : Bytes
  pub provider_version : ℤ
  pub not_before : Option Time
  pub not_after : Option Time

pub record SigningTrustBundle : Type 0 where
  pub version : ℤ
  pub active_key_id : Bytes
  pub keys : List SigningTrustKey

pub record ServerKeyResponse : Type 0 where
  pub trust_bundle : SigningTrustBundle
  pub node_credential_trust_bundle : SigningTrustBundle
  pub relay_trust_bundle : SigningTrustBundle

pub record NodeCredentialClaims : Type 0 where
  pub version : ℤ
  pub key_id : Bytes
  pub algorithm : Bytes
  pub network_id : Bytes
  pub node_id : Bytes
  pub scopes : List Bytes
  pub expires_at : Time
  pub signature : Bytes

pub record NodeCredentialPayload : Type 0 where
  pub schema : ℤ
  pub key_id : Bytes
  pub network_id : Bytes
  pub node_id : Bytes
  pub scopes : List Bytes
  pub expires_at : Time
