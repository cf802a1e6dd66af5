-- ===== src/Credential.antt =====
-- clientapi/v1/nodecredential.go: signed node credentials.
pub mod Scopes
pub mod Laws
pub mod Signing
use client_api.Prelude.{
  Bytes, bytes, bytes_eq, ℕ, Bool, not, ◌&&◌, ◌||◌, Option, none, some, List, [], ◌++◌, ◌==◌,
  nat_eq, length, ℤ, pos, int_eq, contains, Result, ok, err, ◌>>=◌, ◌>>◌, reject, is_ok,
}
use client_api.Go.Strings.{trim_space, has_prefix, trim_prefix}
use client_api.Go.Base64
use client_api.Go.Base64.{raw_url_encoding}
use client_api.Go.Sort.{sort}
use client_api.Go.Sort.Texts.{bytes_lt}
use client_api.Types.Time.{Time, before}
use client_api.Types.Keys.{NodeCredentialClaims, NodeCredentialPayload, SigningTrustBundle}
use client_api.External.{External}
use client_api.Cleaning.{clean_strings}
use client_api.Trust.{signing_key_id, public_key_size, resolve}
use client_api.MapSign.{required, sized, signature_size, private_key_size}
use client_api.Errors.{
  Error, credential_private_key, credential_public_key, credential_provider_missing,
  provider_failed, provider_signature, marshal_failed, credential_format, credential_encoding,
  credential_payload, credential_algorithm, credential_version, credential_key_id_missing,
  credential_identity, credential_expired, credential_scope, credential_trust_anchor,
  credential_key_mismatch, credential_signature, credential_verification, credential_scopes_missing,
}

abbrev pub node_credential_version : ℤ
node_credential_version = pos 3

abbrev pub node_credential_algorithm : Bytes
node_credential_algorithm = bytes "ed25519-node-credential-v3"

abbrev pub node_credential_prefix : Bytes
node_credential_prefix = bytes "enc_"

-- cleanCredentialScopes
unfoldable pub clean_credential_scopes : List Bytes → List Bytes
clean_credential_scopes scopes = sort bytes_lt (clean_strings scopes)

-- CredentialHasScope
unfoldable pub credential_has_scope : List Bytes → Bytes → Bool
credential_has_scope scopes scope = contains (trim_space scope) scopes

abbrev pub payload_of : Bytes → Bytes → Bytes → List Bytes → Time → NodeCredentialPayload
payload_of key_id network_id node_id clean_scopes expires_at = record {
  schema = node_credential_version;
  key_id = trim_space key_id;
  network_id = trim_space network_id;
  node_id = trim_space node_id;
  scopes = clean_scopes;
  expires_at = expires_at;
}

abbrev pub claims_of : Bytes → Bytes → Bytes → List Bytes → Time → Bytes → NodeCredentialClaims
claims_of key_id network_id node_id scopes expires_at signature = record {
  version = node_credential_version;
  key_id = key_id;
  algorithm = node_credential_algorithm;
  network_id = trim_space network_id;
  node_id = trim_space node_id;
  scopes = clean_credential_scopes scopes;
  expires_at = expires_at;
  signature = signature;
}

module _ ⦃x : External⦄ where
  -- nodeCredentialSigningPayload
  unfoldable pub node_credential_signing_payload :
      Bytes → Bytes → Bytes → List Bytes → Time → Result Error Bytes
  node_credential_signing_payload key_id network_id node_id scopes expires_at = do
    reject (trim_space key_id == []) credential_key_id_missing
    reject (trim_space network_id == [] || trim_space node_id == []) credential_identity
    let clean_scopes = clean_credential_scopes scopes
    reject (length clean_scopes == 0) credential_scopes_missing
    required marshal_failed (
        x.marshal_credential_payload (payload_of key_id network_id node_id clean_scopes expires_at))

  -- SignNodeCredentialWithProvider
  unfoldable pub sign_node_credential_with_provider :
      Bytes → Bytes → Bytes → List Bytes → Time → Option (Bytes → Option Bytes) → Result Error Bytes
  sign_node_credential_with_provider public_key network_id node_id scopes expires_at signer = do
    reject (not (length public_key == public_key_size)) credential_public_key
    sign ← required credential_provider_missing signer
    key_id ← signing_key_id (Base64.encode raw_url_encoding public_key)
    payload ← node_credential_signing_payload key_id network_id node_id scopes expires_at
    signature ← required provider_failed (sign payload)
    reject (not (length signature == signature_size)) provider_signature
    raw ← required marshal_failed (
        x.marshal_claims (
          claims_of key_id network_id node_id scopes expires_at
            (Base64.encode raw_url_encoding signature)))
    ok (node_credential_prefix ++ Base64.encode raw_url_encoding raw)

  -- SignNodeCredential
  unfoldable pub sign_node_credential :
      Bytes → Bytes → Bytes → List Bytes → Time → Result Error Bytes
  sign_node_credential private_key network_id node_id scopes expires_at = do
    reject (not (length private_key == private_key_size)) credential_private_key
    sign_node_credential_with_provider (x.ed25519_public private_key) network_id node_id scopes
        expires_at (some (λ payload. some (x.ed25519_sign private_key payload)))

  -- DecodeNodeCredential
  unfoldable pub decode_node_credential : Bytes → Result Error NodeCredentialClaims
  decode_node_credential credential = do
    let encoded = trim_space credential
    reject (not (has_prefix encoded node_credential_prefix)) credential_format
    raw ←
        required credential_encoding
          (Base64.decode raw_url_encoding (trim_prefix encoded node_credential_prefix))
    (claims, rest) ← required credential_payload (x.decode_claims raw)
    reject (not (x.at_eof rest)) credential_payload
    reject (not (claims.algorithm == node_credential_algorithm)) credential_algorithm
    reject (not (claims.version == node_credential_version)) credential_version
    reject (trim_space claims.key_id == []) credential_key_id_missing
    ok claims

  -- The checks of ValidateNodeCredential behind the decoding.
  unfoldable pub validate_claims :
      NodeCredentialClaims → Bytes → Bytes → Time → Result Error NodeCredentialClaims
  validate_claims claims trusted_public_key required_scope now = do
    reject (trim_space claims.network_id == [] || trim_space claims.node_id == [])
        credential_identity
    reject (not (before now claims.expires_at)) credential_expired
    let scope = trim_space required_scope
    reject (not (scope == []) && not (credential_has_scope claims.scopes scope)) credential_scope
    let public_key = trim_space trusted_public_key
    reject (public_key == []) credential_trust_anchor
    key_id ← signing_key_id public_key
    reject (not (claims.key_id == key_id)) credential_key_mismatch
    key ← sized credential_public_key public_key_size (Base64.decode raw_url_encoding public_key)
    signature ←
        sized credential_signature signature_size (Base64.decode raw_url_encoding claims.signature)
    payload ←
        node_credential_signing_payload claims.key_id claims.network_id claims.node_id claims.scopes
          claims.expires_at
    reject (not (x.ed25519_verify key payload signature)) credential_verification
    ok claims

  -- ValidateNodeCredential
  unfoldable pub validate_node_credential :
      Bytes → Bytes → Bytes → Time → Result Error NodeCredentialClaims
  validate_node_credential credential trusted_public_key required_scope now = do
    claims ← decode_node_credential credential
    validate_claims claims trusted_public_key required_scope now

  -- VerifyNodeCredentialWithTrustBundle
  unfoldable pub verify_node_credential_with_trust_bundle :
      Bytes → SigningTrustBundle → Bytes → Time → Result Error NodeCredentialClaims
  verify_node_credential_with_trust_bundle credential trust required_scope now = do
    claims ← decode_node_credential credential
    key ← resolve trust claims.key_id now
    validate_node_credential credential key.public_key required_scope now

  -- IsSignedNodeCredential
  unfoldable pub is_signed_node_credential : Bytes → Bool
  is_signed_node_credential credential = is_ok (decode_node_credential credential)
