-- ===== src/Registration.antt =====
-- clientapi/v1/registration.go: the proof of a device identity, and the validation of registration
-- requests and of their results.
pub mod Proof
pub mod Laws
pub mod Answer
use client_api.Prelude.{
  Bytes, bytes, bytes_eq, ℕ, ◌*◌, Bool, true, false, not, ◌&&◌, ◌||◌, Option, none, some, List, [],
  ◌∷◌, ◌++◌, ◌==◌, nat_eq, length, ltb, ltb_ℤ, ℤ, pos, int_eq, Result, ok, err, ◌>>=◌, ◌>>◌, reject,
  Check, for_each, if◌then◌else◌,
}
use client_api.Go.Strings.{trim_space}
use client_api.Go.Base64
use client_api.Go.Base64.{raw_url_encoding, raw_url_strict}
use client_api.Types.Time.{hour}
use client_api.Types.Payload.{RegistrationProof}
use client_api.Types.Map.{RegisterNodeResponse}
use client_api.Types.Requests.{RegisterNodeRequest}
use client_api.External.{External}
use client_api.Fields.{
  max_identifier_bytes, validate_identifier, validate_safe_string, validate_opaque_credential,
  validate_digest, decode_identity_public_key, identity_public_key_prefix,
}
use client_api.Wireguard.{
  validate_hostname, validate_public_key, validate_endpoint, validate_prefix,
}
use client_api.PublicError.{schema_version}
use client_api.MapSign.{private_key_size, signature_size}
use client_api.MapStream.{is_some}
use client_api.NetworkMap.{validate_network_map}
use client_api.Credential.{decode_node_credential}
use client_api.Errors.{
  Error, request_schema_version, network_missing, fingerprint_missing, too_many_candidates,
  endpoint_ttl, too_many_advertised_ips, too_many_tags, renewal_network_missing,
  mixed_authorization, binding_without_renewal, authorization_missing, identity_private_key,
  identity_signature, response_schema_version, node_credential_missing,
  credential_identity_mismatch, map_signature_missing, idempotency_mismatch, binding_mismatch,
  network_mismatch, node_mismatch,
}

abbrev pub registration_proof_domain : Bytes
registration_proof_domain = bytes "endlessnet-register-identity-v3"

abbrev pub max_safe_field_bytes : ℕ
max_safe_field_bytes = 1024

abbrev pub max_endpoint_candidates : ℕ
max_endpoint_candidates = 32

abbrev pub max_advertised_ips : ℕ
max_advertised_ips = 256

abbrev pub max_tags : ℕ
max_tags = 256

abbrev pub max_endpoint_ttl : ℤ
max_endpoint_ttl = pos (24 * hour)

-- IsCredentialRenewal
unfoldable pub is_credential_renewal : RegisterNodeRequest → Bool
is_credential_renewal r = not (r.node_credential == [])

-- Validate: the two branches on IsCredentialRenewal.
unfoldable pub validate_renewal : RegisterNodeRequest → Check Error
validate_renewal r = do
  reject (trim_space r.network_id == []) renewal_network_missing
  reject (not (r.join_token == []) || not (r.session_token_binding == [])) mixed_authorization
  validate_digest r.registration_binding true

unfoldable pub validate_enrollment : RegisterNodeRequest → Check Error
validate_enrollment r = do
  reject (not (r.registration_binding == [])) binding_without_renewal
  reject (r.join_token == [] && r.session_token_binding == []) authorization_missing

unfoldable pub validate_authorization : RegisterNodeRequest → Check Error
validate_authorization r =
    if is_credential_renewal r then validate_renewal r else validate_enrollment r

abbrev pub is_identity_signature : Bytes → Option Bytes → Bool
is_identity_signature encoded none = false
is_identity_signature encoded (some signature) =
    length signature == signature_size && Base64.encode raw_url_encoding signature == encoded

abbrev pub required_signature : Bytes → Option Bytes → Result Error Bytes
required_signature encoded none = err identity_signature
required_signature encoded (some signature) =
    if is_identity_signature encoded (some signature) then ok signature else err identity_signature

module _ ⦃x : External⦄ where
  -- secretBinding
  unfoldable pub secret_binding : Bytes → Bytes
  secret_binding text =
      let value = trim_space text in
      if value == [] then [] else Base64.encode raw_url_encoding (x.sha256 value)

  -- RegistrationSessionTokenBinding
  unfoldable pub registration_session_token_binding : Bytes → Bytes
  registration_session_token_binding token = secret_binding token

  -- The canonical value of RegistrationIdentityProofPayload.
  unfoldable pub proof_of : RegisterNodeRequest → RegistrationProof
  proof_of r = record {
    schema_version = r.schema_version;
    proof = registration_proof_domain;
    idempotency_id = trim_space r.idempotency_id;
    network_id = trim_space r.network_id;
    network_name = trim_space r.network_name;
    account_id = trim_space r.account_id;
    cell_id = trim_space r.cell_id;
    join_token_binding = secret_binding r.join_token;
    node_credential_binding = secret_binding r.node_credential;
    registration_binding = trim_space r.registration_binding;
    session_token_binding = trim_space r.session_token_binding;
    hostname = trim_space r.hostname;
    client_version = trim_space r.client_version;
    identity_public_key = trim_space r.identity_public_key;
    public_key = trim_space r.public_key;
    device_fingerprint = trim_space r.device_fingerprint;
    endpoint = trim_space r.endpoint;
    generation = r.generation;
    candidates = r.candidates;
    ttl = trim_space r.ttl;
    advertised_ips = r.advertised_ips;
    tags = r.tags;
  }

  -- RegistrationIdentityProofPayload
  unfoldable pub registration_identity_proof_payload : RegisterNodeRequest → Bytes
  registration_identity_proof_payload r = x.marshal_registration_proof (proof_of r)

  -- RegistrationIdentityProofBinding
  unfoldable pub registration_identity_proof_binding : RegisterNodeRequest → Bytes
  registration_identity_proof_binding r =
      Base64.encode raw_url_encoding (x.sha256 (registration_identity_proof_payload r))

  -- The request with its key, which SetRegisterNodeIdentityProof signs.
  abbrev pub with_identity : RegisterNodeRequest → Bytes → RegisterNodeRequest
  with_identity r private_key = record r {
    identity_public_key =
        identity_public_key_prefix ++ Base64.encode raw_url_encoding (x.ed25519_public private_key);
  }

  -- SetRegisterNodeIdentityProof
  unfoldable pub set_register_node_identity_proof :
      RegisterNodeRequest → Bytes → Result Error RegisterNodeRequest
  set_register_node_identity_proof r private_key = do
    reject (not (length private_key == private_key_size)) identity_private_key
    let named = with_identity r private_key
    ok (record named {
      identity_signature =
          Base64.encode raw_url_encoding
            (x.ed25519_sign private_key (registration_identity_proof_payload named));
    })

  -- VerifyRegisterNodeIdentityProof
  unfoldable pub verify_register_node_identity_proof : RegisterNodeRequest → Check Error
  verify_register_node_identity_proof r = do
    public_key ← decode_identity_public_key r.identity_public_key
    let encoded = trim_space r.identity_signature
    signature ← required_signature encoded (Base64.decode raw_url_strict encoded)
    reject (not (x.ed25519_verify public_key (registration_identity_proof_payload r) signature))
        identity_signature

  -- The values that Validate runs through in the order of a Go map, which is not fixed.
  abbrev pub safe_fields : RegisterNodeRequest → List Bytes
  safe_fields r =
      r.network_id ∷ r.network_name ∷ r.account_id ∷ r.cell_id ∷ r.client_version
      ∷ r.device_fingerprint ∷ []

  abbrev pub is_bad_ttl : Bytes → Option ℤ → Bool
  is_bad_ttl text none = true
  is_bad_ttl text (some ttl) =
      not (ltb_ℤ (pos 0) ttl) || ltb_ℤ max_endpoint_ttl ttl || not (x.duration_string ttl == text)

  -- Validate: who and where, the parts that any registration has.
  unfoldable pub validate_identity : RegisterNodeRequest → Check Error
  validate_identity r = do
    reject (not (r.schema_version == schema_version)) request_schema_version
    validate_identifier r.idempotency_id 16 max_identifier_bytes
    reject (trim_space r.network_id == [] && trim_space r.network_name == []) network_missing
    for_each (λ v. validate_safe_string v 0 max_safe_field_bytes) (safe_fields r)
    reject (trim_space r.device_fingerprint == []) fingerprint_missing
    validate_hostname r.hostname
    validate_public_key r.public_key

  unfoldable pub validate_optional_endpoint : Bytes → Check Error
  validate_optional_endpoint endpoint = if endpoint == [] then ok tt else validate_endpoint endpoint

  -- Validate: endpoints, addresses and tags.
  unfoldable pub validate_offers : RegisterNodeRequest → Check Error
  validate_offers r = do
    validate_optional_endpoint r.endpoint
    reject (ltb max_endpoint_candidates (length r.candidates)) too_many_candidates
    for_each validate_endpoint r.candidates
    reject (not (r.ttl == []) && is_bad_ttl r.ttl (x.parse_duration r.ttl)) endpoint_ttl
    reject (ltb max_advertised_ips (length r.advertised_ips)) too_many_advertised_ips
    for_each validate_prefix r.advertised_ips
    reject (ltb max_tags (length r.tags)) too_many_tags
    for_each (λ tag. validate_safe_string tag 1 max_safe_field_bytes) r.tags

  -- RegisterNodeRequest.Validate
  unfoldable pub validate_request : RegisterNodeRequest → Check Error
  validate_request r = do
    validate_identity r
    validate_offers r
    validate_opaque_credential r.join_token
    validate_opaque_credential r.node_credential
    validate_authorization r
    validate_digest r.session_token_binding false
    decoded ← decode_identity_public_key r.identity_public_key
    verify_register_node_identity_proof r

  -- RegisterNodeResponse.Validate
  unfoldable pub validate_response : RegisterNodeResponse → Check Error
  validate_response r = do
    reject (not (r.schema_version == schema_version)) response_schema_version
    validate_identifier r.idempotency_id 16 max_identifier_bytes
    validate_digest r.registration_binding true
    validate_opaque_credential r.node_credential
    reject (r.node_credential == []) node_credential_missing
    claims ← decode_node_credential r.node_credential
    reject
        (not (claims.network_id == trim_space r.network.id)
          || not (claims.node_id == trim_space r.node.id))
        credential_identity_mismatch
    reject (not (is_some r.map_signature)) map_signature_missing
    validate_network_map r

  -- ValidateForRequest
  unfoldable pub validate_for_request : RegisterNodeResponse → RegisterNodeRequest → Check Error
  validate_for_request r q = do
    validate_request q
    validate_response r
    reject (not (r.idempotency_id == q.idempotency_id)) idempotency_mismatch
    reject (not (r.registration_binding == registration_identity_proof_binding q)) binding_mismatch
    reject (not (q.network_id == []) && not (r.network.id == q.network_id)) network_mismatch
    reject
        (not (r.node.network_id == r.network.id)
          || not (r.node.identity_public_key == q.identity_public_key)
          || not (r.node.public_key == q.public_key)
          || not (r.node.device_fingerprint == q.device_fingerprint))
        node_mismatch
