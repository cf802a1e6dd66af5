-- ===== src/Registration/Laws.antt =====
-- What an accepted registration request authorizes.
use client_api.Prelude.{
  Bytes, bytes_eq, bytes_beq_iff, ◌≡◌, ◌⊎◌, inl, inr, true, false, not, ◌&&◌, ◌||◌, some, [], ◌==◌,
  ok, >>=-eq-ok, >>-eq-ok, reject-eq-ok, reject-ok, arith, eq_of_beq, if-cases, Option, none, err,
}
use client_api.Go.Strings.{trim_space}
use client_api.Go.Base64
use client_api.Go.Base64.{raw_url_encoding, raw_url_strict}
use client_api.Types.Requests.{RegisterNodeRequest}
use client_api.External.{External}
use client_api.Fields.{decode_identity_public_key, validate_digest, validate_opaque_credential}
use client_api.Registration.{
  is_credential_renewal, validate_renewal, validate_enrollment, validate_authorization,
  validate_identity, validate_offers, validate_request, verify_register_node_identity_proof,
  registration_identity_proof_payload, required_signature, is_identity_signature,
}
use client_api.Errors.{
  renewal_network_missing, mixed_authorization, binding_without_renewal, authorization_missing,
  identity_signature,
}

-- A renewal by a node credential: with a network and the binding it renews, and no authorization of
-- an enrollment.
pub record IsRenewal (r : RegisterNodeRequest) : Type 0 where
  pub credential : (r.node_credential == []) ≡ false
  pub networked : (trim_space r.network_id == []) ≡ false
  pub no_token : r.join_token ≡ []
  pub no_session : r.session_token_binding ≡ []
  pub binding : validate_digest r.registration_binding true ≡ ok tt

-- An enrollment by a join token or a session, with no credential and nothing to renew.
pub record IsEnrollment (r : RegisterNodeRequest) : Type 0 where
  pub no_credential : r.node_credential ≡ []
  pub no_binding : r.registration_binding ≡ []
  pub authorized : (r.join_token == [] && r.session_token_binding == []) ≡ false

validate_renewal-IsRenewal :
    (r : RegisterNodeRequest)
    → (r.node_credential == []) ≡ false
    → validate_renewal r ≡ ok tt
    → IsRenewal r
unfolding validate_renewal
validate_renewal-IsRenewal r e h =
    let (a, h1) = reject-eq-ok (trim_space r.network_id == []) renewal_network_missing _ h in
    let (b, c) =
      reject-eq-ok (not (r.join_token == []) || not (r.session_token_binding == []))
        mixed_authorization _ h1 in
    record {
      credential = e;
      networked = a;
      no_token = ground (arith, bytes_beq_iff r.join_token []);
      no_session = ground (arith, bytes_beq_iff r.session_token_binding []);
      binding = c;
    }

validate_enrollment-IsEnrollment :
    (r : RegisterNodeRequest)
    → (r.node_credential == []) ≡ true
    → validate_enrollment r ≡ ok tt
    → IsEnrollment r
unfolding validate_enrollment
validate_enrollment-IsEnrollment r e h =
    let (a, b) = reject-eq-ok (not (r.registration_binding == [])) binding_without_renewal _ h in
    record {
      no_credential = eq_of_beq r.node_credential [] e;
      no_binding = ground (arith, bytes_beq_iff r.registration_binding []);
      authorized = reject-ok _ authorization_missing b;
    }

validate_authorization-kind :
    (r : RegisterNodeRequest) → validate_authorization r ≡ ok tt → IsRenewal r ⊎ IsEnrollment r
unfolding validate_authorization is_credential_renewal
validate_authorization-kind r h =
    elim (if-cases (not (r.node_credential == [])) (validate_renewal r) (validate_enrollment r) h) [
      | inl (e, k) ↦ inl (validate_renewal-IsRenewal r (ground arith) k)
      | inr (e, k) ↦ inr (validate_enrollment-IsEnrollment r (ground arith) k)
    ]

required_signature-eq-ok :
    (encoded : Bytes) (o : Option Bytes) {signature : Bytes}
    → required_signature encoded o ≡ ok signature
    → Base64.encode raw_url_encoding signature ≡ encoded
required_signature-eq-ok encoded none h = cc
required_signature-eq-ok encoded (some raw) {signature} h =
    elim (if-cases (is_identity_signature encoded (some raw)) (ok raw) (err identity_signature) h) [
      | inl (e, k) ↦
          let p : raw ≡ signature = cc k in
          rw (← p) (ground (arith, bytes_beq_iff (Base64.encode raw_url_encoding raw) encoded))
      | inr (e, k) ↦ cc
    ]

module _ ⦃x : External⦄ where
  verify_proof-eq-ok :
      (r : RegisterNodeRequest)
      → verify_register_node_identity_proof r ≡ ok tt
      → (key : Bytes) × (signature : Bytes) × (decode_identity_public_key r.identity_public_key
          ≡ ok key)
        × (Base64.encode raw_url_encoding signature ≡ trim_space r.identity_signature)
        × (x.ed25519_verify key (registration_identity_proof_payload r) signature ≡ true)
  unfolding verify_register_node_identity_proof
  verify_proof-eq-ok r h =
      let encoded = trim_space r.identity_signature in
      let (key, a, h1) = >>=-eq-ok (decode_identity_public_key r.identity_public_key) _ h in
      let (signature, b, h2) =
        >>=-eq-ok (required_signature encoded (Base64.decode raw_url_strict encoded)) _ h1 in
      let c =
        reject-ok (not (x.ed25519_verify key (registration_identity_proof_payload r) signature)) _
          h2 in
      (
        key,
        signature,
        a,
        required_signature-eq-ok encoded (Base64.decode raw_url_strict encoded) b,
        ground arith,
      )

  -- An accepted request is a renewal by a node credential without any authorization of an
  -- enrollment, or an enrollment by a join token or a session without credential and binding; and
  -- the signature on it verifies, under the identity key it names, over its own proof payload.
  pub validate_request-IsAuthorized :
      (r : RegisterNodeRequest)
      → validate_request r ≡ ok tt
      → (IsRenewal r ⊎ IsEnrollment r)
        × ((key : Bytes) × (signature : Bytes) × (decode_identity_public_key r.identity_public_key
              ≡ ok key)
            × (Base64.encode raw_url_encoding signature ≡ trim_space r.identity_signature)
            × (x.ed25519_verify key (registration_identity_proof_payload r) signature ≡ true))
  unfolding validate_request
  validate_request-IsAuthorized r h =
      let (a, h1) = >>-eq-ok (validate_identity r) _ h in
      let (b, h2) = >>-eq-ok (validate_offers r) _ h1 in
      let (c, h3) = >>-eq-ok (validate_opaque_credential r.join_token) _ h2 in
      let (d, h4) = >>-eq-ok (validate_opaque_credential r.node_credential) _ h3 in
      let (e, h5) = >>-eq-ok (validate_authorization r) _ h4 in
      let (f, h6) = >>-eq-ok (validate_digest r.session_token_binding false) _ h5 in
      let (g, i, h7) = >>=-eq-ok (decode_identity_public_key r.identity_public_key) _ h6 in
      (validate_authorization-kind r e, verify_proof-eq-ok r h7)
