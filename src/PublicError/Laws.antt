-- ===== src/PublicError/Laws.antt =====
-- The codes form a closed enumeration, and what an accepted error response establishes.
use client_api.Prelude.{
  Bytes, bytes_eq, bytes_beq_iff, ℕ, ◌≡◌, ◌↔◌, true, false, some, ◌==◌, nat_eq, int_eq, int_beq_iff,
  contains, not, ok, >>-eq-ok, reject-eq-ok, arith, ◌⊎◌, inl, inr, bytes_beq,
}
use client_api.Fields.{validate_identifier, validate_safe_string}
use client_api.PublicError.{
  ErrorCode, PublicError, known_error_codes, http_status, is_valid, requires_re_enrollment,
  validate, validate_http_status, validate_http_response, schema_version, node_credential_unknown,
  node_credential_revoked, node_credential_expired, status_matches,
}

-- A code is valid exactly when KnownErrorCodes lists it.
pub is_valid-eq-contains : (c : ErrorCode) → is_valid c ≡ contains c known_error_codes
unfolding is_valid http_status known_error_codes contains
is_valid-eq-contains c = ground arith

terminal_codes :
    (c : ErrorCode)
    → requires_re_enrollment c ≡ true
    → (c ≡ node_credential_unknown)
      ⊎ ((c ≡ node_credential_revoked) ⊎ (c ≡ node_credential_expired))
unfolding requires_re_enrollment
terminal_codes c h = ground (
  arith,
  bytes_beq_iff c node_credential_unknown,
  bytes_beq_iff c node_credential_revoked,
  bytes_beq_iff c node_credential_expired,
)

-- A code that lets a client clear its enrollment is a code of the enumeration, is answered with
-- HTTP 401, and is one of unknown, revoked and expired.
pub requires_re_enrollment-status :
    (c : ErrorCode)
    → requires_re_enrollment c ≡ true
    → (is_valid c ≡ true)
      × (http_status c ≡ some 401)
      × ((c ≡ node_credential_unknown)
          ⊎ ((c ≡ node_credential_revoked) ⊎ (c ≡ node_credential_expired)))
unfolding is_valid http_status bytes_beq
requires_re_enrollment-status c h = elim (terminal_codes c h) [
  | inl e ↦ (rw e, rw e, inl e)
  | inr (inl e) ↦ (rw e, rw e, inr (inl e))
  | inr (inr e) ↦ (rw e, rw e, inr (inr e))
]

-- What an accepted response establishes, and what makes a response accepted.
pub record IsAccepted (e : PublicError) (status : ℕ) (request_id : Bytes) : Type 0 where
  pub version : e.schema_version ≡ schema_version
  pub known : contains e.error_code known_error_codes ≡ true
  pub message : validate_safe_string e.diagnostic_message 1 1024 ≡ ok tt
  pub identifier : validate_identifier request_id 1 128 ≡ ok tt
  pub correlated : e.request_id ≡ request_id
  pub assigned : http_status e.error_code ≡ some status

module _ (e : PublicError) (status : ℕ) (request_id : Bytes) where
  status_of_matches :
      is_valid e.error_code ≡ true
      → not (status_matches (http_status e.error_code) status) ≡ false
      → http_status e.error_code ≡ some status
  unfolding is_valid
  status_of_matches h k = ground arith

  ok_of_accepted :
      IsAccepted e status request_id → validate_http_response e status request_id ≡ ok tt
  unfolding validate_http_response validate_http_status validate
  ok_of_accepted a = ground (
    arith,
    is_valid-eq-contains e.error_code,
    bytes_beq_iff e.request_id request_id,
    int_beq_iff e.schema_version schema_version,
  )

  validate_http_response-IsAccepted :
      validate_http_response e status request_id ≡ ok tt → IsAccepted e status request_id
  unfolding validate_http_response
  validate_http_response-IsAccepted h =
      let (a, h1) = >>-eq-ok (validate_http_status e status) _ h in
      let (b, h2) = >>-eq-ok (validate_identifier request_id 1 128) _ h1 in
      unfold validate_http_status in
      let (c, k1) = >>-eq-ok (validate e) _ a in
      unfold validate in
      let (d, c1) = reject-eq-ok (not (e.schema_version == schema_version)) _ _ c in
      let (f, c2) = reject-eq-ok (not (is_valid e.error_code)) _ _ c1 in
      let (g, c3) = >>-eq-ok (validate_safe_string e.diagnostic_message 1 1024) _ c2 in
      record {
        version = ground (arith, int_beq_iff e.schema_version schema_version);
        known = ground (arith, is_valid-eq-contains e.error_code);
        message = g;
        identifier = b;
        correlated = ground (arith, bytes_beq_iff e.request_id request_id);
        assigned = status_of_matches (ground arith) (ground arith);
      }

-- An error response is accepted exactly when its body is valid, its status is the one assigned to
-- its code, and its request ID is the identifier in the response's header.
pub validate_http_response_iff :
    (e : PublicError) (status : ℕ) (request_id : Bytes)
    → (validate_http_response e status request_id ≡ ok tt) ↔ IsAccepted e status request_id
validate_http_response_iff e status request_id =
    (validate_http_response-IsAccepted e status request_id, ok_of_accepted e status request_id)
