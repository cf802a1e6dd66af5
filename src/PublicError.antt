-- ===== src/PublicError.antt =====
-- clientapi/v1/errors.go: the closed set of public error codes and the error body.
pub mod Laws
use client_api.Prelude.{
  Bytes, bytes, bytes_eq, ℕ, Bool, true, false, not, ◌||◌, Option, none, some, List, [], ◌∷◌, ◌==◌,
  nat_eq, ℤ, pos, int_eq, Result, ok, err, ◌>>=◌, ◌>>◌, reject, Check, if◌then◌else◌,
}
use client_api.Fields.{
  validate_identifier, validate_safe_string, max_diagnostic_message_bytes, max_request_id_bytes,
}
use client_api.Errors.{
  Error, error_schema_version, unknown_error_code, wrong_http_status, request_id_mismatch,
}

-- The Go type is a string type: a value may lie outside the enumeration.
abbrev pub ErrorCode : Type 0
ErrorCode = Bytes

abbrev pub node_credential_renewal_required : ErrorCode
node_credential_renewal_required = bytes "node_credential_renewal_required"

abbrev pub node_credential_unknown : ErrorCode
node_credential_unknown = bytes "node_credential_unknown"

abbrev pub node_credential_revoked : ErrorCode
node_credential_revoked = bytes "node_credential_revoked"

abbrev pub node_credential_expired : ErrorCode
node_credential_expired = bytes "node_credential_expired"

abbrev pub node_credential_invalid : ErrorCode
node_credential_invalid = bytes "node_credential_invalid"

abbrev pub node_identity_binding_mismatch : ErrorCode
node_identity_binding_mismatch = bytes "node_identity_binding_mismatch"

abbrev pub authentication_required : ErrorCode
authentication_required = bytes "authentication_required"

abbrev pub authorization_denied : ErrorCode
authorization_denied = bytes "authorization_denied"

abbrev pub temporarily_unavailable : ErrorCode
temporarily_unavailable = bytes "temporarily_unavailable"

-- KnownErrorCodes
unfoldable pub known_error_codes : List ErrorCode
known_error_codes =
    node_credential_renewal_required ∷ node_credential_unknown ∷ node_credential_revoked
    ∷ node_credential_expired ∷ node_credential_invalid ∷ node_identity_binding_mismatch
    ∷ authentication_required ∷ authorization_denied ∷ temporarily_unavailable ∷ []

-- ErrorCode.HTTPStatus; `none` is its false.
unfoldable pub http_status : ErrorCode → Option ℕ
http_status c =
    if c == node_credential_renewal_required || c == node_identity_binding_mismatch
    then some 409
    else if c == node_credential_unknown
        || c == node_credential_revoked
        || c == node_credential_expired
        || c == node_credential_invalid
        || c == authentication_required
    then some 401
    else if c == authorization_denied
    then some 403
    else if c == temporarily_unavailable
    then some 503
    else none

abbrev is_some : Option ℕ → Bool
is_some none = false
is_some (some n) = true

-- ErrorCode.Valid
unfoldable pub is_valid : ErrorCode → Bool
is_valid c = is_some (http_status c)

-- ErrorCode.RequiresReEnrollment
unfoldable pub requires_re_enrollment : ErrorCode → Bool
requires_re_enrollment c =
    c == node_credential_unknown || c == node_credential_revoked || c == node_credential_expired

pub record PublicError : Type 0 where
  pub schema_version : ℤ
  pub error_code : ErrorCode
  pub diagnostic_message : Bytes
  pub request_id : Bytes

-- SchemaVersion of types.go
abbrev pub schema_version : ℤ
schema_version = pos 2

-- PublicError.Validate
unfoldable pub validate : PublicError → Check Error
validate e = do
  reject (not (e.schema_version == schema_version)) error_schema_version
  reject (not (is_valid e.error_code)) unknown_error_code
  validate_safe_string e.diagnostic_message 1 max_diagnostic_message_bytes
  validate_identifier e.request_id 1 max_request_id_bytes

-- NewPublicError
unfoldable pub new_public_error : ErrorCode → Bytes → Bytes → Result Error PublicError
new_public_error code diagnostic_message request_id = do
  let value : PublicError = record {
    schema_version = schema_version;
    error_code = code;
    diagnostic_message = diagnostic_message;
    request_id = request_id;
  }
  validate value
  ok value

abbrev pub status_matches : Option ℕ → ℕ → Bool
status_matches none status = status == 0
status_matches (some expected) status = status == expected

-- PublicError.ValidateHTTPStatus
unfoldable pub validate_http_status : PublicError → ℕ → Check Error
validate_http_status e status = do
  validate e
  reject (not (status_matches (http_status e.error_code) status)) wrong_http_status

-- PublicError.ValidateHTTPResponse
unfoldable pub validate_http_response : PublicError → ℕ → Bytes → Check Error
validate_http_response e status request_id = do
  validate_http_status e status
  validate_identifier request_id 1 max_request_id_bytes
  reject (not (e.request_id == request_id)) request_id_mismatch
