-- ===== src/Fields.antt =====
-- registration.go, the validators of single fields: identifiers, safe strings, opaque credentials,
-- digests; identityproof.go: identity public keys.
use client_api.Prelude.{
  Bytes, bytes, bytes_eq, ℕ, Bool, true, false, not, ◌&&◌, ◌||◌, Option, none, some, List, [], ltb,
  ◌==◌, ◌*◌, if◌then◌else◌, nat_eq, all, length, Result, ok, err, ◌>>◌, reject, Check,
}
use client_api.Go.Strings.{trim_space, has_prefix, trim_prefix}
use client_api.Go.Utf8.{decode_runes, is_control}
use client_api.Go.Base64
use client_api.Go.Base64.{raw_url_encoding, raw_url_strict}
use client_api.Errors.{
  Error, identifier_length, identifier_character, safe_string_length, invalid_utf8,
  credential_too_long, surrounding_whitespace, digest_blank, digest_encoding, identity_public_key,
}
use client_api.Wireguard.{is_alphanumeric, is_unsafe_rune, reject_runes}

abbrev pub max_identifier_bytes : ℕ
max_identifier_bytes = 128

abbrev pub max_request_id_bytes : ℕ
max_request_id_bytes = 128

abbrev pub max_diagnostic_message_bytes : ℕ
max_diagnostic_message_bytes = 1024

abbrev pub max_opaque_credential_bytes : ℕ
max_opaque_credential_bytes = 16 * 1024

abbrev pub is_identifier_byte : ℕ → Bool
is_identifier_byte c = is_alphanumeric c || c == b'-' || c == b'_' || c == b'.' || c == b':'

-- A length outside the bounds, or white space at an end.
abbrev pub is_out_of_bounds : Bytes → ℕ → ℕ → Bool
is_out_of_bounds value min_bytes max_bytes =
    ltb (length value) min_bytes || ltb max_bytes (length value) || not (value == trim_space value)

-- validateIdentifier
unfoldable pub validate_identifier : Bytes → ℕ → ℕ → Check Error
validate_identifier value min_bytes max_bytes = do
  reject (is_out_of_bounds value min_bytes max_bytes) identifier_length
  reject (not (all is_identifier_byte value)) identifier_character

abbrev pub is_invalid_text : Option (List ℕ) → Bool
is_invalid_text none = true
is_invalid_text (some rs) = false

-- validateSafeString
unfoldable pub validate_safe_string : Bytes → ℕ → ℕ → Check Error
validate_safe_string value min_bytes max_bytes = do
  reject (is_invalid_text (decode_runes value)) invalid_utf8
  reject (is_out_of_bounds value min_bytes max_bytes) safe_string_length
  reject_runes is_unsafe_rune (decode_runes value)

-- validateOpaqueCredential
unfoldable pub validate_opaque_credential : Bytes → Check Error
validate_opaque_credential value = do
  reject (ltb max_opaque_credential_bytes (length value)) credential_too_long
  reject (not (value == trim_space value)) surrounding_whitespace
  reject_runes is_control (decode_runes value)

-- The text is the canonical encoding of as many bytes as `size`.
abbrev pub is_canonical : ℕ → Bytes → Option Bytes → Bool
is_canonical size value none = false
is_canonical size value (some raw) =
    length raw == size && Base64.encode raw_url_encoding raw == value

-- validateDigest
unfoldable pub validate_digest : Bytes → Bool → Check Error
validate_digest value required = if value == [] && not required then ok tt else do
  reject (not (value == trim_space value) || value == []) digest_blank
  reject (not (is_canonical 32 value (Base64.decode raw_url_strict value))) digest_encoding

abbrev pub identity_public_key_prefix : Bytes
identity_public_key_prefix = bytes "enp_"

abbrev pub canonical_key : Bytes → Option Bytes → Result Error Bytes
canonical_key encoded none = err identity_public_key
canonical_key encoded (some raw) =
    if is_canonical 32 encoded (some raw) then ok raw else err identity_public_key

-- DecodeIdentityPublicKey
unfoldable pub decode_identity_public_key : Bytes → Result Error Bytes
decode_identity_public_key text = do
  let value = trim_space text
  reject (not (has_prefix value identity_public_key_prefix)) identity_public_key
  let encoded = trim_prefix value identity_public_key_prefix
  canonical_key encoded (Base64.decode raw_url_strict encoded)
