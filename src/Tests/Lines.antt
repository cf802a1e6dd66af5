-- ===== src/Tests/Lines.antt =====
-- Host names, error bodies and lines on concrete texts.
use client_api.Prelude.{
  Bytes, bytes, ◌≡◌, ◌↔◌, ◌⊎◌, ◌≤◌, refl, true, some, ok, List, [], ◌∷◌, pos, contains, bytes_eq,
  length, arith, ◌++◌,
}
use client_api.Tests.{program}
use client_api.Wireguard.{validate_hostname}
use client_api.Wireguard.HostnameLaws.{IsHostname, validate_hostname_iff}
use client_api.Errors.{line_too_large}
use client_api.PublicError.{
  PublicError, is_valid, http_status, known_error_codes, node_credential_unknown,
  node_credential_revoked, node_credential_expired, validate_http_response,
}
use client_api.PublicError.Laws.{
  IsAccepted, validate_http_response_iff, requires_re_enrollment-status, is_valid-eq-contains,
}
use client_api.LineIo.{line, refused, read_bounded_line}
use client_api.LineIo.Laws.{
  carried, line_in, read_bounded_line-bounded, read_bounded_line-line, read_bounded_line-refused,
}

validate_hostname_iff_example :
    (validate_hostname (bytes "a-b.c") ≡ ok tt) ↔ IsHostname (bytes "a-b.c")
validate_hostname_iff_example = validate_hostname_iff (bytes "a-b.c")

abbrev revoked : PublicError
revoked = record {
  schema_version = pos 1;
  error_code = node_credential_revoked;
  diagnostic_message = bytes "revoked";
  request_id = bytes "req-1";
}

validate_http_response_iff_example :
    (validate_http_response revoked 401 (bytes "req-1") ≡ ok tt)
    ↔ IsAccepted revoked 401 (bytes "req-1")
validate_http_response_iff_example = validate_http_response_iff revoked 401 (bytes "req-1")

requires_re_enrollment-status_example :
    (is_valid node_credential_revoked ≡ true)
    × (http_status node_credential_revoked ≡ some 401)
    × ((node_credential_revoked ≡ node_credential_unknown)
        ⊎ ((node_credential_revoked ≡ node_credential_revoked)
            ⊎ (node_credential_revoked ≡ node_credential_expired)))
unfolding program
requires_re_enrollment-status_example = requires_re_enrollment-status node_credential_revoked refl

is_valid-eq-contains_example : is_valid (bytes "other") ≡ contains (bytes "other") known_error_codes
is_valid-eq-contains_example = is_valid-eq-contains (bytes "other")

abbrev two_buffers : List Bytes
two_buffers = bytes "abc" ∷ bytes "de" ∷ []

abbrev end_of_line : Bytes
end_of_line = bytes "f" ++ 10 ∷ []

read_bounded_line-bounded_example :
    length (carried (read_bounded_line (line_in two_buffers end_of_line []) (pos 4)).0) ≤ 4
read_bounded_line-bounded_example = read_bounded_line-bounded (line_in two_buffers end_of_line []) 4

read_bounded_line-line_example :
    read_bounded_line (line_in two_buffers end_of_line []) (pos 7)
    ≡ (line (bytes "abcdef" ++ 10 ∷ []), [])
unfolding program
read_bounded_line-line_example =
    read_bounded_line-line 7 end_of_line [] two_buffers (ground arith) (ground arith)

read_bounded_line-refused_example :
    (read_bounded_line (line_in two_buffers end_of_line []) (pos 6)).0 ≡ refused line_too_large
unfolding program
read_bounded_line-refused_example =
    read_bounded_line-refused 6 end_of_line [] two_buffers (ground arith) (ground arith)
