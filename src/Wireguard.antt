-- ===== src/Wireguard.antt =====
-- clientapi/wireguard/validate.go: the validation of text that ends up in a WireGuard
-- configuration.
pub mod HostnameLaws
pub mod Keys
use client_api.Prelude.{
  Bytes, bytes_beq, bytes_eq, ℕ, zero, suc, ◌+◌, ◌-◌, Bool, true, false, not, ◌&&◌, ◌||◌, Option,
  none, some, List, [], ◌∷◌, leb, ltb, ◌==◌, nat_eq, ℤ, pos, negsuc, any, length, Result, ok, err,
  ◌>>=◌, ◌>>◌, reject, Check, for_each, if◌then◌else◌,
}
use client_api.Go.Strings.{trim_space, split, contains_byte}
use client_api.Go.Utf8.{decode_runes, is_control}
use client_api.Go.Base64
use client_api.Go.Base64.{std_strict, std_encoding}
use client_api.Go.Net.{split_host_port, atoi, itoa}
use client_api.Go.Netip.{Addr, Prefix, is_valid_addr, is_valid_prefix, zone}
use client_api.Errors.{
  Error, invalid_utf8, control_character, surrounding_whitespace, key_not_canonical,
  hostname_too_long, label_length, hostname_character, endpoint_not_host_port, endpoint_host,
  endpoint_port, dns_address, not_an_address, not_a_prefix,
}
use client_api.External.{External}

abbrev pub is_unsafe_rune : ℕ → Bool
is_unsafe_rune r = is_control r || r == 0x2028 || r == 0x2029

abbrev pub reject_runes : (ℕ → Bool) → Option (List ℕ) → Check Error
reject_runes bad none = err invalid_utf8
reject_runes bad (some rs) = reject (any bad rs) control_character

-- ValidateSafeText
unfoldable pub validate_safe_text : Bytes → Check Error
validate_safe_text value = reject_runes is_unsafe_rune (decode_runes value)

-- value == "" || value != strings.TrimSpace(value)
abbrev pub is_blank_or_untrimmed : Bytes → Bool
is_blank_or_untrimmed value = value == [] || not (value == trim_space value)

-- The text is the canonical encoding of 32 bytes.
abbrev is_canonical_key : Bytes → Option Bytes → Bool
is_canonical_key value none = false
is_canonical_key value (some raw) = length raw == 32 && Base64.encode std_encoding raw == value

unfoldable pub validate_key : Bytes → Check Error
validate_key value = do
  validate_safe_text value
  reject (is_blank_or_untrimmed value) surrounding_whitespace
  reject (not (is_canonical_key value (Base64.decode std_strict value))) key_not_canonical

unfoldable pub validate_public_key : Bytes → Check Error
validate_public_key value = validate_key value

unfoldable pub validate_private_key : Bytes → Check Error
validate_private_key value = validate_key value

abbrev pub is_alphanumeric : ℕ → Bool
is_alphanumeric c = leb b'a' c && leb c b'z' || leb b'A' c && leb c b'Z' || leb b'0' c && leb c b'9'

-- The loop over a label's bytes, at index `i` of `len`.
unfoldable pub validate_label_from : ℕ → ℕ → Bytes → Check Error
validate_label_from i len [] = ok tt
validate_label_from i len (c ∷ label) = do
  reject (not (is_alphanumeric c || c == b'-' && ltb 0 i && ltb i (len - 1))) hostname_character
  validate_label_from (i + 1) len label

unfoldable pub validate_label : Bytes → Check Error
validate_label label = do
  reject (length label == 0 || ltb 63 (length label)) label_length
  validate_label_from 0 (length label) label

-- ValidateHostname
unfoldable pub validate_hostname : Bytes → Check Error
validate_hostname value = do
  validate_safe_text value
  reject (is_blank_or_untrimmed value) surrounding_whitespace
  reject (ltb 253 (length value)) hostname_too_long
  for_each validate_label (split value b'.')

abbrev is_canonical_port : Bytes → Option ℤ → Bool
is_canonical_port text none = false
is_canonical_port text (some (negsuc n)) = false
is_canonical_port text (some (pos n)) = leb 1 n && leb n 65535 && itoa n == text

abbrev required_host_port : Option (Bytes × Bytes) → Result Error (Bytes × Bytes)
required_host_port none = err endpoint_not_host_port
required_host_port (some hp) = ok hp

-- netip.ParseAddr succeeds on valid addresses only, which the check behind it never refuses.
abbrev ip_or_hostname : Option Addr → Bytes → Check Error
ip_or_hostname none host = validate_hostname host
ip_or_hostname (some addr) host = reject (not (is_valid_addr addr)) endpoint_host

module _ ⦃x : External⦄ where
  -- ValidateEndpoint
  unfoldable pub validate_endpoint : Bytes → Check Error
  validate_endpoint value = do
    validate_safe_text value
    reject (is_blank_or_untrimmed value) surrounding_whitespace
    (host, port_text) ← required_host_port (split_host_port value)
    reject (host == [] || contains_byte host b'%') endpoint_host
    reject (not (is_canonical_port port_text (atoi port_text))) endpoint_port
    ip_or_hostname (x.parse_addr host) host

  abbrev pub is_zoneless_addr : Option Addr → Bool
  is_zoneless_addr none = false
  is_zoneless_addr (some addr) = is_valid_addr addr && zone addr == []

  -- ValidateDNSIP
  unfoldable pub validate_dns_ip : Bytes → Check Error
  validate_dns_ip value = do
    validate_safe_text value
    reject (is_blank_or_untrimmed value) surrounding_whitespace
    reject (not (is_zoneless_addr (x.parse_addr value))) dns_address

  -- ValidateAddr
  unfoldable pub validate_addr : Bytes → Check Error
  validate_addr value = do
    validate_safe_text value
    reject (is_blank_or_untrimmed value) surrounding_whitespace
    reject (not (is_zoneless_addr (x.parse_addr value))) not_an_address

  abbrev pub is_zoneless_prefix : Option Prefix → Bool
  is_zoneless_prefix none = false
  is_zoneless_prefix (some prefix) = is_valid_prefix prefix && zone prefix.ip == []

  -- ValidatePrefix
  unfoldable pub validate_prefix : Bytes → Check Error
  validate_prefix value = do
    validate_safe_text value
    reject (is_blank_or_untrimmed value) surrounding_whitespace
    reject (not (is_zoneless_prefix (x.parse_prefix value))) not_a_prefix
