-- ===== src/Domains.antt =====
-- networkmap_validate.go, validDNSDomain.
use client_api.Prelude.{
  Bytes, bytes, bytes_eq, Bool, false, not, ◌&&◌, ◌||◌, [], ◌∷◌, reverse, ltb, ◌==◌, nat_eq, all,
  length,
}
use client_api.Go.Strings.{trim_space, trim_suffix, split}
use client_api.Wireguard.{is_alphanumeric}

abbrev starts_with_hyphen : Bytes → Bool
starts_with_hyphen [] = false
starts_with_hyphen (c ∷ s) = c == b'-'

-- The loop over the labels. A byte above 0x7f belongs to a rune that the source refuses.
unfoldable pub is_valid_label : Bytes → Bool
is_valid_label label =
    not (
      label == []
      || ltb 63 (length label)
      || starts_with_hyphen label
      || starts_with_hyphen (reverse label))
    && all (λ c. is_alphanumeric c || c == b'-') label

unfoldable pub is_valid_domain_text : Bytes → Bool
is_valid_domain_text value =
    not (value == [] || ltb 253 (length value) || not (value == trim_space value))
    && all is_valid_label (split value b'.')

-- validDNSDomain
unfoldable pub valid_dns_domain : Bytes → Bool
valid_dns_domain value = is_valid_domain_text (trim_suffix value (bytes "."))
