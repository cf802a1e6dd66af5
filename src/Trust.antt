-- ===== src/Trust.antt =====
-- clientapi/v1/signing_trust.go: the signing keys that a client trusts.
pub mod Laws
pub mod Bundle
use client_api.Prelude.{
  Bytes, bytes, bytes_eq, ℕ, Bool, true, false, not, ◌&&◌, ◌||◌, Option, none, some, List, [], ◌∷◌,
  ◌++◌, map, ◌==◌, nat_eq, ℤ, pos, int_eq, contains, length, Result, ok, err, ◌>>=◌, ◌>>◌, reject,
  Check, if◌then◌else◌,
}
use client_api.Go.Strings.{trim_space}
use client_api.Go.Base64
use client_api.Go.Base64.{raw_url_encoding}
use client_api.Types.Time.{Time, before, after}
use client_api.Types.Keys.{SigningTrustKey, SigningTrustBundle, ServerKeyResponse}
use client_api.External.{External}
use client_api.Errors.{
  Error, bad_signing_public_key, bundle_version, active_key_id_missing, keys_missing,
  key_id_missing, key_id_duplicated, key_algorithm, key_id_underived, key_window,
  active_key_missing, resolve_key_id_missing, not_yet_trusted, trust_expired, not_trusted,
}

abbrev pub signing_trust_bundle_version : ℤ
signing_trust_bundle_version = pos 1

abbrev pub signing_key_algorithm_ed25519 : Bytes
signing_key_algorithm_ed25519 = bytes "ed25519"

-- ed25519.PublicKeySize
abbrev pub public_key_size : ℕ
public_key_size = 32

abbrev pub required_key : Option Bytes → Result Error Bytes
required_key none = err bad_signing_public_key
required_key (some raw) =
    if length raw == public_key_size then ok raw else err bad_signing_public_key

-- Whether both ends are there and the end is not after the start.
abbrev pub is_bad_window : Option Time → Option Time → Bool
is_bad_window (some start) (some end) = not (after end start)
is_bad_window _ _ = false

abbrev pub starts_later : Option Time → Time → Bool
starts_later none at = false
starts_later (some start) at = before at start

abbrev pub has_ended : Option Time → Time → Bool
has_ended none at = false
has_ended (some end) at = not (before at end)

module _ ⦃x : External⦄ where
  -- SigningKeyID
  unfoldable pub signing_key_id : Bytes → Result Error Bytes
  signing_key_id public_key = do
    raw ← required_key (Base64.decode raw_url_encoding (trim_space public_key))
    ok (bytes "ed25519:" ++ Base64.encode raw_url_encoding (x.sha256 raw))

  -- NewSigningTrustBundle
  unfoldable pub new_signing_trust_bundle : Bytes → Result Error SigningTrustBundle
  new_signing_trust_bundle text = do
    let public_key = trim_space text
    key_id ← signing_key_id public_key
    ok (record {
      version = signing_trust_bundle_version;
      active_key_id = key_id;
      keys =
          record {
            key_id = key_id;
            algorithm = signing_key_algorithm_ed25519;
            public_key = public_key;
            provider = [];
            provider_key = [];
            provider_version = pos 0;
            not_before = none;
            not_after = none;
          }
          ∷ [];
    })

  -- One round of the loop in Validate, with the trimmed key IDs seen before.
  unfoldable pub validate_key : List Bytes → SigningTrustKey → Check Error
  validate_key seen key = do
    let key_id = trim_space key.key_id
    reject (key_id == []) key_id_missing
    reject (contains key_id seen) key_id_duplicated
    reject (not (trim_space key.algorithm == signing_key_algorithm_ed25519)) key_algorithm
    derived ← signing_key_id key.public_key
    reject (not (derived == key_id)) key_id_underived
    reject (is_bad_window key.not_before key.not_after) key_window

  -- The loop: whether the active key is among the keys.
  unfoldable pub validate_keys :
      Bytes → List Bytes → Bool → List SigningTrustKey → Result Error Bool
  validate_keys active seen found [] = ok found
  validate_keys active seen found (key ∷ keys) = do
    validate_key seen key
    validate_keys active (trim_space key.key_id ∷ seen)
        (found || trim_space key.key_id == trim_space active) keys

  -- SigningTrustBundle.Validate
  unfoldable pub validate : SigningTrustBundle → Check Error
  validate b = do
    reject (not (b.version == signing_trust_bundle_version)) bundle_version
    reject (trim_space b.active_key_id == []) active_key_id_missing
    reject (length b.keys == 0) keys_missing
    active_found ← validate_keys b.active_key_id [] false b.keys
    reject (not active_found) active_key_missing

  -- The loop in Resolve, with the trimmed key ID.
  unfoldable pub find_key : Bytes → Time → List SigningTrustKey → Result Error SigningTrustKey
  find_key key_id at [] = err not_trusted
  find_key key_id at (key ∷ keys) =
      let rest = find_key key_id at keys in
      if not (key.key_id == key_id)
      then rest
      else if starts_later key.not_before at
      then err not_yet_trusted
      else if has_ended key.not_after at
      then err trust_expired
      else ok key

  -- SigningTrustBundle.Resolve
  unfoldable pub resolve : SigningTrustBundle → Bytes → Time → Result Error SigningTrustKey
  resolve b key_id at = do
    validate b
    reject (trim_space key_id == []) resolve_key_id_missing
    find_key (trim_space key_id) at b.keys

  -- signingTrustBundleFromResponse. CloneSigningTrustBundle copies the keys and their times, and
  -- is the identity on values.
  unfoldable pub signing_trust_bundle_from_response :
      SigningTrustBundle → Result Error SigningTrustBundle
  signing_trust_bundle_from_response bundle = do validate bundle; ok bundle

  -- ServerKeyResponse.SigningTrustBundle
  unfoldable pub map_trust_bundle : ServerKeyResponse → Result Error SigningTrustBundle
  map_trust_bundle r = signing_trust_bundle_from_response r.trust_bundle

  -- ServerKeyResponse.NodeCredentialSigningTrustBundle
  unfoldable pub node_credential_trust_bundle : ServerKeyResponse → Result Error SigningTrustBundle
  node_credential_trust_bundle r = signing_trust_bundle_from_response r.node_credential_trust_bundle

  -- ServerKeyResponse.RelaySigningTrustBundle
  unfoldable pub relay_trust_bundle : ServerKeyResponse → Result Error SigningTrustBundle
  relay_trust_bundle r = signing_trust_bundle_from_response r.relay_trust_bundle
