-- ===== src/Trust/Bundle.antt =====
-- The bundle that is made from one public key.
use client_api.Prelude.{
  Bytes, bytes, bytes_eq, bytes_beq, ◌≡◌, refl, false, none, [], ◌∷◌, ◌++◌, ◌==◌, int_eq, nat_eq,
  contains, ok, All, All-append, >>=-eq-ok, arith, beq_refl, pos,
}
use client_api.Go.Strings.{trim_space}
use client_api.Go.Strings.TrimLaws.{trim_space_idempotent}
use client_api.Go.AsciiLaws.{IsGraphic, trim_space_graphic}
use client_api.Go.Base64
use client_api.Go.Base64.{raw_url_encoding}
use client_api.Go.Base64.Laws.{encode-IsGraphic}
use client_api.Types.Time.{Time}
use client_api.Types.Keys.{SigningTrustKey, SigningTrustBundle}
use client_api.External.{External}
use client_api.Trust.{
  required_key, signing_key_id, signing_key_algorithm_ed25519, new_signing_trust_bundle,
  validate_key, validate_keys, validate, find_key, resolve,
}

module _ ⦃x : External⦄ where
  key_id-IsGraphic :
      (raw : Bytes) → All IsGraphic (bytes "ed25519:" ++ Base64.encode raw_url_encoding raw)
  key_id-IsGraphic raw =
      All-append IsGraphic (bytes "ed25519:") (Base64.encode raw_url_encoding raw) (omega arith)
        (encode-IsGraphic raw)

  -- A key ID is not empty and is printable, and a trimmed key has the ID of the key.
  pub signing_key_id-IsGraphic :
      (public_key id : Bytes)
      → signing_key_id public_key ≡ ok id
      → All IsGraphic id × ((id == []) ≡ false) × (signing_key_id (trim_space public_key) ≡ ok id)
  unfolding signing_key_id bytes_beq
  signing_key_id-IsGraphic public_key id h =
      let (raw, e, f) =
        >>=-eq-ok (required_key (Base64.decode raw_url_encoding (trim_space public_key))) _ h in
      let p : bytes "ed25519:" ++ Base64.encode raw_url_encoding (x.sha256 raw) ≡ id = cc f in
      (
        rw (← p) (key_id-IsGraphic (x.sha256 raw)),
        rw (← p),
        rw (trim_space_idempotent public_key) h,
      )

  abbrev only_key : Bytes → Bytes → SigningTrustKey
  only_key public_key id = record {
    key_id = id;
    algorithm = signing_key_algorithm_ed25519;
    public_key = public_key;
    provider = [];
    provider_key = [];
    provider_version = pos 0;
    not_before = none;
    not_after = none;
  }

  abbrev only_bundle : Bytes → Bytes → SigningTrustBundle
  only_bundle public_key id = record {
    version = pos 1;
    active_key_id = id;
    keys = only_key public_key id ∷ [];
  }

  ed25519_trimmed : trim_space signing_key_algorithm_ed25519 ≡ signing_key_algorithm_ed25519
  unfolding trim_space
  ed25519_trimmed = refl

  module _ (public_key id : Bytes) (derived : signing_key_id public_key ≡ ok id) where
    id_trimmed : trim_space id ≡ id
    id_trimmed = trim_space_graphic id (signing_key_id-IsGraphic public_key id derived).0

    only_key_valid : validate_key [] (only_key public_key id) ≡ ok tt
    unfolding validate_key contains
    only_key_valid = simp (
      id_trimmed,
      ed25519_trimmed,
      derived,
      (signing_key_id-IsGraphic public_key id derived).1,
      beq_refl id,
      beq_refl signing_key_algorithm_ed25519,
    )

    only_bundle_valid : validate (only_bundle public_key id) ≡ ok tt
    unfolding validate validate_keys
    only_bundle_valid = simp (
      only_key_valid,
      id_trimmed,
      (signing_key_id-IsGraphic public_key id derived).1,
      beq_refl id,
    )

    only_key_resolves :
        (at : Time) → resolve (only_bundle public_key id) id at ≡ ok (only_key public_key id)
    unfolding resolve find_key
    only_key_resolves at = simp (
      only_bundle_valid,
      id_trimmed,
      (signing_key_id-IsGraphic public_key id derived).1,
      beq_refl id,
    )

  -- A bundle made from a public key is valid, and its active key resolves at any time to that key.
  pub new_signing_trust_bundle-resolve :
      (text : Bytes) (b : SigningTrustBundle) (at : Time)
      → new_signing_trust_bundle text ≡ ok b
      → (validate b ≡ ok tt)
        × ((key : SigningTrustKey) × (resolve b b.active_key_id at ≡ ok key)
            × (key.public_key ≡ trim_space text))
  unfolding new_signing_trust_bundle
  new_signing_trust_bundle-resolve text b at h =
      let (id, e, f) = >>=-eq-ok (signing_key_id (trim_space text)) _ h in
      let p : only_bundle (trim_space text) id ≡ b = cc f in
      rw (← p) (
        only_bundle_valid (trim_space text) id e,
        (only_key (trim_space text) id, only_key_resolves (trim_space text) id e at, refl),
      )
