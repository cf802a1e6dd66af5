-- ===== src/Credential/Signing.antt =====
-- A node credential that was signed is accepted.
use client_api.Prelude.{
  Bytes, bytes_eq, ◌<◌, ◌≡◌, refl, true, false, not, ◌||◌, Option, some, List, [], ◌++◌, ◌==◌,
  int_eq, nat_eq, length, All, All-append, ok, >>=-eq-ok, reject-eq-ok, arith, beq_refl,
}
use client_api.Go.Strings.{trim_space, has_prefix, trim_prefix, drop_bytes}
use client_api.Go.Strings.TrimLaws.{trim_space_idempotent}
use client_api.Go.AsciiLaws.{IsGraphic, trim_space_graphic}
use client_api.Go.Base64
use client_api.Go.Base64.{raw_url_encoding}
use client_api.Go.Base64.Laws.{IsByte, encode-IsGraphic, raw_url-decode-encode}
use client_api.Types.Time.{Time}
use client_api.Types.Keys.{NodeCredentialClaims}
use client_api.External.{External}
use client_api.Trust.{signing_key_id, public_key_size}
use client_api.Trust.Bundle.{signing_key_id-IsGraphic}
use client_api.MapSign.{signature_size, required}
use client_api.MapSign.Laws.{required-eq-ok, encoded_trimmed}
use client_api.Errors.{provider_failed, marshal_failed}
use client_api.Credential.{
  node_credential_prefix, node_credential_algorithm, node_credential_version,
  clean_credential_scopes, claims_of, node_credential_signing_payload,
  sign_node_credential_with_provider, decode_node_credential, validate_node_credential,
}
use client_api.Credential.Scopes.{clean_credential_scopes_idempotent}
use client_api.Credential.Laws.{IsTrusted, IsGranted, validate_node_credential_iff}

module _ ⦃x : External⦄ where
  -- JSON keeps the claims of this credential, whatever printable ASCII text their key ID and
  -- signature are; it does where the other texts are UTF-8.
  abbrev pub KeepsClaims : Bytes → Bytes → List Bytes → Time → Type 0
  KeepsClaims network_id node_id scopes expires_at =
      (key_id signature raw : Bytes)
      → All IsGraphic key_id
      → All IsGraphic signature
      → x.marshal_claims (claims_of key_id network_id node_id scopes expires_at signature)
        ≡ some raw
      → All IsByte raw
        × ((rest : Bytes) × (x.decode_claims raw
              ≡ some (claims_of key_id network_id node_id scopes expires_at signature, rest))
            × (x.at_eof rest ≡ true))

  decode-encoded :
      (raw rest : Bytes) (claims : NodeCredentialClaims)
      → All IsByte raw
      → x.decode_claims raw ≡ some (claims, rest)
      → x.at_eof rest ≡ true
      → claims.algorithm ≡ node_credential_algorithm
      → claims.version ≡ node_credential_version
      → (trim_space claims.key_id == []) ≡ false
      → decode_node_credential (node_credential_prefix ++ Base64.encode raw_url_encoding raw)
        ≡ ok claims
  unfolding decode_node_credential has_prefix trim_prefix drop_bytes
  decode-encoded raw rest claims octets decoded eof algorithm version named =
      let encoded = Base64.encode raw_url_encoding raw in
      let graphic : All IsGraphic (node_credential_prefix ++ encoded) =
        All-append IsGraphic node_credential_prefix encoded (omega arith) (encode-IsGraphic raw) in
      simp (
        trim_space_graphic (node_credential_prefix ++ encoded) graphic,
        raw_url-decode-encode raw octets,
        decoded,
        eof,
        algorithm,
        version,
        named,
        beq_refl node_credential_algorithm,
      )

  payload_canonical :
      (id network_id node_id : Bytes) (scopes : List Bytes) (expires_at : Time) (payload : Bytes)
      → node_credential_signing_payload id network_id node_id scopes expires_at ≡ ok payload
      → ((trim_space network_id == []) ≡ false)
        × ((trim_space node_id == []) ≡ false)
        × (node_credential_signing_payload id
              (trim_space network_id)
              (trim_space node_id)
              (clean_credential_scopes scopes)
              expires_at
            ≡ ok payload)
  unfolding node_credential_signing_payload
  payload_canonical id network_id node_id scopes expires_at payload h =
      let (a, h1) = reject-eq-ok (trim_space id == []) _ _ h in
      let (b, h2) = reject-eq-ok (trim_space network_id == [] || trim_space node_id == []) _ _ h1 in
      (
        ground arith,
        ground arith,
        rw
            (
              trim_space_idempotent network_id,
              trim_space_idempotent node_id,
              clean_credential_scopes_idempotent scopes,
            )
            h,
      )

  -- A credential that a provider signed is accepted under the signer's public key, for every
  -- required scope that is absent or among the cleaned scopes, until it expires: if JSON keeps the
  -- claims and the provider's signatures verify under the key.
  pub sign-validate_node_credential :
      (public_key network_id node_id : Bytes) (scopes : List Bytes) (expires_at : Time)
      (sign : Bytes → Option Bytes) (credential scope : Bytes) (now : Time)
      → All IsByte public_key
      → ((m signature : Bytes)
          → sign m ≡ some signature
          → (x.ed25519_verify public_key m signature ≡ true) × All IsByte signature)
      → KeepsClaims network_id node_id scopes expires_at
      → sign_node_credential_with_provider public_key network_id node_id scopes expires_at
          (some sign)
        ≡ ok credential
      → now < expires_at
      → IsGranted (clean_credential_scopes scopes) scope
      → (claims : NodeCredentialClaims) × (validate_node_credential credential
            (Base64.encode raw_url_encoding public_key)
            scope
            now
          ≡ ok claims)
        × (claims.network_id ≡ trim_space network_id)
        × (claims.node_id ≡ trim_space node_id)
        × (claims.scopes ≡ clean_credential_scopes scopes)
        × (claims.expires_at ≡ expires_at)
  unfolding sign_node_credential_with_provider
  sign-validate_node_credential public_key network_id node_id scopes expires_at sign credential
        scope now octets genuine keeps h unexpired granted =
      let encoded = Base64.encode raw_url_encoding public_key in
      let (a, h1) = reject-eq-ok (not (length public_key == public_key_size)) _ _ h in
      let (key_id, c, h2) = >>=-eq-ok (signing_key_id encoded) _ h1 in
      let (payload, d, h3) =
        >>=-eq-ok (node_credential_signing_payload key_id network_id node_id scopes expires_at) _
          h2 in
      let (signature, e, h4) = >>=-eq-ok (required provider_failed (sign payload)) _ h3 in
      let (f, h5) = reject-eq-ok (not (length signature == signature_size)) _ _ h4 in
      let text = Base64.encode raw_url_encoding signature in
      let claims = claims_of key_id network_id node_id scopes expires_at text in
      let (raw, g, h6) = >>=-eq-ok (required marshal_failed (x.marshal_claims claims)) _ h5 in
      let (verified, signed) = genuine payload signature (required-eq-ok provider_failed _ e) in
      let (named, full, _) = signing_key_id-IsGraphic encoded key_id c in
      let (bytes_of, (rest, decoded, eof)) =
        keeps key_id text raw named (encode-IsGraphic signature)
          (required-eq-ok marshal_failed _ g) in
      let (net_named, node_named, canonical) =
        payload_canonical key_id network_id node_id scopes expires_at payload d in
      let p : node_credential_prefix ++ Base64.encode raw_url_encoding raw ≡ credential = cc h6 in
      let trusted : IsTrusted claims encoded scope now = record {
        key = public_key;
        raw_signature = signature;
        payload = payload;
        networked = rw (trim_space_idempotent network_id) net_named;
        named = rw (trim_space_idempotent node_id) node_named;
        unexpired = unexpired;
        granted = granted;
        key_derived = rw (encoded_trimmed public_key) c;
        key_decoded = rw (encoded_trimmed public_key) (raw_url-decode-encode public_key octets);
        key_sized = ground arith;
        signature_decoded = raw_url-decode-encode signature signed;
        signature_sized = ground arith;
        marshalled = canonical;
        verified = verified;
      } in
      let decodes =
        decode-encoded raw rest claims bytes_of decoded eof refl refl
          (rw (trim_space_graphic key_id named) full) in
      (
        claims,
        rw (← p) ((validate_node_credential_iff _ encoded scope now claims).1 (decodes, trusted)),
        refl,
        refl,
        refl,
        refl,
      )
