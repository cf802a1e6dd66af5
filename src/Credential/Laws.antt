-- ===== src/Credential/Laws.antt =====
-- What an accepted node credential is.
use client_api.Prelude.{
  Bytes, bytes_eq, bytes_beq_iff, ◌<◌, ◌≡◌, ◌↔◌, ◌⊎◌, inl, inr, true, false, not, ◌&&◌, ◌||◌, some,
  List, [], ◌==◌, nat_eq, length, ok, >>=-eq-ok, reject-eq-ok, arith, beq_refl, Bool-cases, refl,
  eq_of_beq,
}
use mathlib.Core.Path.{subst}
use client_api.Go.Strings.{trim_space}
use client_api.Go.Base64
use client_api.Go.Base64.{raw_url_encoding}
use client_api.Types.Time.{Time, before}
use client_api.Types.Keys.{NodeCredentialClaims, SigningTrustBundle, SigningTrustKey}
use client_api.External.{External}
use client_api.Trust.{signing_key_id, public_key_size, resolve}
use client_api.MapSign.{signature_size, sized}
use client_api.MapSign.Laws.{sized-eq-ok, key_nonempty}
use client_api.Errors.{credential_public_key, credential_signature}
use client_api.Credential.{
  node_credential_signing_payload, validate_claims, validate_node_credential,
  decode_node_credential, verify_node_credential_with_trust_bundle, credential_has_scope,
}

-- The required scope is absent or among the scopes.
abbrev pub IsGranted : List Bytes → Bytes → Type 0
IsGranted scopes required_scope =
    (trim_space required_scope ≡ [])
    ⊎ (credential_has_scope scopes (trim_space required_scope) ≡ true)

module _ ⦃x : External⦄ where
  -- The claims name a network and a node, last beyond `now`, grant the scope, and are signed by the
  -- key over their own text.
  pub record IsTrusted (claims : NodeCredentialClaims) (public_key scope : Bytes) (now : Time)
      : Type 0 where
    pub key : Bytes
    pub raw_signature : Bytes
    pub payload : Bytes
    pub networked : (trim_space claims.network_id == []) ≡ false
    pub named : (trim_space claims.node_id == []) ≡ false
    pub unexpired : now < claims.expires_at
    pub granted : IsGranted claims.scopes scope
    pub key_derived : signing_key_id (trim_space public_key) ≡ ok claims.key_id
    pub key_decoded : Base64.decode raw_url_encoding (trim_space public_key) ≡ some key
    pub key_sized : length key ≡ public_key_size
    pub signature_decoded : Base64.decode raw_url_encoding claims.signature ≡ some raw_signature
    pub signature_sized : length raw_signature ≡ signature_size
    pub marshalled :
        node_credential_signing_payload claims.key_id claims.network_id claims.node_id claims.scopes
          claims.expires_at
        ≡ ok payload
    pub verified : x.ed25519_verify key payload raw_signature ≡ true

  scope-IsGranted :
      (claims : NodeCredentialClaims) (scope : Bytes)
      → (not (trim_space scope == [])
          && not (credential_has_scope claims.scopes (trim_space scope)))
        ≡ false
      → IsGranted claims.scopes scope
  scope-IsGranted claims scope h = elim (Bool-cases (trim_space scope == [])) [
    | inl e ↦ inl (eq_of_beq (trim_space scope) [] e)
    | inr e ↦ inr (ground arith)
  ]

  IsGranted-scope :
      (claims : NodeCredentialClaims) (scope : Bytes)
      → IsGranted claims.scopes scope
      → (not (trim_space scope == [])
          && not (credential_has_scope claims.scopes (trim_space scope)))
        ≡ false
  IsGranted-scope claims scope (inl e) = rw (e, beq_refl {T = Bytes} []) refl
  IsGranted-scope claims scope (inr e) = rw e (ground arith)

  validate_claims-IsTrusted :
      (claims c : NodeCredentialClaims) (public_key scope : Bytes) (now : Time)
      → validate_claims claims public_key scope now ≡ ok c
      → (c ≡ claims) × IsTrusted claims public_key scope now
  unfolding validate_claims
  validate_claims-IsTrusted claims c public_key scope now h =
      let (a, h1) =
        reject-eq-ok (trim_space claims.network_id == [] || trim_space claims.node_id == []) _ _
          h in
      let (b, h2) = reject-eq-ok (not (before now claims.expires_at)) _ _ h1 in
      let (d, h3) =
        reject-eq-ok
          (not (trim_space scope == [])
            && not (credential_has_scope claims.scopes (trim_space scope)))
          _ _ h2 in
      let (e, h4) = reject-eq-ok (trim_space public_key == []) _ _ h3 in
      let (id, f, h5) = >>=-eq-ok (signing_key_id (trim_space public_key)) _ h4 in
      let (g, h6) = reject-eq-ok (not (claims.key_id == id)) _ _ h5 in
      let (key, i, h7) =
        >>=-eq-ok
          (sized credential_public_key public_key_size
            (Base64.decode raw_url_encoding (trim_space public_key)))
          _ h6 in
      let (signature, j, h8) =
        >>=-eq-ok
          (sized credential_signature signature_size
            (Base64.decode raw_url_encoding claims.signature))
          _ h7 in
      let (payload, k, h9) =
        >>=-eq-ok
          (node_credential_signing_payload claims.key_id claims.network_id claims.node_id
            claims.scopes claims.expires_at)
          _ h8 in
      let (l, h10) = reject-eq-ok (not (x.ed25519_verify key payload signature)) _ _ h9 in
      let (m, n) = sized-eq-ok credential_public_key public_key_size _ i in
      let (o, p) = sized-eq-ok credential_signature signature_size _ j in
      (
        cc h10,
        record {
          key = key;
          raw_signature = signature;
          payload = payload;
          networked = ground arith;
          named = ground arith;
          unexpired = ground arith;
          granted = scope-IsGranted claims scope d;
          key_derived = ground (arith, bytes_beq_iff claims.key_id id);
          key_decoded = m;
          key_sized = n;
          signature_decoded = o;
          signature_sized = p;
          marshalled = k;
          verified = ground arith;
        },
      )

  pub IsTrusted-validate_claims :
      (claims : NodeCredentialClaims) (public_key scope : Bytes) (now : Time)
      → IsTrusted claims public_key scope now
      → validate_claims claims public_key scope now ≡ ok claims
  unfolding validate_claims
  IsTrusted-validate_claims claims public_key scope now i =
      let lasting : before now claims.expires_at ≡ true = ground (arith, i.unexpired) in
      simp (
        i.networked,
        i.named,
        lasting,
        IsGranted-scope claims scope i.granted,
        key_nonempty (trim_space public_key) claims.key_id i.key_derived,
        i.key_derived,
        beq_refl claims.key_id,
        i.key_decoded,
        i.key_sized,
        i.signature_decoded,
        i.signature_sized,
        i.marshalled,
        i.verified,
      )

  -- A node credential is accepted exactly when it decodes to the claims returned, and these name a
  -- network and a node, expire later, hold the required scope if there is one, carry the ID of the
  -- trusted key, and are signed by that key over their own canonical text.
  pub validate_node_credential_iff :
      (credential public_key scope : Bytes) (now : Time) (claims : NodeCredentialClaims)
      → (validate_node_credential credential public_key scope now ≡ ok claims)
        ↔ ((decode_node_credential credential ≡ ok claims) × IsTrusted claims public_key scope now)
  unfolding validate_node_credential
  validate_node_credential_iff credential public_key scope now claims = (
    λ h.
        let (c, e, f) = >>=-eq-ok (decode_node_credential credential) _ h in
        let (same, trusted) = validate_claims-IsTrusted c claims public_key scope now f in
        rw same (e, trusted),
    λ (e, i). rw e (IsTrusted-validate_claims claims public_key scope now i),
  )

  -- A credential that is accepted under a trust bundle is accepted under the public key of the
  -- bundle's key that resolves its key ID at that time.
  pub verify_node_credential_with_trust_bundle_iff :
      (credential : Bytes) (trust : SigningTrustBundle) (scope : Bytes) (now : Time)
      (claims : NodeCredentialClaims)
      → (verify_node_credential_with_trust_bundle credential trust scope now ≡ ok claims) ↔ (
          (decode_node_credential credential ≡ ok claims)
          × ((key : SigningTrustKey) × (resolve trust claims.key_id now ≡ ok key)
              × IsTrusted claims key.public_key scope now))
  unfolding verify_node_credential_with_trust_bundle
  verify_node_credential_with_trust_bundle_iff credential trust scope now claims = (
    λ h.
        let (c, e, f) = >>=-eq-ok (decode_node_credential credential) _ h in
        let (key, g, i) = >>=-eq-ok (resolve trust c.key_id now) _ f in
        let (d, t) =
          (validate_node_credential_iff credential key.public_key scope now claims).0 i in
        let same : c ≡ claims = cc (e, d) in
        (
          d,
          (
            key,
            subst (λ (m : NodeCredentialClaims). resolve trust m.key_id now ≡ ok key) same g,
            t,
          ),
        ),
    λ (e, (key, g, t)).
        rw (e, g)
          ((validate_node_credential_iff credential key.public_key scope now claims).1 (e, t)),
  )
