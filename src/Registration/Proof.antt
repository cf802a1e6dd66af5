-- ===== src/Registration/Proof.antt =====
-- A proof that a device set on its request verifies.
use client_api.Prelude.{
  Bytes, bytes_eq, ◌≡◌, true, ◌++◌, nat_eq, length, All, All-append, ok, arith, beq_refl,
}
use client_api.Go.Strings.{has_prefix, trim_prefix, drop_bytes}
use client_api.Go.AsciiLaws.{IsGraphic, trim_space_graphic}
use client_api.Go.Base64
use client_api.Go.Base64.{raw_url_encoding}
use client_api.Go.Base64.Laws.{IsByte, encode-IsGraphic, raw_url_strict-decode-encode}
use client_api.Types.Requests.{RegisterNodeRequest}
use client_api.External.{External}
use client_api.Fields.{decode_identity_public_key, identity_public_key_prefix}
use client_api.Trust.{public_key_size}
use client_api.MapSign.{private_key_size, signature_size}
use client_api.MapSign.Laws.{encoded_trimmed}
use client_api.Registration.{
  registration_identity_proof_payload, proof_of, with_identity, set_register_node_identity_proof,
  verify_register_node_identity_proof,
}

decode-encoded_key :
    (key : Bytes)
    → All IsByte key
    → length key ≡ public_key_size
    → decode_identity_public_key (identity_public_key_prefix ++ Base64.encode raw_url_encoding key)
      ≡ ok key
unfolding decode_identity_public_key has_prefix trim_prefix drop_bytes Base64.decode Base64.encode
decode-encoded_key key octets sized =
    let encoded = Base64.encode raw_url_encoding key in
    let graphic : All IsGraphic (identity_public_key_prefix ++ encoded) =
      All-append IsGraphic identity_public_key_prefix encoded (omega arith)
        (encode-IsGraphic key) in
    simp (
      trim_space_graphic (identity_public_key_prefix ++ encoded) graphic,
      raw_url_strict-decode-encode key octets,
      sized,
      beq_refl encoded,
    )

module _ ⦃x : External⦄ where
  -- What Ed25519 documents of a private key: its public key has 32 bytes, a signature has 64, and
  -- every signature verifies.
  pub record IsSigningKey (private_key : Bytes) : Type 0 where
    pub sized : length private_key ≡ private_key_size
    pub public_sized : length (x.ed25519_public private_key) ≡ public_key_size
    pub public_octets : All IsByte (x.ed25519_public private_key)
    pub signature_sized : (m : Bytes) → length (x.ed25519_sign private_key m) ≡ signature_size
    pub signature_octets : (m : Bytes) → All IsByte (x.ed25519_sign private_key m)
    pub verifies :
        (m : Bytes)
        → x.ed25519_verify (x.ed25519_public private_key) m (x.ed25519_sign private_key m) ≡ true

  -- Setting the proof on a request with a sound identity key succeeds, and the request that comes
  -- of it has a proof that verifies.
  pub set-verify_register_node_identity_proof :
      (r : RegisterNodeRequest) (private_key : Bytes)
      → IsSigningKey private_key
      → (q : RegisterNodeRequest) × (set_register_node_identity_proof r private_key ≡ ok q)
        × (verify_register_node_identity_proof q ≡ ok tt)
  unfolding set_register_node_identity_proof verify_register_node_identity_proof
      registration_identity_proof_payload proof_of Base64.decode Base64.encode
  set-verify_register_node_identity_proof r private_key k =
      let payload = registration_identity_proof_payload (with_identity r private_key) in
      let signature = x.ed25519_sign private_key payload in
      let encoded = Base64.encode raw_url_encoding signature in
      (
        record (with_identity r private_key) { identity_signature = encoded },
        simp (k.sized),
        simp (
          decode-encoded_key (x.ed25519_public private_key) k.public_octets k.public_sized,
          encoded_trimmed signature,
          raw_url_strict-decode-encode signature (k.signature_octets payload),
          k.signature_sized payload,
          beq_refl encoded,
          k.verifies payload,
        ),
      )
