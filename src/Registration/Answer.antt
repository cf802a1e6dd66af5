-- ===== src/Registration/Answer.antt =====
-- Which request a registration result answers.
use client_api.Prelude.{
  Bytes, bytes_eq, bytes_beq_iff, ◌≡◌, sym, ap, ◌∙◌, ◌↔◌, ◌⊎◌, inl, inr, false, not, ◌&&◌, some, [],
  ◌==◌, ok, All, >>-eq-ok, reject-eq-ok, reject-ok, arith, Bool-cases, eq_of_beq, beq_refl,
}
use client_api.Go.Base64
use client_api.Go.Base64.{raw_url_encoding, raw_url_strict}
use client_api.Go.Base64.Laws.{IsByte, raw_url-decode-encode}
use client_api.Types.Map.{RegisterNodeResponse}
use client_api.Types.Requests.{RegisterNodeRequest}
use client_api.External.{External}
use client_api.Registration.{
  validate_request, validate_response, validate_for_request, proof_of,
  registration_identity_proof_binding, registration_identity_proof_payload,
}
use client_api.Errors.{idempotency_mismatch, binding_mismatch, network_mismatch, node_mismatch}

module _ ⦃x : External⦄ where
  -- A result that answers the request: the same operation, the digest of the proof payload that the
  -- device signed, the requested network, and the node's keys and fingerprint.
  pub record IsAnswer (r : RegisterNodeResponse) (q : RegisterNodeRequest) : Type 0 where
    pub operation : r.idempotency_id ≡ q.idempotency_id
    pub bound : r.registration_binding ≡ registration_identity_proof_binding q
    pub networked : (q.network_id ≡ []) ⊎ (r.network.id ≡ q.network_id)
    pub member : r.node.network_id ≡ r.network.id
    pub identity : r.node.identity_public_key ≡ q.identity_public_key
    pub key : r.node.public_key ≡ q.public_key
    pub fingerprint : r.node.device_fingerprint ≡ q.device_fingerprint

  accepted-IsAnswer :
      (r : RegisterNodeResponse) (q : RegisterNodeRequest)
      → validate_for_request r q ≡ ok tt
      → (validate_request q ≡ ok tt) × (validate_response r ≡ ok tt) × IsAnswer r q
  unfolding validate_for_request
  accepted-IsAnswer r q h =
      let (a, h1) = >>-eq-ok (validate_request q) _ h in
      let (b, h2) = >>-eq-ok (validate_response r) _ h1 in
      let (c, h3) =
        reject-eq-ok (not (r.idempotency_id == q.idempotency_id)) idempotency_mismatch _ h2 in
      let (d, h4) =
        reject-eq-ok (not (r.registration_binding == registration_identity_proof_binding q))
          binding_mismatch _ h3 in
      let (e, h5) =
        reject-eq-ok (not (q.network_id == []) && not (r.network.id == q.network_id))
          network_mismatch _ h4 in
      let f = reject-ok _ node_mismatch h5 in
      (
        a,
        b,
        record {
          operation = ground (arith, bytes_beq_iff r.idempotency_id q.idempotency_id);
          bound =
              ground (
                arith,
                bytes_beq_iff r.registration_binding (registration_identity_proof_binding q),
              );
          networked = elim (Bool-cases (q.network_id == [])) [
            | inl n ↦ inl (eq_of_beq q.network_id [] n)
            | inr n ↦ inr (ground (arith, bytes_beq_iff r.network.id q.network_id))
          ];
          member = ground (arith, bytes_beq_iff r.node.network_id r.network.id);
          identity = ground (arith, bytes_beq_iff r.node.identity_public_key q.identity_public_key);
          key = ground (arith, bytes_beq_iff r.node.public_key q.public_key);
          fingerprint =
              ground (arith, bytes_beq_iff r.node.device_fingerprint q.device_fingerprint);
        },
      )

  IsAnswer-accepted :
      (r : RegisterNodeResponse) (q : RegisterNodeRequest)
      → validate_request q ≡ ok tt
      → validate_response r ≡ ok tt
      → IsAnswer r q
      → validate_for_request r q ≡ ok tt
  unfolding validate_for_request
  IsAnswer-accepted r q a b i =
      let networked : (not (q.network_id == []) && not (r.network.id == q.network_id)) ≡ false =
        elim i.networked [
          | inl e ↦ ground (arith, bytes_beq_iff q.network_id [])
          | inr e ↦ ground (arith, bytes_beq_iff r.network.id q.network_id)
        ] in
      simp (
        a,
        b,
        i.operation,
        i.bound,
        networked,
        i.member,
        i.identity,
        i.key,
        i.fingerprint,
        beq_refl q.idempotency_id,
        beq_refl (registration_identity_proof_binding q),
        beq_refl r.network.id,
        beq_refl q.identity_public_key,
        beq_refl q.public_key,
        beq_refl q.device_fingerprint,
      )

  -- A result is accepted for a request exactly when both are valid and the result answers it.
  pub validate_for_request_iff :
      (r : RegisterNodeResponse) (q : RegisterNodeRequest)
      → (validate_for_request r q ≡ ok tt)
        ↔ ((validate_request q ≡ ok tt) × (validate_response r ≡ ok tt) × IsAnswer r q)
  validate_for_request_iff r q = (accepted-IsAnswer r q, λ (a, b, i). IsAnswer-accepted r q a b i)

  -- A result that is accepted for two requests answers one proof: the requests have the same
  -- canonical proof payload, if their payloads do not collide, neither under SHA-256 nor in JSON.
  pub validate_for_request_unique :
      (r : RegisterNodeResponse) (q s : RegisterNodeRequest)
      → ((m : Bytes) → All IsByte (x.sha256 m))
      → (x.sha256 (registration_identity_proof_payload q)
            ≡ x.sha256 (registration_identity_proof_payload s)
          → registration_identity_proof_payload q ≡ registration_identity_proof_payload s)
      → (x.marshal_registration_proof (proof_of q) ≡ x.marshal_registration_proof (proof_of s)
          → proof_of q ≡ proof_of s)
      → validate_for_request r q ≡ ok tt
      → validate_for_request r s ≡ ok tt
      → proof_of q ≡ proof_of s
  unfolding registration_identity_proof_binding registration_identity_proof_payload
  validate_for_request_unique r q s octets collision_free injective h k =
      let (_, _, i) = accepted-IsAnswer r q h in
      let (_, _, j) = accepted-IsAnswer r s k in
      let m = registration_identity_proof_payload q in
      let n = registration_identity_proof_payload s in
      let e : some (x.sha256 m) ≡ some (x.sha256 n) =
        sym (raw_url-decode-encode (x.sha256 m) (octets m))
        ∙ ap (Base64.decode raw_url_encoding) (sym i.bound ∙ j.bound)
        ∙ raw_url-decode-encode (x.sha256 n) (octets n) in
      injective (collision_free (cc e))
