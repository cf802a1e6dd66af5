-- ===== src/ReleaseContract/Components.antt =====
-- systemtests/releasecontract/contract.go: the candidate, the release and the signal of one
-- component.
use client_api.Prelude.{
  Bytes, bytes, bytes_eq, int_eq, nat_eq, suc, ℤ, pos, negsuc, ltb_ℤ, Bool, not, ◌||◌, List, [],
  ◌∷◌, ◌++◌, ◌==◌, length, Check, Result, ok, reject, ◌>>◌, ◌>>=◌, for_each, if◌then◌else◌,
  contains,
}
use client_api.Go.Net.{itoa}
use client_api.Go.Regexp.{match_string}
use client_api.Types.Component.{
  CompatibilityGate, ComponentCandidate, CompatibilityEvidence, ReleasedComponent,
  InfrastructureSignal,
}
use client_api.External.{External}
use client_api.ReleaseContract.{
  ReleaseError, component_candidate_identity, component_candidate_artifact,
  component_candidate_provenance, gate_invalid, gate_duplicated, released_binding,
  promotion_incomplete, gate_unexpected, evidence_missing, signal_binding, release_pattern,
  repository_pattern, commit_pattern, artifact_reference_pattern, digest_pattern, event_id_pattern,
  digest, validate_digest_reference, actions_run_for, release_artifact_reference_for_component,
}
use client_api.ReleaseContract.Candidates.{validate_modules, validate_contracts}

-- An int as %d prints it.
abbrev pub print_int : ℤ → Bytes
print_int (pos n) = itoa n
print_int (negsuc n) = b'-' ∷ itoa (suc n)

-- compatibilityGateKey
unfoldable pub compatibility_gate_key : Bytes → Bytes → Bytes → ℤ → Bytes
compatibility_gate_key provider consumer contract version =
    provider ++ (0 ∷ consumer ++ (0 ∷ contract ++ (0 ∷ print_int version)))

abbrev pub gate_key : CompatibilityGate → Bytes
gate_key g = compatibility_gate_key g.provider g.consumer g.contract g.version

abbrev pub evidence_key : CompatibilityEvidence → Bytes
evidence_key e = compatibility_gate_key e.provider e.consumer e.contract e.version

abbrev pub is_bad_gate : Bytes → CompatibilityGate → Bool
is_bad_gate component g =
    not (g.provider == component)
    || not (match_string release_pattern g.consumer)
    || g.consumer == component
    || g.contract == []
    || ltb_ℤ g.version (pos 1)

-- validateCompatibilityGates, with the keys seen so far
unfoldable pub validate_compatibility_gates :
    Bytes → List Bytes → List CompatibilityGate → Check ReleaseError
validate_compatibility_gates component seen [] = ok tt
validate_compatibility_gates component seen (g ∷ gs) = do
  reject (is_bad_gate component g) gate_invalid
  reject (contains (gate_key g) seen) gate_duplicated
  validate_compatibility_gates component (gate_key g ∷ seen) gs

-- ValidateComponentCandidate
unfoldable pub validate_component_candidate : ComponentCandidate → Check ReleaseError
validate_component_candidate c = do
  reject
      (not (c.schema_version == pos 2)
        || not (c.kind == bytes "candidate")
        || not (match_string release_pattern c.component)
        || not (match_string repository_pattern c.repository)
        || not (match_string commit_pattern c.git_commit)
        || not (match_string artifact_reference_pattern c.artifact))
      component_candidate_identity
  reject
      (not
        (release_artifact_reference_for_component c.component c.repository c.git_commit c.artifact))
      component_candidate_artifact
  reject
      (not (c.provenance.build.repository == c.repository)
        || not (c.provenance.build.source_commit == c.git_commit)
        || not (actions_run_for c.repository c.provenance.build.run)
        || not (match_string digest_pattern c.provenance.build.attestation_digest)
        || not (match_string digest_pattern c.provenance.attestation_digest))
      component_candidate_provenance
  validate_digest_reference c.provenance.producer_release
  validate_modules [] c.modules
  validate_contracts [] c.contracts
  validate_compatibility_gates c.component [] c.compatibility_gates

-- The keys of a Go map used as a set: a key is added once.
unfoldable pub add_key : Bytes → List Bytes → List Bytes
add_key key keys = if contains key keys then keys else key ∷ keys

unfoldable pub wanted_keys : List CompatibilityGate → List Bytes → List Bytes
wanted_keys [] keys = keys
wanted_keys (g ∷ gs) keys = wanted_keys gs (add_key (gate_key g) keys)

-- The loop over the evidence, to the keys seen.
unfoldable pub seen_keys :
    List Bytes → List Bytes → List CompatibilityEvidence → Result ReleaseError (List Bytes)
seen_keys want seen [] = ok seen
seen_keys want seen (e ∷ es) = do
  reject (not (contains (evidence_key e) want) || contains (evidence_key e) seen) gate_unexpected
  validate_digest_reference e.evidence
  seen_keys want (evidence_key e ∷ seen) es

abbrev pub releases_repository : Bytes
releases_repository = bytes "endless-net/releases"

module _ ⦃x : External⦄ where
  -- ValidateReleasedComponent: the record binds the candidate.
  unfoldable pub check_binding : ReleasedComponent → ComponentCandidate → Bytes → Check ReleaseError
  check_binding r c candidate_raw = do
    validate_component_candidate c
    reject
        (not (r.schema_version == pos 2)
          || not (r.kind == bytes "released")
          || not (r.component == c.component)
          || not (r.repository == c.repository)
          || not (r.git_commit == c.git_commit)
          || not (r.artifact == c.artifact)
          || not (r.candidate.digest == digest candidate_raw))
        released_binding
    for_each validate_digest_reference (r.candidate ∷ r.candidate_provenance ∷ [])
    reject
        (not (r.promotion.repository == releases_repository)
          || not (actions_run_for r.promotion.repository r.promotion.run)
          || r.promotion.approved_by == [])
        promotion_incomplete

  -- ValidateReleasedComponent
  unfoldable pub validate_released_component :
      ReleasedComponent → ComponentCandidate → Bytes → Check ReleaseError
  validate_released_component r c candidate_raw = do
    check_binding r c candidate_raw
    let want = wanted_keys c.compatibility_gates []
    seen ← seen_keys want [] r.compatibility_evidence
    reject (not (length seen == length want)) evidence_missing

  -- ValidateInfrastructureSignal
  unfoldable pub validate_infrastructure_signal :
      InfrastructureSignal → ReleasedComponent → Bytes → Check ReleaseError
  validate_infrastructure_signal s r released_raw = do
    reject
        (not (s.schema_version == pos 2)
          || not (s.kind == bytes "released_component")
          || not (s.environment == bytes "production")
          || not (s.component == r.component)
          || not (match_string commit_pattern s.manifest_commit)
          || not (match_string event_id_pattern s.event_id)
          || s.config_generation == []
          || not (s.released_record.digest == digest released_raw))
        signal_binding
    validate_digest_reference s.released_record
