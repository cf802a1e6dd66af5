-- ===== src/ReleaseContract/Resolve.antt =====
-- systemtests/releasecontract/contract.go: what an environment resolves to, a candidate for
-- validation and only a released envelope for production.
use client_api.Prelude.{
  Bytes, bytes, bytes_eq, int_eq, pos, not, ◌||◌, none, some, [], ◌==◌, Bool, Option, true, Check,
  Result, ok, reject, ◌>>◌, for_each,
}
use client_api.Go.Regexp.{match_string}
use client_api.Types.Candidate.{DigestReference, Component, Candidate, CandidateProvenance}
use client_api.Types.Release.{
  SystemTestProvenance, PromotionProvenance, ReleasedEnvelope, Resolution,
}
use client_api.External.{External}
use client_api.ReleaseContract.{
  ReleaseError, reference_digest, not_released, released_provenance, released_artifact, digest,
  validate_digest_reference, actions_run_for, commit_pattern, release_pattern,
}
use client_api.ReleaseContract.Candidates.{
  resolved, validate_candidate, validate_candidate_provenance, test_repository, is_mutable,
}
use client_api.ReleaseContract.Envelope.{resolution_schema, promotion_repository}

abbrev pub validation_resolution :
    Candidate → Bytes → DigestReference → DigestReference → Resolution
validation_resolution c candidate_digest candidate_reference provenance_reference = record {
  schema = resolution_schema;
  schema_version = pos 1;
  environment_class = bytes "validation";
  source = record { kind = bytes "candidate"; release_record = candidate_reference };
  release = c.release;
  candidate_digest = candidate_digest;
  resolved = resolved c;
  provenance = record {
    candidate_provenance = provenance_reference;
    system_tests = none;
    promotion = none;
  };
}

abbrev pub production_resolution : ReleasedEnvelope → DigestReference → Resolution
production_resolution v reference = record {
  schema = resolution_schema;
  schema_version = pos 1;
  environment_class = bytes "production";
  source = record { kind = bytes "released"; release_record = reference };
  release = v.release;
  candidate_digest = v.candidate.digest;
  resolved = v.resolved;
  provenance = record {
    candidate_provenance = v.provenance.candidate_provenance;
    system_tests = some v.provenance.system_tests;
    promotion = some v.provenance.promotion;
  };
}

-- The candidate that the resolved set of an envelope is checked as.
abbrev pub candidate_of : ReleasedEnvelope → Candidate
candidate_of v = record {
  schema = [];
  schema_version = pos 1;
  release = v.release;
  status = bytes "candidate";
  components = v.resolved.components;
  modules = v.resolved.modules;
  contracts = v.resolved.contracts;
}

abbrev pub lacks_artifact : Option Bytes → Bool
lacks_artifact none = true
lacks_artifact (some image) = is_mutable (some image)

-- The test runs and the promotion of an envelope.
unfoldable pub check_provenance : SystemTestProvenance → PromotionProvenance → Check ReleaseError
check_provenance tests promotion =
    reject
      (not (tests.repository == test_repository)
        || not (match_string commit_pattern tests.git_commit)
        || not (actions_run_for tests.repository tests.run)
        || not (promotion.repository == promotion_repository)
        || not (actions_run_for promotion.repository promotion.run))
      released_provenance

unfoldable pub check_artifact : Component → Check ReleaseError
check_artifact c = reject (lacks_artifact c.image) released_artifact

module _ ⦃x : External⦄ where
  -- ResolveCandidate
  unfoldable pub resolve_candidate :
      Candidate
      → Bytes
      → Bytes
      → CandidateProvenance
      → DigestReference
      → DigestReference
      → Result ReleaseError Resolution
  resolve_candidate c candidate_raw provenance_raw p candidate_reference provenance_reference = do
    reject
        (not (candidate_reference.digest == digest candidate_raw)
          || not (provenance_reference.digest == digest provenance_raw))
        reference_digest
    validate_digest_reference candidate_reference
    validate_digest_reference provenance_reference
    validate_candidate_provenance c (digest candidate_raw) p
    ok (validation_resolution c (digest candidate_raw) candidate_reference provenance_reference)

  -- ResolveProduction
  unfoldable pub resolve_production :
      ReleasedEnvelope → Bytes → DigestReference → Result ReleaseError Resolution
  resolve_production v envelope_raw reference = do
    reject
        (not (v.schema_version == pos 1)
          || not (v.status == bytes "released")
          || not (match_string release_pattern v.release))
        not_released
    reject (not (reference.digest == digest envelope_raw)) reference_digest
    validate_digest_reference reference
    validate_digest_reference v.candidate
    validate_digest_reference v.provenance.candidate_provenance
    validate_digest_reference v.provenance.system_tests.evidence
    check_provenance v.provenance.system_tests v.provenance.promotion
    validate_candidate (candidate_of v)
    for_each check_artifact v.resolved.components
    ok (production_resolution v reference)
