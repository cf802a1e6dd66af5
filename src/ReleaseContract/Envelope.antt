-- ===== src/ReleaseContract/Envelope.antt =====
-- systemtests/releasecontract/contract.go: the promotion of a candidate to a released envelope, and
-- what an environment resolves to.
use client_api.Prelude.{
  Bytes, bytes, bytes_eq, int_eq, pos, Bool, true, false, not, ◌&&◌, ◌||◌, Option, none, some, List,
  [], ◌∷◌, ◌==◌, Check, Result, ok, reject, ◌>>◌, ◌>>=◌, for_each, nat_eq,
}
use client_api.Types.Candidate.{
  DigestReference, Component, Module, Contract, ResolvedSet, Candidate, CandidateProvenance,
  SystemTestEvidence,
}
use client_api.Types.Release.{PromotionRequest, ReleaseProvenance, ReleasedEnvelope}
use client_api.External.{External}
use client_api.ReleaseContract.{
  ReleaseError, request_digest, promotion_incomplete, envelope_header, resolved_drift,
  envelope_provenance, digest, validate_digest_reference, actions_run_for,
}
use client_api.ReleaseContract.Candidates.{
  resolved, validate_candidate_provenance, validate_system_test_evidence,
}

abbrev pub released_envelope_schema : Bytes
released_envelope_schema =
    bytes "https://endlessnet.ru/contracts/release/v1/released-envelope.schema.json"

abbrev pub resolution_schema : Bytes
resolution_schema = bytes "https://endlessnet.ru/contracts/release/v1/resolution.schema.json"

abbrev pub promotion_repository : Bytes
promotion_repository = bytes "endless-net/client-api"

-- The envelope that the checks of BuildReleasedEnvelope lead to.
abbrev pub envelope_of : Candidate → SystemTestEvidence → PromotionRequest → ReleasedEnvelope
envelope_of c e q = record {
  schema = released_envelope_schema;
  schema_version = pos 1;
  release = c.release;
  status = bytes "released";
  candidate = q.candidate;
  resolved = resolved c;
  provenance = record {
    candidate_provenance = q.candidate_provenance;
    system_tests = record {
      evidence = q.system_test_evidence;
      repository = e.suite.repository;
      git_commit = e.suite.git_commit;
      run = e.suite.run;
    };
    promotion = q.promotion;
  };
}

module _ ⦃x : External⦄ where
  -- The checks of BuildReleasedEnvelope. It runs through the three references in the order of a Go
  -- map, which is not fixed.
  unfoldable pub check_promotion :
      Candidate
      → Bytes
      → Bytes
      → Bytes
      → CandidateProvenance
      → SystemTestEvidence
      → PromotionRequest
      → Check ReleaseError
  check_promotion c candidate_raw provenance_raw system_test_raw p e q = do
    reject
        (not (q.schema_version == pos 1)
          || not (q.candidate.digest == digest candidate_raw)
          || not (q.candidate_provenance.digest == digest provenance_raw)
          || not (q.system_test_evidence.digest == digest system_test_raw))
        request_digest
    for_each validate_digest_reference
        (q.candidate ∷ q.candidate_provenance ∷ q.system_test_evidence ∷ [])
    reject
        (not (q.promotion.repository == promotion_repository)
          || not (actions_run_for q.promotion.repository q.promotion.run))
        promotion_incomplete
    validate_candidate_provenance c (digest candidate_raw) p
    validate_system_test_evidence (digest candidate_raw) e

  -- BuildReleasedEnvelope
  unfoldable pub build_released_envelope :
      Candidate
      → Bytes
      → Bytes
      → Bytes
      → CandidateProvenance
      → SystemTestEvidence
      → PromotionRequest
      → Result ReleaseError ReleasedEnvelope
  build_released_envelope c candidate_raw provenance_raw system_test_raw p e q =
      check_promotion c candidate_raw provenance_raw system_test_raw p e q >> ok (envelope_of c e q)

-- reflect.DeepEqual on the records of an envelope, where a nil slice and an empty one are the same.
abbrev pub reference_beq : DigestReference → DigestReference → Bool
reference_beq a b = a.uri == b.uri && a.digest == b.digest

unfoldable pub lists_beq : {A : Type 0} → (A → A → Bool) → List A → List A → Bool
lists_beq eq [] [] = true
lists_beq eq (a ∷ as') (b ∷ bs) = eq a b && lists_beq eq as' bs
lists_beq eq _ _ = false

abbrev pub image_beq : Option Bytes → Option Bytes → Bool
image_beq none none = true
image_beq (some a) (some b) = a == b
image_beq _ _ = false

abbrev pub component_beq : Component → Component → Bool
component_beq a b =
    a.name == b.name
    && a.repository == b.repository
    && a.git_commit == b.git_commit
    && image_beq a.image b.image

abbrev pub module_beq : Module → Module → Bool
module_beq a b = a.path == b.path && a.version == b.version && a.sum == b.sum

abbrev pub contract_beq : Contract → Contract → Bool
contract_beq a b =
    a.name == b.name
    && a.version == b.version
    && a.architecture_repository == b.architecture_repository
    && a.architecture_commit == b.architecture_commit

unfoldable pub resolved_beq : ResolvedSet → ResolvedSet → Bool
resolved_beq a b =
    lists_beq component_beq a.components b.components
    && lists_beq module_beq a.modules b.modules
    && lists_beq contract_beq a.contracts b.contracts

unfoldable pub provenance_beq : ReleaseProvenance → ReleaseProvenance → Bool
provenance_beq a b =
    reference_beq a.candidate_provenance b.candidate_provenance
    && reference_beq a.system_tests.evidence b.system_tests.evidence
    && a.system_tests.repository == b.system_tests.repository
    && a.system_tests.git_commit == b.system_tests.git_commit
    && a.system_tests.run == b.system_tests.run
    && a.promotion.repository == b.promotion.repository
    && a.promotion.run == b.promotion.run
    && a.promotion.approved_by == b.promotion.approved_by

-- The request that ValidateReleasedEnvelope reads off the envelope.
abbrev pub request_of : ReleasedEnvelope → PromotionRequest
request_of v = record {
  schema = [];
  schema_version = pos 1;
  candidate = v.candidate;
  candidate_provenance = v.provenance.candidate_provenance;
  system_test_evidence = v.provenance.system_tests.evidence;
  promotion = v.provenance.promotion;
}

module _ ⦃x : External⦄ where
  -- ValidateReleasedEnvelope
  unfoldable pub validate_released_envelope :
      ReleasedEnvelope
      → Candidate
      → Bytes
      → Bytes
      → Bytes
      → CandidateProvenance
      → SystemTestEvidence
      → Check ReleaseError
  validate_released_envelope v c candidate_raw provenance_raw system_test_raw p e = do
    expected ←
        build_released_envelope c candidate_raw provenance_raw system_test_raw p e (request_of v)
    reject
        (not (v.schema_version == pos 1)
          || not (v.status == bytes "released")
          || not (v.release == c.release))
        envelope_header
    reject (not (resolved_beq v.resolved (resolved c))) resolved_drift
    reject
        (not (reference_beq v.candidate expected.candidate)
          || not (provenance_beq v.provenance expected.provenance))
        envelope_provenance
