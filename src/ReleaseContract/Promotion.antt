-- ===== src/ReleaseContract/Promotion.antt =====
-- What is promoted validates, and production accepts it.
use client_api.Prelude.{
  Bytes, bytes, bytes_eq, bytes_beq_iff, int_eq, int_beq_iff, nat_eq, pos, Bool, true, not, ◌||◌,
  Option, none, some, List, [], ◌∷◌, ◌==◌, ◌≡◌, refl, ok, for_each, for_each-eq-ok, arith, beq_refl,
  reject-eq-ok, >>-eq-ok,
}
use client_api.Types.Candidate.{
  Component, Module, Contract, Candidate, CandidateProvenance, SystemTestEvidence,
}
use client_api.Types.Release.{ReleaseProvenance, PromotionRequest, ReleasedEnvelope}
use client_api.External.{External}
use client_api.ReleaseContract.{
  digest, validate_digest_reference, actions_run_for, request_digest, promotion_incomplete,
}
use client_api.ReleaseContract.Candidates.{
  resolved, validate_candidate_provenance, validate_system_test_evidence,
}
use client_api.ReleaseContract.Envelope.{
  envelope_of, request_of, check_promotion, build_released_envelope, validate_released_envelope,
  lists_beq, image_beq, component_beq, module_beq, contract_beq, resolved_beq, provenance_beq,
  promotion_repository,
}

lists_beq_refl :
    {A : Type 0} (eq : A → A → Bool)
    → ((a : A) → eq a a ≡ true)
    → (xs : List A) → lists_beq eq xs xs ≡ true
unfolding lists_beq
lists_beq_refl eq h [] = refl
lists_beq_refl eq h (x ∷ xs) = rw (h x) (lists_beq_refl eq h xs)

image_beq_refl : (o : Option Bytes) → image_beq o o ≡ true
image_beq_refl none = refl
image_beq_refl (some image) = beq_refl image

component_beq_refl : (c : Component) → component_beq c c ≡ true
component_beq_refl c =
    simp (beq_refl c.name, beq_refl c.repository, beq_refl c.git_commit, image_beq_refl c.image)

module_beq_refl : (m : Module) → module_beq m m ≡ true
module_beq_refl m = simp (beq_refl m.path, beq_refl m.version, beq_refl m.sum)

contract_beq_refl : (c : Contract) → contract_beq c c ≡ true
contract_beq_refl c = simp (
  beq_refl c.name,
  beq_refl c.version,
  beq_refl c.architecture_repository,
  beq_refl c.architecture_commit,
)

resolved_beq_refl : (c : Candidate) → resolved_beq (resolved c) (resolved c) ≡ true
unfolding resolved_beq resolved
resolved_beq_refl c = simp (
  lists_beq_refl component_beq component_beq_refl c.components,
  lists_beq_refl module_beq module_beq_refl c.modules,
  lists_beq_refl contract_beq contract_beq_refl c.contracts,
)

provenance_beq_refl : (r : ReleaseProvenance) → provenance_beq r r ≡ true
unfolding provenance_beq
provenance_beq_refl r = simp (
  beq_refl r.candidate_provenance.uri,
  beq_refl r.candidate_provenance.digest,
  beq_refl r.system_tests.evidence.uri,
  beq_refl r.system_tests.evidence.digest,
  beq_refl r.system_tests.repository,
  beq_refl r.system_tests.git_commit,
  beq_refl r.system_tests.run,
  beq_refl r.promotion.repository,
  beq_refl r.promotion.run,
  beq_refl r.promotion.approved_by,
)

module _ ⦃x : External⦄ (c : Candidate) (candidate_raw provenance_raw system_test_raw : Bytes)
    (p : CandidateProvenance) (e : SystemTestEvidence) (q : PromotionRequest) where
  -- What the checks of a promotion have found.
  pub record IsPromotable : Type 0 where
    pub version : q.schema_version ≡ pos 1
    pub candidate_bound : q.candidate.digest ≡ digest candidate_raw
    pub provenance_bound : q.candidate_provenance.digest ≡ digest provenance_raw
    pub tests_bound : q.system_test_evidence.digest ≡ digest system_test_raw
    pub candidate_reference : validate_digest_reference q.candidate ≡ ok tt
    pub provenance_reference : validate_digest_reference q.candidate_provenance ≡ ok tt
    pub tests_reference : validate_digest_reference q.system_test_evidence ≡ ok tt
    pub repository : q.promotion.repository ≡ promotion_repository
    pub run : actions_run_for promotion_repository q.promotion.run ≡ true
    pub covered : validate_candidate_provenance c (digest candidate_raw) p ≡ ok tt
    pub tested : validate_system_test_evidence (digest candidate_raw) e ≡ ok tt

  check_promotion-IsPromotable :
      check_promotion c candidate_raw provenance_raw system_test_raw p e q ≡ ok tt → IsPromotable
  unfolding check_promotion
  check_promotion-IsPromotable h =
      let (a, h1) =
        reject-eq-ok
          (not (q.schema_version == pos 1)
            || not (q.candidate.digest == digest candidate_raw)
            || not (q.candidate_provenance.digest == digest provenance_raw)
            || not (q.system_test_evidence.digest == digest system_test_raw))
          request_digest _ h in
      let (b, h2) =
        >>-eq-ok
          (for_each validate_digest_reference
            (q.candidate ∷ q.candidate_provenance ∷ q.system_test_evidence ∷ []))
          _ h1 in
      let (r0, (r1, (r2, _))) =
        for_each-eq-ok validate_digest_reference
          (q.candidate ∷ q.candidate_provenance ∷ q.system_test_evidence ∷ []) b in
      let (d, h3) =
        reject-eq-ok
          (not (q.promotion.repository == promotion_repository)
            || not (actions_run_for q.promotion.repository q.promotion.run))
          promotion_incomplete _ h2 in
      let (f, g) = >>-eq-ok (validate_candidate_provenance c (digest candidate_raw) p) _ h3 in
      let named : q.promotion.repository ≡ promotion_repository =
        ground (arith, bytes_beq_iff q.promotion.repository promotion_repository) in
      let ran : actions_run_for q.promotion.repository q.promotion.run ≡ true = ground arith in
      record {
        version = ground (arith, int_beq_iff q.schema_version (pos 1));
        candidate_bound = ground (arith, bytes_beq_iff q.candidate.digest (digest candidate_raw));
        provenance_bound =
            ground (arith, bytes_beq_iff q.candidate_provenance.digest (digest provenance_raw));
        tests_bound =
            ground (arith, bytes_beq_iff q.system_test_evidence.digest (digest system_test_raw));
        candidate_reference = r0;
        provenance_reference = r1;
        tests_reference = r2;
        repository = named;
        run = rw named at ran;
        covered = f;
        tested = g;
      }

  IsPromotable-check_promotion :
      IsPromotable
      → check_promotion c candidate_raw provenance_raw system_test_raw p e
          (request_of (envelope_of c e q))
        ≡ ok tt
  unfolding check_promotion for_each
  IsPromotable-check_promotion i = simp (
    i.candidate_bound,
    i.provenance_bound,
    i.tests_bound,
    i.candidate_reference,
    i.provenance_reference,
    i.tests_reference,
    i.repository,
    i.run,
    i.covered,
    i.tested,
    beq_refl (digest candidate_raw),
    beq_refl (digest provenance_raw),
    beq_refl (digest system_test_raw),
    beq_refl promotion_repository,
  )

  pub made_of :
      (v : ReleasedEnvelope)
      → build_released_envelope c candidate_raw provenance_raw system_test_raw p e q ≡ ok v
      → IsPromotable × (envelope_of c e q ≡ v)
  unfolding build_released_envelope
  made_of v h =
      let (a, b) =
        >>-eq-ok (check_promotion c candidate_raw provenance_raw system_test_raw p e q) _ h in
      (check_promotion-IsPromotable a, cc b)

  -- An envelope that BuildReleasedEnvelope makes passes ValidateReleasedEnvelope against the same
  -- records.
  pub build-validate_released_envelope :
      (v : ReleasedEnvelope)
      → build_released_envelope c candidate_raw provenance_raw system_test_raw p e q ≡ ok v
      → validate_released_envelope v c candidate_raw provenance_raw system_test_raw p e ≡ ok tt
  unfolding validate_released_envelope build_released_envelope
  build-validate_released_envelope v h =
      let (i, same) = made_of v h in
      rw (← same) (
        simp (
          IsPromotable-check_promotion i,
          resolved_beq_refl c,
          provenance_beq_refl (envelope_of c e q).provenance,
          beq_refl q.candidate.uri,
          beq_refl q.candidate.digest,
          beq_refl c.release,
          beq_refl (bytes "released"),
        ))
