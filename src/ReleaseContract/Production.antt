-- ===== src/ReleaseContract/Production.antt =====
-- Production accepts what was promoted.
use client_api.Prelude.{
  Bytes, bytes, bytes_eq, bytes_beq_iff, int_eq, int_beq_iff, nat_eq, pos, true, false, not, ◌||◌,
  Option, none, some, List, [], ◌∷◌, ◌==◌, ◌≡◌, refl, length, ok, for_each, All, for_each-eq-ok,
  for_each-All, arith, contains, beq_refl, reject-eq-ok, reject-ok, >>-eq-ok,
}
use client_api.Go.Regexp.{match_string}
use client_api.Types.Candidate.{
  DigestReference, Component, Candidate, ComponentProvenance, CandidateProvenance,
  SystemTestEvidence,
}
use client_api.Types.Release.{PromotionRequest, ReleasedEnvelope, Resolution}
use client_api.External.{External}
use client_api.ReleaseContract.{
  digest, validate_digest_reference, release_pattern, commit_pattern, actions_run_for,
  candidate_header, candidate_empty, component_identity, component_duplicated, artifact_mutable,
  evidence_invalid, provenance_header, provenance_incomplete, digest_pattern,
}
use client_api.ReleaseContract.Candidates.{
  resolved, validate_candidate, validate_components, validate_modules, validate_contracts,
  validate_candidate_provenance, validate_system_test_evidence, check_component, check_item,
  component_named, is_mutable, is_bad_identity, test_repository, reject_duplicate_names,
}
use client_api.ReleaseContract.Envelope.{envelope_of, build_released_envelope, promotion_repository}
use client_api.ReleaseContract.Resolve.{
  candidate_of, lacks_artifact, production_resolution, check_artifact, check_provenance,
  resolve_production,
}
use client_api.ReleaseContract.Promotion.{IsPromotable, made_of}

validate_components-immutable :
    (names repositories : List Bytes) (cs : List Component)
    → validate_components names repositories cs ≡ ok tt
    → All (λ c. is_mutable c.image ≡ false) cs
unfolding validate_components
validate_components-immutable names repositories [] h = tt
validate_components-immutable names repositories (c ∷ cs) h =
    let (a, h1) = reject-eq-ok (is_bad_identity c) component_identity _ h in
    let (b, h2) =
      reject-eq-ok (contains c.name names || contains c.repository repositories)
        component_duplicated _ h1 in
    let (d, h3) = reject-eq-ok (is_mutable c.image) artifact_mutable _ h2 in
    (d, validate_components-immutable (c.name ∷ names) (c.repository ∷ repositories) cs h3)

-- What validation has found of a candidate.
record IsCandidate (c : Candidate) : Type 0 where
  version : c.schema_version ≡ pos 1
  named : match_string release_pattern c.release ≡ true
  status : c.status ≡ bytes "candidate"
  nonempty : (length c.components == 0) ≡ false
  components : validate_components [] [] c.components ≡ ok tt
  modules : validate_modules [] c.modules ≡ ok tt
  contracts : validate_contracts [] c.contracts ≡ ok tt

validate_candidate-IsCandidate : (c : Candidate) → validate_candidate c ≡ ok tt → IsCandidate c
unfolding validate_candidate
validate_candidate-IsCandidate c h =
    let (a, h1) =
      reject-eq-ok
        (not (c.schema_version == pos 1)
          || not (match_string release_pattern c.release)
          || not (c.status == bytes "candidate"))
        candidate_header _ h in
    let (b, h2) = reject-eq-ok (length c.components == 0) candidate_empty _ h1 in
    let (d, h3) = >>-eq-ok (validate_components [] [] c.components) _ h2 in
    let (f, g) = >>-eq-ok (validate_modules [] c.modules) _ h3 in
    record {
      version = ground (arith, int_beq_iff c.schema_version (pos 1));
      named = ground arith;
      status = ground (arith, bytes_beq_iff c.status (bytes "candidate"));
      nonempty = b;
      components = d;
      modules = f;
      contracts = g;
    }

IsCandidate-candidate_of :
    (c : Candidate) (e : SystemTestEvidence) (q : PromotionRequest)
    → IsCandidate c
    → validate_candidate (candidate_of (envelope_of c e q)) ≡ ok tt
unfolding validate_candidate resolved
IsCandidate-candidate_of c e q i =
    simp (i.named, i.nonempty, i.components, i.modules, i.contracts, beq_refl (bytes "candidate"))

check_item-has_image :
    (c : Component) (o : Option ComponentProvenance) (image : Option Bytes)
    → check_item c o image ≡ ok tt
    → is_mutable image ≡ false
    → lacks_artifact image ≡ false
unfolding check_item
check_item-has_image c none image h m = cc
check_item-has_image c (some p) none h m = cc
check_item-has_image c (some p) (some image) h m = m

check_component-artifact :
    (items : List ComponentProvenance) (c : Component)
    → check_component items c ≡ ok tt
    → is_mutable c.image ≡ false
    → check_artifact c ≡ ok tt
unfolding check_component check_artifact
check_component-artifact items c h m =
    rw (check_item-has_image c (component_named c.name items) c.image h m) refl

validate_candidate_provenance-eq-ok :
    (c : Candidate) (candidate_digest : Bytes) (p : CandidateProvenance)
    → validate_candidate_provenance c candidate_digest p ≡ ok tt
    → IsCandidate c × All (λ d. check_component p.components d ≡ ok tt) c.components
unfolding validate_candidate_provenance
validate_candidate_provenance-eq-ok c candidate_digest p h =
    let (a, h1) = >>-eq-ok (validate_candidate c) _ h in
    let (_, h2) =
      reject-eq-ok
        (not (match_string digest_pattern candidate_digest)
          || not (p.schema_version == pos 1)
          || not (p.release == c.release)
          || not (p.candidate_digest == candidate_digest))
        provenance_header _ h1 in
    let (_, h3) =
      reject-eq-ok
        (not (length p.components == length c.components)
          || not (length p.modules == length c.modules))
        provenance_incomplete _ h2 in
    let (_, h4) = >>-eq-ok (reject_duplicate_names [] p.components) _ h3 in
    let (b, _) = >>-eq-ok (for_each (check_component p.components) c.components) _ h4 in
    (
      validate_candidate-IsCandidate c a,
      for_each-eq-ok (check_component p.components) c.components b,
    )

check_artifacts :
    (items : List ComponentProvenance) (cs : List Component)
    → All (λ d. check_component items d ≡ ok tt) cs
    → All (λ d. is_mutable d.image ≡ false) cs
    → All (λ d. check_artifact d ≡ ok tt) cs
check_artifacts items [] h m = tt
check_artifacts items (c ∷ cs) (h, hs) (m, ms) =
    (check_component-artifact items c h m, check_artifacts items cs hs ms)

tested_suite :
    (candidate_digest : Bytes) (e : SystemTestEvidence)
    → validate_system_test_evidence candidate_digest e ≡ ok tt
    → (e.suite.repository ≡ test_repository)
      × (match_string commit_pattern e.suite.git_commit ≡ true)
      × (actions_run_for e.suite.repository e.suite.run ≡ true)
unfolding validate_system_test_evidence
tested_suite candidate_digest e h =
    let a =
      reject-ok
        (not (e.schema_version == pos 1)
          || not (e.candidate_digest == candidate_digest)
          || not (e.result == bytes "passed")
          || not (e.suite.repository == test_repository)
          || not (match_string commit_pattern e.suite.git_commit)
          || not (actions_run_for e.suite.repository e.suite.run))
        evidence_invalid h in
    (ground (arith, bytes_beq_iff e.suite.repository test_repository), ground arith, ground arith)

module _ ⦃x : External⦄ (c : Candidate) (candidate_raw provenance_raw system_test_raw : Bytes)
    (p : CandidateProvenance) (e : SystemTestEvidence) (q : PromotionRequest) where
  promoted_provenance :
      IsPromotable c candidate_raw provenance_raw system_test_raw p e q
      → check_provenance (envelope_of c e q).provenance.system_tests q.promotion ≡ ok tt
  unfolding check_provenance
  promoted_provenance i =
      let (named, commit, ran) = tested_suite (digest candidate_raw) e i.tested in
      simp (
        named,
        commit,
        rw named at ran,
        i.repository,
        i.run,
        beq_refl test_repository,
        beq_refl promotion_repository,
      )

  -- An envelope that BuildReleasedEnvelope makes resolves for production, under any valid reference
  -- with the digest of the envelope's record: to the candidate's own release and set of artifacts,
  -- the digest of the candidate's record, and the tests and the promotion of the envelope.
  pub build-resolve_production :
      (v : ReleasedEnvelope) (envelope_raw : Bytes) (reference : DigestReference)
      → build_released_envelope c candidate_raw provenance_raw system_test_raw p e q ≡ ok v
      → reference.digest ≡ digest envelope_raw
      → validate_digest_reference reference ≡ ok tt
      → (r : Resolution) × (resolve_production v envelope_raw reference ≡ ok r)
        × (r.release ≡ c.release)
        × (r.candidate_digest ≡ digest candidate_raw)
        × (r.resolved ≡ resolved c)
        × (r.provenance.system_tests ≡ some v.provenance.system_tests)
        × (r.provenance.promotion ≡ some q.promotion)
  unfolding resolve_production resolved
  build-resolve_production v envelope_raw reference h bound valid =
      let (i, same) = made_of c candidate_raw provenance_raw system_test_raw p e q v h in
      let (d, items) = validate_candidate_provenance-eq-ok c (digest candidate_raw) p i.covered in
      let immutable = validate_components-immutable [] [] c.components d.components in
      let artifacts =
        for_each-All check_artifact c.components
          (check_artifacts p.components c.components items immutable) in
      rw (← same) (
        production_resolution (envelope_of c e q) reference,
        simp (
          beq_refl (bytes "released"),
          d.named,
          bound,
          beq_refl (digest envelope_raw),
          valid,
          i.candidate_reference,
          i.provenance_reference,
          i.tests_reference,
          promoted_provenance i,
          IsCandidate-candidate_of c e q d,
          artifacts,
        ),
        refl,
        i.candidate_bound,
        refl,
        refl,
        refl,
      )
