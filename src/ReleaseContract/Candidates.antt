-- ===== src/ReleaseContract/Candidates.antt =====
-- systemtests/releasecontract/contract.go: candidates, their provenance and the system tests.
use client_api.Prelude.{
  Bytes, bytes, bytes_eq, int_eq, nat_eq, pos, ltb_ℤ, Bool, true, false, not, ◌||◌, Option, none,
  some, List, [], ◌∷◌, ◌==◌, length, Check, ok, err, reject, ◌>>◌, for_each, if◌then◌else◌,
  contains,
}
use client_api.Go.Regexp.{match_string}
use client_api.Types.Candidate.{
  Component, Module, Contract, ResolvedSet, Candidate, ComponentProvenance, ModuleProvenance,
  CandidateProvenance, SystemTestEvidence,
}
use client_api.ReleaseContract.{
  ReleaseError, candidate_header, candidate_empty, component_identity, component_duplicated,
  artifact_mutable, module_invalid, contract_invalid, provenance_header, provenance_incomplete,
  provenance_duplicate, component_missing, component_unpromotable, component_drift, module_drift,
  evidence_invalid, release_pattern, repository_pattern, commit_pattern, version_pattern,
  sum_pattern, artifact_reference_pattern, digest_pattern, artifact_digest, actions_run_for,
}

-- Resolved
unfoldable pub resolved : Candidate → ResolvedSet
resolved c = record { components = c.components; modules = c.modules; contracts = c.contracts }

abbrev pub is_mutable : Option Bytes → Bool
is_mutable none = false
is_mutable (some image) = not (match_string artifact_reference_pattern image)

abbrev pub is_bad_identity : Component → Bool
is_bad_identity c =
    not (match_string release_pattern c.name)
    || not (match_string repository_pattern c.repository)
    || not (match_string commit_pattern c.git_commit)

-- ValidateCandidate, the loop over the components: the names and repositories seen come first.
unfoldable pub validate_components : List Bytes → List Bytes → List Component → Check ReleaseError
validate_components names repositories [] = ok tt
validate_components names repositories (c ∷ cs) = do
  reject (is_bad_identity c) component_identity
  reject (contains c.name names || contains c.repository repositories) component_duplicated
  reject (is_mutable c.image) artifact_mutable
  validate_components (c.name ∷ names) (c.repository ∷ repositories) cs

abbrev pub is_bad_module : List Bytes → Module → Bool
is_bad_module paths m =
    m.path == []
    || contains m.path paths
    || not (match_string version_pattern m.version)
    || not (match_string sum_pattern m.sum)

-- The loop over the modules, which ValidateComponentCandidate has as well.
unfoldable pub validate_modules : List Bytes → List Module → Check ReleaseError
validate_modules paths [] = ok tt
validate_modules paths (m ∷ ms) = do
  reject (is_bad_module paths m) module_invalid
  validate_modules (m.path ∷ paths) ms

abbrev pub is_bad_contract : List Bytes → Contract → Bool
is_bad_contract names c =
    c.name == []
    || contains c.name names
    || ltb_ℤ c.version (pos 1)
    || not (c.architecture_repository == bytes "endless-net/architecture")
    || not (match_string commit_pattern c.architecture_commit)

-- The loop over the contracts, which ValidateComponentCandidate has as well.
unfoldable pub validate_contracts : List Bytes → List Contract → Check ReleaseError
validate_contracts names [] = ok tt
validate_contracts names (c ∷ cs) = do
  reject (is_bad_contract names c) contract_invalid
  validate_contracts (c.name ∷ names) cs

-- ValidateCandidate
unfoldable pub validate_candidate : Candidate → Check ReleaseError
validate_candidate c = do
  reject
      (not (c.schema_version == pos 1)
        || not (match_string release_pattern c.release)
        || not (c.status == bytes "candidate"))
      candidate_header
  reject (length c.components == 0) candidate_empty
  validate_components [] [] c.components
  validate_modules [] c.modules
  validate_contracts [] c.contracts

-- ValidateCandidateProvenance, the loop that indexes the components by name.
unfoldable pub reject_duplicate_names : List Bytes → List ComponentProvenance → Check ReleaseError
reject_duplicate_names names [] = ok tt
reject_duplicate_names names (p ∷ ps) = do
  reject (contains p.name names) provenance_duplicate
  reject_duplicate_names (p.name ∷ names) ps

unfoldable pub reject_duplicate_paths : List Bytes → List ModuleProvenance → Check ReleaseError
reject_duplicate_paths paths [] = ok tt
reject_duplicate_paths paths (p ∷ ps) = do
  reject (contains p.path paths) provenance_duplicate
  reject_duplicate_paths (p.path ∷ paths) ps

-- The lookup in the index, where a name leads to one entry.
unfoldable pub component_named : Bytes → List ComponentProvenance → Option ComponentProvenance
component_named name [] = none
component_named name (p ∷ ps) = if p.name == name then some p else component_named name ps

unfoldable pub module_at : Bytes → List ModuleProvenance → Option ModuleProvenance
module_at path [] = none
module_at path (p ∷ ps) = if p.path == path then some p else module_at path ps

unfoldable pub check_item :
    Component → Option ComponentProvenance → Option Bytes → Check ReleaseError
check_item c none image = err component_missing
check_item c (some p) none = err component_unpromotable
check_item c (some p) (some image) = do
  reject
      (not (p.repository == c.repository)
        || not (p.git_commit == c.git_commit)
        || not (p.artifact.uri == image)
        || not (p.artifact.digest == artifact_digest image))
      component_drift
  reject
      (not (p.build.repository == c.repository)
        || not (p.build.source_commit == c.git_commit)
        || not (actions_run_for c.repository p.build.run)
        || not (match_string digest_pattern p.build.attestation_digest))
      component_drift

unfoldable pub check_component : List ComponentProvenance → Component → Check ReleaseError
check_component items c = check_item c (component_named c.name items) c.image

abbrev pub is_drifted : Module → Option ModuleProvenance → Bool
is_drifted m none = true
is_drifted m (some p) =
    not (p.version == m.version)
    || not (p.sum == m.sum)
    || not (match_string repository_pattern p.source.repository)
    || not (match_string commit_pattern p.source.git_commit)
    || not (actions_run_for p.source.repository p.source.run)

unfoldable pub check_module : List ModuleProvenance → Module → Check ReleaseError
check_module items m = reject (is_drifted m (module_at m.path items)) module_drift

-- ValidateCandidateProvenance
unfoldable pub validate_candidate_provenance :
    Candidate → Bytes → CandidateProvenance → Check ReleaseError
validate_candidate_provenance c candidate_digest p = do
  validate_candidate c
  reject
      (not (match_string digest_pattern candidate_digest)
        || not (p.schema_version == pos 1)
        || not (p.release == c.release)
        || not (p.candidate_digest == candidate_digest))
      provenance_header
  reject
      (not (length p.components == length c.components)
        || not (length p.modules == length c.modules))
      provenance_incomplete
  reject_duplicate_names [] p.components
  for_each (check_component p.components) c.components
  reject_duplicate_paths [] p.modules
  for_each (check_module p.modules) c.modules

abbrev pub test_repository : Bytes
test_repository = bytes "endless-net/system-tests"

-- ValidateSystemTestEvidence
unfoldable pub validate_system_test_evidence : Bytes → SystemTestEvidence → Check ReleaseError
validate_system_test_evidence candidate_digest e =
    reject
      (not (e.schema_version == pos 1)
        || not (e.candidate_digest == candidate_digest)
        || not (e.result == bytes "passed")
        || not (e.suite.repository == test_repository)
        || not (match_string commit_pattern e.suite.git_commit)
        || not (actions_run_for e.suite.repository e.suite.run))
      evidence_invalid
