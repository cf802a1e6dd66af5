-- ===== src/ReleaseContract.antt =====
-- systemtests/releasecontract/contract.go: the patterns of release records, digests and references.
pub mod Candidates
pub mod Components
pub mod Envelope
pub mod Resolve
pub mod Frozen
pub mod Promotion
pub mod Production
pub mod GateKeys
pub mod Coverage
pub mod Gates
use client_api.Prelude.{
  Bytes, bytes, bytes_eq, ℕ, Bool, true, false, not, ◌&&◌, ◌||◌, Option, none, some, List, [], ◌∷◌,
  ◌++◌, ◌==◌, nat_eq, Check, ok, err, reject, ◌>>◌, if◌then◌else◌, contains,
}
use client_api.Go.Hex
use client_api.Go.Strings.{has_prefix, drop_bytes}
use client_api.Go.Regexp.{
  Regexp, class, in_order, either, star, match_string, plus, times, optional, literal, is_digit,
  is_lower_hex, is_word, is_no_space,
}
use client_api.Types.Candidate.{DigestReference}
use client_api.External.{External}

-- The errors of the package, one for a message.
pub data ReleaseError : Type 0 where
  candidate_header candidate_empty component_identity component_duplicated artifact_mutable
        module_invalid contract_invalid component_candidate_identity component_candidate_artifact
        component_candidate_provenance gate_invalid gate_duplicated released_binding
        promotion_incomplete gate_unexpected evidence_missing signal_binding provenance_header
        provenance_incomplete provenance_duplicate component_missing component_unpromotable
        component_drift module_drift evidence_invalid request_digest envelope_header resolved_drift
        envelope_provenance reference_digest not_released released_provenance released_artifact
        frozen_path digest_invalid uri_unsupported :
      ReleaseError

abbrev hex_digest : Regexp
hex_digest = in_order (literal (bytes "sha256:")) (times 64 (class is_lower_hex))

abbrev name_bytes : Regexp
name_bytes = plus (class (λ b. is_word b || b == b'.' || b == b'_' || b == b'-'))

abbrev pub digest_pattern : Regexp
digest_pattern = hex_digest

abbrev pub commit_pattern : Regexp
commit_pattern = times 40 (class is_lower_hex)

abbrev pub release_pattern : Regexp
release_pattern = name_bytes

abbrev pub repository_pattern : Regexp
repository_pattern = in_order (literal (bytes "endless-net/")) name_bytes

abbrev pub artifact_reference_pattern : Regexp
artifact_reference_pattern =
    in_order (plus (class is_no_space)) (in_order (literal (bytes "@")) hex_digest)

abbrev pub github_blob_pattern : Regexp
github_blob_pattern = in_order (literal (bytes "https://github.com/endless-net/")) (
    in_order name_bytes (
      in_order (literal (bytes "/blob/")) (
        in_order commit_pattern
          (in_order (literal (bytes "/")) (plus (class (λ b. not (b == b'?' || b == b'#'))))))))

abbrev pub actions_run_pattern : Regexp
actions_run_pattern = in_order (literal (bytes "https://github.com/endless-net/")) (
    in_order name_bytes (
      in_order (literal (bytes "/actions/runs/"))
        (in_order (class (λ b. is_digit b && not (b == b'0'))) (star (class is_digit)))))

abbrev digits : Regexp
digits = plus (class is_digit)

abbrev pub version_pattern : Regexp
version_pattern = in_order (literal (bytes "v")) (
    in_order digits (
      in_order (literal (bytes ".")) (
        in_order digits (
          in_order (literal (bytes ".")) (
            in_order digits (
              optional (
                in_order (literal (bytes "-"))
                  (plus (class (λ b. is_word b || b == b'.' || b == b'-'))))))))))

abbrev pub sum_pattern : Regexp
sum_pattern =
    in_order (literal (bytes "h1:"))
      (plus (class (λ b. is_word b || b == b'+' || b == b'/' || b == b'=')))

abbrev pub event_id_pattern : Regexp
event_id_pattern = plus (class (λ b. is_word b || b == b'.' || b == b'_' || b == b':' || b == b'-'))

module _ ⦃x : External⦄ where
  -- Digest
  unfoldable pub digest : Bytes → Bytes
  digest raw = bytes "sha256:" ++ Hex.encode (x.sha256 raw)

-- validateDigestReference
unfoldable pub validate_digest_reference : DigestReference → Check ReleaseError
validate_digest_reference reference = do
  reject (not (match_string digest_pattern reference.digest)) digest_invalid
  reject
      (not (match_string github_blob_pattern reference.uri)
        && not (match_string artifact_reference_pattern reference.uri))
      uri_unsupported

-- The text from the last "@sha256:" on, without the "@".
unfoldable pub artifact_digest : Bytes → Bytes
artifact_digest [] = []
artifact_digest (c ∷ s) =
    let later = artifact_digest s in
    if later == [] && has_prefix (c ∷ s) (bytes "@sha256:") then s else later

-- actionsRunFor
unfoldable pub actions_run_for : Bytes → Bytes → Bool
actions_run_for repository run =
    match_string actions_run_pattern run
    && has_prefix run (bytes "https://github.com/" ++ (repository ++ bytes "/actions/runs/"))

-- releaseArtifactReferenceForComponent
unfoldable pub release_artifact_reference_for_component : Bytes → Bytes → Bytes → Bytes → Bool
release_artifact_reference_for_component component repository commit reference =
    let name = component ++ (bytes "-" ++ (commit ++ bytes "-d025")) in
    let prefix =
      bytes "https://github.com/"
      ++ (repository
          ++ (bytes "/releases/download/"
              ++ (name ++ (bytes "/" ++ (name ++ bytes ".tar.gz@"))))) in
    repository == bytes "endless-net/" ++ component
    && has_prefix reference prefix
    && match_string artifact_reference_pattern reference
