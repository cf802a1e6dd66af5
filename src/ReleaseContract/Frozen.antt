-- ===== src/ReleaseContract/Frozen.antt =====
-- systemtests/releasecontract/contract.go: the changes that leave the frozen release records alone.
use client_api.Prelude.{
  Bytes, bytes, bytes_eq, Bool, ◌||◌, List, [], ◌∷◌, ◌==◌, nat_eq, map, any, Check, reject,
  for_each, if◌then◌else◌,
}
use client_api.Go.Strings.{trim_space, trim_suffix, split, has_prefix}
use client_api.ReleaseContract.{ReleaseError, frozen_path}

abbrev pub frozen_prefixes : List Bytes
frozen_prefixes =
    bytes "release/candidates/"
    ∷ bytes "release/candidate-provenance/"
    ∷ bytes "release/system-test-evidence/"
    ∷ bytes "release/releases/"
    ∷ bytes "release/evidence/"
    ∷ bytes "release/schemas/"
    ∷ bytes "release/fixtures/"
    ∷ []

-- frozenLegacyReleasePath
unfoldable pub frozen_legacy_release_path : Bytes → Bool
frozen_legacy_release_path path =
    path == bytes "release/manifest.schema.json"
    || path == bytes "release/evidence.schema.json"
    || any (has_prefix path) frozen_prefixes

-- strings.ReplaceAll(path, "\\", "/")
abbrev pub with_slashes : Bytes → Bytes
with_slashes path = map (λ c. if c == 92 then b'/' else c) path

-- The paths of one line of `git diff --name-status`, behind its status.
abbrev pub paths_of : List Bytes → List Bytes
paths_of [] = []
paths_of (status ∷ paths) = paths

unfoldable pub validate_line : Bytes → Check ReleaseError
validate_line line =
    for_each (λ path. reject (frozen_legacy_release_path (with_slashes path)) frozen_path)
      (paths_of (split (trim_suffix line (13 ∷ [])) 9))

-- ValidateImmutableChanges
unfoldable pub validate_immutable_changes : Bytes → Check ReleaseError
validate_immutable_changes changes = for_each validate_line (split (trim_space changes) 10)
