-- ===== src/Tests/Releases.antt =====
-- The release contract on one component.
use client_api.Prelude.{
  Bytes, bytes, bytes_eq, ◌≡◌, arith, refl, some, ok, err, List, [], ◌∷◌, ◌++◌, pos,
}
use client_api.Types.Candidate.{DigestReference, Candidate, CandidateProvenance, SystemTestEvidence}
use client_api.Types.Release.{PromotionRequest, ReleasedEnvelope, Resolution}
use client_api.Types.Component.{
  CompatibilityGate, ComponentCandidate, CompatibilityEvidence, ReleasedComponent,
}
use client_api.Tests.{program}
use client_api.Tests.Sample.{outside}
use client_api.ReleaseContract.{digest, frozen_path, evidence_missing}
use client_api.ReleaseContract.Candidates.{resolved}
use client_api.ReleaseContract.Envelope.{
  envelope_of, build_released_envelope, validate_released_envelope,
}
use client_api.ReleaseContract.Resolve.{resolve_production}
use client_api.ReleaseContract.Components.{validate_released_component}
use client_api.ReleaseContract.Frozen.{validate_immutable_changes}
use client_api.ReleaseContract.Promotion.{build-validate_released_envelope}
use client_api.ReleaseContract.Production.{build-resolve_production}
use client_api.ReleaseContract.Coverage.{IsPlain, IsCovered, validate_released_component-covers}

abbrev commit : Bytes
commit = bytes "0123456789abcdef0123456789abcdef01234567"

abbrev hash : Bytes
hash = bytes "sha256:0123456789abcdef0123456789abcdef0123456789abcdef0123456789abcdef"

abbrev image : Bytes
image = bytes "ghcr.io/endless-net/api@" ++ hash

abbrev run_of : Bytes → Bytes
run_of repository =
    bytes "https://github.com/endless-net/" ++ (repository ++ bytes "/actions/runs/17")

abbrev candidate : Candidate
candidate = record {
  schema = [];
  schema_version = pos 1;
  release = bytes "2026.1";
  status = bytes "candidate";
  components =
      record {
        name = bytes "api";
        repository = bytes "endless-net/api";
        git_commit = commit;
        image = some image;
      }
      ∷ [];
  modules =
      record {
        path = bytes "example.org/m";
        version = bytes "v1.20.3-rc.1";
        sum = bytes "h1:abcXYZ019+/=";
      }
      ∷ [];
  contracts = [];
}

-- The texts that stand for the records' JSON, of 29 bytes for the sample's SHA-256.
abbrev candidate_raw : Bytes
candidate_raw = bytes "the text of the candidate ..."

abbrev provenance_raw : Bytes
provenance_raw = bytes "the text of the provenance .."

abbrev tests_raw : Bytes
tests_raw = bytes "the text of the test evidence"

abbrev blob : Bytes → Bytes → DigestReference
blob name raw = record {
  uri = bytes "https://github.com/endless-net/releases/blob/" ++ (commit ++ (bytes "/" ++ name));
  digest = digest raw;
}

abbrev provenance : CandidateProvenance
provenance = record {
  schema = [];
  schema_version = pos 1;
  release = bytes "2026.1";
  candidate_digest = digest candidate_raw;
  components =
      record {
        name = bytes "api";
        repository = bytes "endless-net/api";
        git_commit = commit;
        artifact = record { uri = image; digest = hash };
        build = record {
          repository = bytes "endless-net/api";
          source_commit = commit;
          run = run_of (bytes "api");
          attestation_digest = hash;
        };
      }
      ∷ [];
  modules =
      record {
        path = bytes "example.org/m";
        version = bytes "v1.20.3-rc.1";
        sum = bytes "h1:abcXYZ019+/=";
        source = record {
          repository = bytes "endless-net/m";
          git_commit = commit;
          run = run_of (bytes "m");
        };
      }
      ∷ [];
}

abbrev evidence : SystemTestEvidence
evidence = record {
  schema = [];
  schema_version = pos 1;
  candidate_digest = digest candidate_raw;
  result = bytes "passed";
  suite = record {
    repository = bytes "endless-net/system-tests";
    git_commit = commit;
    run = run_of (bytes "system-tests");
  };
}

abbrev promotion : PromotionRequest
promotion = record {
  schema = [];
  schema_version = pos 1;
  candidate = blob (bytes "c.json") candidate_raw;
  candidate_provenance = blob (bytes "p.json") provenance_raw;
  system_test_evidence = blob (bytes "t.json") tests_raw;
  promotion = record {
    repository = bytes "endless-net/client-api";
    run = run_of (bytes "client-api");
    approved_by = [];
  };
}

abbrev envelope : ReleasedEnvelope
envelope = envelope_of candidate evidence promotion

promoted :
    build_released_envelope candidate candidate_raw provenance_raw tests_raw provenance evidence
      promotion
    ≡ ok envelope
unfolding program
promoted = refl

build-validate_released_envelope_example :
    validate_released_envelope envelope candidate candidate_raw provenance_raw tests_raw provenance
      evidence
    ≡ ok tt
build-validate_released_envelope_example =
    build-validate_released_envelope candidate candidate_raw provenance_raw tests_raw provenance
      evidence promotion envelope promoted

abbrev envelope_raw : Bytes
envelope_raw = bytes "the text of the envelope ...."

build-resolve_production_example :
    (r : Resolution) × (resolve_production envelope envelope_raw
        (blob (bytes "e.json") envelope_raw)
      ≡ ok r)
    × (r.release ≡ candidate.release)
    × (r.candidate_digest ≡ digest candidate_raw)
    × (r.resolved ≡ resolved candidate)
    × (r.provenance.system_tests ≡ some envelope.provenance.system_tests)
    × (r.provenance.promotion ≡ some promotion.promotion)
unfolding program
build-resolve_production_example =
    build-resolve_production candidate candidate_raw provenance_raw tests_raw provenance evidence
      promotion envelope envelope_raw (blob (bytes "e.json") envelope_raw) promoted refl refl

abbrev gate : CompatibilityGate
gate = record {
  provider = bytes "api";
  consumer = bytes "agent";
  contract = bytes "map";
  version = pos 12;
}

abbrev component : ComponentCandidate
component = record {
  schema = [];
  schema_version = pos 2;
  kind = bytes "candidate";
  component = bytes "api";
  repository = bytes "endless-net/api";
  git_commit = commit;
  artifact =
      bytes "https://github.com/endless-net/api/releases/download/api-"
      ++ (commit ++ (bytes "-d025/api-" ++ (commit ++ (bytes "-d025.tar.gz@" ++ hash))));
  modules = [];
  contracts = [];
  compatibility_gates = gate ∷ [];
  provenance = record {
    producer_release = blob (bytes "r.json") candidate_raw;
    build = record {
      repository = bytes "endless-net/api";
      source_commit = commit;
      run = run_of (bytes "api");
      attestation_digest = hash;
    };
    attestation_digest = hash;
  };
}

abbrev release_of : List CompatibilityEvidence → ReleasedComponent
release_of covered = record {
  schema = [];
  schema_version = pos 2;
  kind = bytes "released";
  component = bytes "api";
  repository = bytes "endless-net/api";
  git_commit = commit;
  artifact = component.artifact;
  candidate = blob (bytes "c.json") candidate_raw;
  candidate_provenance = blob (bytes "p.json") provenance_raw;
  compatibility_evidence = covered;
  promotion = record {
    repository = bytes "endless-net/releases";
    run = run_of (bytes "releases");
    approved_by = bytes "someone";
  };
}

abbrev covered : List CompatibilityEvidence
covered =
    record {
      provider = bytes "api";
      consumer = bytes "agent";
      contract = bytes "map";
      version = pos 12;
      evidence = blob (bytes "g.json") tests_raw;
    }
    ∷ []

uncovered_refused :
    validate_released_component (release_of []) component candidate_raw ≡ err evidence_missing
unfolding program
uncovered_refused = refl

-- With a NUL byte in the contract's name other evidence has the key of the gate.
abbrev joined_gate : CompatibilityGate
joined_gate = record gate { contract = bytes "a" ++ (0 ∷ bytes "b") }

abbrev joined_component : ComponentCandidate
joined_component = record component { compatibility_gates = joined_gate ∷ [] }

abbrev other_evidence : CompatibilityEvidence
other_evidence = record {
  provider = bytes "api";
  consumer = joined_gate.consumer ++ (0 ∷ bytes "a");
  contract = bytes "b";
  version = joined_gate.version;
  evidence = blob (bytes "g.json") tests_raw;
}

other_evidence_accepted :
    validate_released_component (release_of (other_evidence ∷ [])) joined_component candidate_raw
    ≡ ok tt
unfolding program
other_evidence_accepted = refl

gate-IsPlain : IsPlain gate
unfolding program
gate-IsPlain = record { named = (refl, refl, refl); fits = omega arith }

validate_released_component-covers_example :
    IsCovered component.compatibility_gates (release_of covered).compatibility_evidence
unfolding program
validate_released_component-covers_example =
    validate_released_component-covers (release_of covered) component candidate_raw
      (gate-IsPlain, tt) (omega arith, tt) refl

frozen_refused :
    validate_immutable_changes (bytes "M\tREADME.md\nR100\tx.json\trelease\\evidence\\x.json\n")
    ≡ err frozen_path
unfolding program
frozen_refused = refl
