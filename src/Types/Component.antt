-- ===== src/Types/Component.antt =====
-- systemtests/releasecontract/types.go: the records of one component.
use client_api.Prelude.{Bytes, ℤ, List}
use client_api.Types.Candidate.{DigestReference, Module, Contract, BuildProvenance}
use client_api.Types.Release.{PromotionProvenance}

pub record ComponentCandidateProvenance : Type 0 where
  pub producer_release : DigestReference
  pub build : BuildProvenance
  pub attestation_digest : Bytes

pub record CompatibilityGate : Type 0 where
  pub provider : Bytes
  pub consumer : Bytes
  pub contract : Bytes
  pub version : ℤ

pub record ComponentCandidate : Type 0 where
  pub schema : Bytes
  pub schema_version : ℤ
  pub kind : Bytes
  pub component : Bytes
  pub repository : Bytes
  pub git_commit : Bytes
  pub artifact : Bytes
  pub modules : List Module
  pub contracts : List Contract
  pub compatibility_gates : List CompatibilityGate
  pub provenance : ComponentCandidateProvenance

pub record CompatibilityEvidence : Type 0 where
  pub provider : Bytes
  pub consumer : Bytes
  pub contract : Bytes
  pub version : ℤ
  pub evidence : DigestReference

pub record ReleasedComponent : Type 0 where
  pub schema : Bytes
  pub schema_version : ℤ
  pub kind : Bytes
  pub component : Bytes
  pub repository : Bytes
  pub git_commit : Bytes
  pub artifact : Bytes
  pub candidate : DigestReference
  pub candidate_provenance : DigestReference
  pub compatibility_evidence : List CompatibilityEvidence
  pub promotion : PromotionProvenance

pub record InfrastructureSignal : Type 0 where
  pub schema : Bytes
  pub schema_version : ℤ
  pub kind : Bytes
  pub environment : Bytes
  pub component : Bytes
  pub released_record : DigestReference
  pub manifest_commit : Bytes
  pub event_id : Bytes
  pub config_generation : Bytes
