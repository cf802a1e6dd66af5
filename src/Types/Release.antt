-- ===== src/Types/Release.antt =====
-- systemtests/releasecontract/types.go: a promoted release, and what an environment resolves to.
use client_api.Prelude.{Bytes, ℤ, Option}
use client_api.Types.Candidate.{DigestReference, ResolvedSet}

pub record PromotionProvenance : Type 0 where
  pub repository : Bytes
  pub run : Bytes
  pub approved_by : Bytes

pub record PromotionRequest : Type 0 where
  pub schema : Bytes
  pub schema_version : ℤ
  pub candidate : DigestReference
  pub candidate_provenance : DigestReference
  pub system_test_evidence : DigestReference
  pub promotion : PromotionProvenance

pub record SystemTestProvenance : Type 0 where
  pub evidence : DigestReference
  pub repository : Bytes
  pub git_commit : Bytes
  pub run : Bytes

pub record ReleaseProvenance : Type 0 where
  pub candidate_provenance : DigestReference
  pub system_tests : SystemTestProvenance
  pub promotion : PromotionProvenance

pub record ReleasedEnvelope : Type 0 where
  pub schema : Bytes
  pub schema_version : ℤ
  pub release : Bytes
  pub status : Bytes
  pub candidate : DigestReference
  pub resolved : ResolvedSet
  pub provenance : ReleaseProvenance

pub record ResolutionSource : Type 0 where
  pub kind : Bytes
  pub release_record : DigestReference

pub record ResolutionProvenance : Type 0 where
  pub candidate_provenance : DigestReference
  pub system_tests : Option SystemTestProvenance
  pub promotion : Option PromotionProvenance

pub record Resolution : Type 0 where
  pub schema : Bytes
  pub schema_version : ℤ
  pub environment_class : Bytes
  pub source : ResolutionSource
  pub release : Bytes
  pub candidate_digest : Bytes
  pub resolved : ResolvedSet
  pub provenance : ResolutionProvenance
