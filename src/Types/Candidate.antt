-- ===== src/Types/Candidate.antt =====
-- systemtests/releasecontract/types.go: a candidate for a release, and where it comes from.
use client_api.Prelude.{Bytes, ℤ, Option, List}

pub record DigestReference : Type 0 where
  pub uri : Bytes
  pub digest : Bytes

pub record Component : Type 0 where
  pub name : Bytes
  pub repository : Bytes
  pub git_commit : Bytes
  pub image : Option Bytes

pub record Module : Type 0 where
  pub path : Bytes
  pub version : Bytes
  pub sum : Bytes

pub record Contract : Type 0 where
  pub name : Bytes
  pub version : ℤ
  pub architecture_repository : Bytes
  pub architecture_commit : Bytes

pub record ResolvedSet : Type 0 where
  pub components : List Component
  pub modules : List Module
  pub contracts : List Contract

pub record Candidate : Type 0 where
  pub schema : Bytes
  pub schema_version : ℤ
  pub release : Bytes
  pub status : Bytes
  pub components : List Component
  pub modules : List Module
  pub contracts : List Contract

pub record BuildProvenance : Type 0 where
  pub repository : Bytes
  pub source_commit : Bytes
  pub run : Bytes
  pub attestation_digest : Bytes

pub record ComponentProvenance : Type 0 where
  pub name : Bytes
  pub repository : Bytes
  pub git_commit : Bytes
  pub artifact : DigestReference
  pub build : BuildProvenance

pub record ModuleSource : Type 0 where
  pub repository : Bytes
  pub git_commit : Bytes
  pub run : Bytes

pub record ModuleProvenance : Type 0 where
  pub path : Bytes
  pub version : Bytes
  pub sum : Bytes
  pub source : ModuleSource

pub record CandidateProvenance : Type 0 where
  pub schema : Bytes
  pub schema_version : ℤ
  pub release : Bytes
  pub candidate_digest : Bytes
  pub components : List ComponentProvenance
  pub modules : List ModuleProvenance

pub record TestSuiteProvenance : Type 0 where
  pub repository : Bytes
  pub git_commit : Bytes
  pub run : Bytes

pub record SystemTestEvidence : Type 0 where
  pub schema : Bytes
  pub schema_version : ℤ
  pub candidate_digest : Bytes
  pub result : Bytes
  pub suite : TestSuiteProvenance
