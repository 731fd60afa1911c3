-- ===== src/Verdict/Derive/Steps.antt =====
-- The steps of `derive`, and what `create_verdict` builds.
use cobol_java_transformatio.Common.{◌≡◌, none, some, List, [], ◌∷◌, arith, ok}
use cobol_java_transformatio.Domain.{VerdictState}
use cobol_java_transformatio.Evidence.Model.{EvidenceManifest}
use cobol_java_transformatio.Verdict.Model.{
  Verdict, Platform, Difference, platform_error, unsupported_artifact,
}
use cobol_java_transformatio.Verdict.Analysis.{
  check_for_errors, check_for_unavailable, check_for_unsupported, unavailable_reason,
}
use cobol_java_transformatio.Verdict.Derive.{derive, derive_compared, create_verdict}

module _ (p : Platform) where
  pub create_verdict-state :
      (s : VerdictState) (m : EvidenceManifest) (d : List Difference) (v : Verdict)
      → create_verdict p s m d ≡ ok v
      → v.state ≡ s
  unfolding create_verdict
  create_verdict-state s m d v h = ground arith

  -- The steps of `derive`, one for each check that ends it.
  pub derive_errors :
      (m : EvidenceManifest) (x : VerdictState)
      → check_for_errors m.execution_evidence ≡ some x
      → derive p m ≡ create_verdict p x m (platform_error ∷ [])
  unfolding derive
  derive_errors m x e = ground arith

  pub derive_unavailable :
      (m : EvidenceManifest) (x : VerdictState)
      → check_for_errors m.execution_evidence ≡ none
      → check_for_unavailable m ≡ some x
      → derive p m ≡ create_verdict p x m (unavailable_reason m.execution_evidence ∷ [])
  unfolding derive
  derive_unavailable m x e u = ground arith

  pub derive_unsupported :
      (m : EvidenceManifest) (x : VerdictState)
      → check_for_errors m.execution_evidence ≡ none
      → check_for_unavailable m ≡ none
      → check_for_unsupported m.artifact_evidence ≡ some x
      → derive p m ≡ create_verdict p x m (unsupported_artifact ∷ [])
  unfolding derive
  derive_unsupported m x e u t = ground arith

  pub derive_rest :
      (m : EvidenceManifest)
      → check_for_errors m.execution_evidence ≡ none
      → check_for_unavailable m ≡ none
      → check_for_unsupported m.artifact_evidence ≡ none
      → derive p m ≡ derive_compared p m
  unfolding derive
  derive_rest m e u t = ground arith
