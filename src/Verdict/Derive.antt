-- ===== src/Verdict/Derive.antt =====
-- `VerdictDeriver` of engine/verdict/derivation.py: the verdict of a run as a function of its evidence
-- manifest. A manifest with no oracle identity makes the code raise AttributeError where it reads it.
mod Checks
pub mod Compared
pub mod Comparable
mod Steps
pub mod Verified
pub mod Boundary
use cobol_java_transformatio.Common.{
  ℕ, zero, suc, String, Bool, true, false, not, ◌&&◌, ◌||◌, Option, none, some, List, [], ◌∷◌, ◌++◌,
  map, text_eq, has_prefix, elem, any, filter, is_empty, length, strip, Result, ok, err, ◌>>=◌,
  if◌then◌else◌,
}
use cobol_java_transformatio.Domain.{
  VerdictState, verified, partial, failed, unproven, unavailable, unsupported, error, WorkloadId,
  ContentHash, show_hash, CandidateIdentity, OracleIdentity, EnvironmentIdentity, hash_eq,
}
use cobol_java_transformatio.Evidence.Model.{
  ExecutionEvidence, ArtifactEvidence, ComparisonEvidence, EvidenceManifest, is_oracle,
  is_candidate, is_complete,
}
use cobol_java_transformatio.Evidence.Graph.{Hashing, manifest_hash}
use cobol_java_transformatio.Evidence.Violation.{IntegrityViolation}
use cobol_java_transformatio.Verdict.Model.{
  Difference, platform_error, infrastructure_unavailable, unsupported_artifact, incomplete_manifest,
  zero_checks, oracle_compile_failure, recorded, unknown_result, post_validation_mutation,
  violation, Scope, validation_scope, evidence_mutated, trust_boundary_violation, AttributeError,
  no_oracle_identity, Verdict, ValidatedEvidenceManifest, Platform,
}
use cobol_java_transformatio.Verdict.Analysis.{
  candidate_lane, compiler_text, scope_for, check_for_errors, status_in, check_for_unavailable,
  get_or_empty, items_of, exit_status, unavailable_reason, supported_types, check_for_unsupported,
  counts_unavailable, Tally, tally, analyze, no_findings, final_state,
}

abbrev pub with_oracle :
    {A : Type 0} → EvidenceManifest → (OracleIdentity → A) → Result AttributeError A
with_oracle m f = elim m.oracle_identity [ none ↦ err no_oracle_identity | some o ↦ ok (f o) ]

abbrev pub candidate_hash_of : EvidenceManifest → Option String
candidate_hash_of m = elim m.candidate_identity [
  | none ↦ none
  | some c ↦ some (show_hash c.candidate_hash)
]

module _ (p : Platform) where
  unfoldable pub create_verdict :
      VerdictState → EvidenceManifest → List Difference → Result AttributeError Verdict
  unfolding scope_for
  create_verdict state m differences = with_oracle m λ o. record {
    state = state;
    workload_id = m.workload_id;
    run_id = m.run_id;
    source_hash = show_hash m.source_identity.source_hash;
    candidate_hash = candidate_hash_of m;
    oracle_id = o.oracle_id;
    oracle_digest = o.image_digest;
    executed_check_count = length m.comparison_evidence;
    skipped_count = 0;
    unavailable_count = length (filter counts_unavailable m.execution_evidence);
    supported_scope_statement = scope_for o m;
    evidence_manifest_hash = show_hash (manifest_hash p.hashing m);
    derivation_timestamp = p.utc_now;
    differences = differences;
  }

  -- Steps 4 to 7 of `derive`, for evidence that is neither broken, unavailable nor unsupported.
  unfoldable pub derive_compared : EvidenceManifest → Result AttributeError Verdict
  derive_compared m =
      if not (is_complete m)
      then create_verdict unproven m (incomplete_manifest ∷ [])
      else if is_empty m.comparison_evidence
      then create_verdict unproven m (zero_checks ∷ [])
      else let t = analyze no_findings m.comparison_evidence in
        create_verdict (final_state t) m t.differences

  unfoldable pub derive : EvidenceManifest → Result AttributeError Verdict
  unfolding derive_compared
  derive m = elim (check_for_errors m.execution_evidence) [
    | some s ↦ create_verdict s m (platform_error ∷ [])
    | none ↦ elim (check_for_unavailable m) [
      | some s ↦ create_verdict s m (unavailable_reason m.execution_evidence ∷ [])
      | none ↦ elim (check_for_unsupported m.artifact_evidence) [
        | some s ↦ create_verdict s m (unsupported_artifact ∷ [])
        | none ↦ derive_compared m
      ]
    ]
  ]

  -- The ERROR verdict that both clamps build.
  unfoldable pub error_verdict :
      EvidenceManifest → Scope → ContentHash → List Difference → Result AttributeError Verdict
  error_verdict m scope hash differences = with_oracle m λ o. record {
    state = error;
    workload_id = m.workload_id;
    run_id = m.run_id;
    source_hash = show_hash m.source_identity.source_hash;
    candidate_hash = candidate_hash_of m;
    oracle_id = o.oracle_id;
    oracle_digest = o.image_digest;
    executed_check_count = 0;
    skipped_count = 0;
    unavailable_count = 0;
    supported_scope_statement = scope;
    evidence_manifest_hash = show_hash hash;
    derivation_timestamp = p.utc_now;
    differences = differences;
  }

  unfoldable pub derive_from_validated : ValidatedEvidenceManifest → Result AttributeError Verdict
  unfolding error_verdict
  derive_from_validated v =
      let live_hash = manifest_hash p.hashing v.manifest in
      if not (hash_eq live_hash v.integrity_hash)
      then error_verdict v.manifest evidence_mutated live_hash
          (post_validation_mutation live_hash v.integrity_hash ∷ [])
      else derive v.manifest

  unfoldable pub clamp :
      EvidenceManifest → List IntegrityViolation → Verdict → Result AttributeError Verdict
  unfolding error_verdict
  clamp m violations verdict = elim verdict.state [
    | verified ↦
        error_verdict m trust_boundary_violation (manifest_hash p.hashing m)
          (map violation violations)
    | _ ↦ ok verdict
  ]

  unfoldable pub derive_untrusted :
      EvidenceManifest → List IntegrityViolation → Result AttributeError Verdict
  derive_untrusted m violations = derive m >>= clamp m violations
