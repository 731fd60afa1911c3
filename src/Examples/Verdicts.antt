-- ===== src/Examples/Verdicts.antt =====
-- Verdicts of concrete runs.
use cobol_java_transformatio.Common.{
  ◌≡◌, ◌≢◌, ◌↔◌, refl, false, none, some, [], ◌∷◌, map, All, Any, ok, text_eq, has_prefix,
}
use cobol_java_transformatio.Domain.{VerdictState, verified, failed, partial, error, hash_eq}
use cobol_java_transformatio.Evidence.Model.{is_complete}
use cobol_java_transformatio.Evidence.Graph.{manifest_hash, post_init, canonical_evidence_graph}
use cobol_java_transformatio.Evidence.Violation.{IntegrityViolation, orphan_artifact, entry, text}
use cobol_java_transformatio.Verdict.Model.{
  trust_boundary_violation, evidence_mutated, violation, Verdict, validation_scope,
  ValidatedEvidenceManifest, post_validation_mutation,
}
use cobol_java_transformatio.Verdict.Analysis.{
  check_for_errors, check_for_unavailable, check_for_unsupported, analyze, tally, final_state,
  scope_for, candidate_lane,
}
use cobol_java_transformatio.Verdict.Derive.{
  create_verdict, derive_compared, derive, error_verdict, derive_untrusted, derive_from_validated,
}
use cobol_java_transformatio.Verdict.Derive.Compared.{IsMatch, IsMismatch, IsInconclusive, IsKnown}
use cobol_java_transformatio.Verdict.Derive.Comparable.{IsComparable}
use cobol_java_transformatio.Verdict.Derive.Verified.{
  derive-verified, derive-failed, derive-partial,
}
use cobol_java_transformatio.Verdict.Derive.Boundary.{derive_untrusted_lem}
use cobol_java_transformatio.Examples.Fixtures.{platform, hashing, manifest, manifest_with, oracle}

abbrev verdict_of : VerdictState → Verdict
verdict_of state = record {
  state = state;
  workload_id = "workload";
  run_id = "run";
  source_hash = "sha256:a1";
  candidate_hash = none;
  oracle_id = "gnucobol-3";
  oracle_digest = "sha256:77";
  executed_check_count = 1;
  skipped_count = 0;
  unavailable_count = 0;
  supported_scope_statement = validation_scope "3.2" none;
  evidence_manifest_hash = "sha256:even";
  derivation_timestamp = "2024-01-01T00:00:00Z";
  differences = [];
}

abbrev pub matching : Verdict
matching = verdict_of verified

pub derive-matching : derive platform (manifest "MATCH") ≡ ok matching
unfolding derive check_for_errors check_for_unavailable check_for_unsupported derive_compared
    analyze tally final_state create_verdict scope_for candidate_lane is_complete manifest_hash
    post_init canonical_evidence_graph text_eq has_prefix
derive-matching = refl

derive-mismatching : derive platform (manifest "MISMATCH") ≡ ok (verdict_of failed)
unfolding derive check_for_errors check_for_unavailable check_for_unsupported derive_compared
    analyze tally final_state create_verdict scope_for candidate_lane is_complete manifest_hash
    post_init canonical_evidence_graph text_eq has_prefix
derive-mismatching = refl

derive-inconclusive : derive platform (manifest "INCONCLUSIVE") ≡ ok (verdict_of partial)
unfolding derive check_for_errors check_for_unavailable check_for_unsupported derive_compared
    analyze tally final_state create_verdict scope_for candidate_lane is_complete manifest_hash
    post_init canonical_evidence_graph text_eq has_prefix
derive-inconclusive = refl

derive-verified_example :
    (matching.state ≡ verified)
    ↔ (IsComparable (manifest "MATCH") × All IsMatch (manifest "MATCH").comparison_evidence)
derive-verified_example = derive-verified platform (manifest "MATCH") derive-matching

derive-failed_example : ((verdict_of failed).state ≡ failed) ↔ (
    IsComparable (manifest "MISMATCH")
    × All IsKnown (manifest "MISMATCH").comparison_evidence
    × Any IsMismatch (manifest "MISMATCH").comparison_evidence)
derive-failed_example = derive-failed platform (manifest "MISMATCH") derive-mismatching

derive-partial_example : ((verdict_of partial).state ≡ partial) ↔ (
    IsComparable (manifest "INCONCLUSIVE")
    × All IsKnown (manifest "INCONCLUSIVE").comparison_evidence
    × (¬ Any IsMismatch (manifest "INCONCLUSIVE").comparison_evidence)
    × Any IsInconclusive (manifest "INCONCLUSIVE").comparison_evidence)
derive-partial_example = derive-partial platform (manifest "INCONCLUSIVE") derive-inconclusive

abbrev orphan : IntegrityViolation
orphan = record {
  violation_type = orphan_artifact;
  field_path = entry "artifact_evidence" 0 "artifact_id";
  expected = text "compared";
  actual = text "unreferenced";
}

abbrev untrusted : Verdict
untrusted = record (verdict_of error) {
  executed_check_count = 0;
  supported_scope_statement = trust_boundary_violation;
  differences = violation orphan ∷ [];
}

derive_untrusted_lem_example :
    (matching.state ≢ verified
      → derive_untrusted platform (manifest "MATCH") (orphan ∷ []) ≡ ok matching)
    × (matching.state ≡ verified
        → (w : Verdict) × (derive_untrusted platform (manifest "MATCH") (orphan ∷ []) ≡ ok w)
          × (w.state ≡ error)
          × (w.executed_check_count ≡ 0)
          × (w.differences ≡ map violation (orphan ∷ [])))
derive_untrusted_lem_example =
    derive_untrusted_lem platform (manifest "MATCH") (orphan ∷ []) derive-matching

-- The validated run whose manifest was replaced behind the hash of its validation.
abbrev replaced : ValidatedEvidenceManifest
replaced = record {
  manifest = manifest_with "MATCH" (some oracle) 2;
  integrity_hash = manifest_hash hashing (manifest "MATCH");
  validated_at = "2024-01-01T00:00:00Z";
}

replaced_hash : hash_eq (manifest_hash hashing replaced.manifest) replaced.integrity_hash ≡ false
unfolding manifest_hash post_init canonical_evidence_graph text_eq
replaced_hash = refl

abbrev mutated : Verdict
mutated = record (verdict_of error) {
  executed_check_count = 0;
  supported_scope_statement = evidence_mutated;
  evidence_manifest_hash = "sha256:odd";
  differences =
      post_validation_mutation (manifest_hash hashing replaced.manifest) replaced.integrity_hash
      ∷ [];
}

derive-replaced : derive_from_validated platform replaced ≡ ok mutated
unfolding derive_from_validated error_verdict manifest_hash post_init canonical_evidence_graph
    text_eq
derive-replaced = refl
