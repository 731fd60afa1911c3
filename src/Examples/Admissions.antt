-- ===== src/Examples/Admissions.antt =====
-- Validation and certification of concrete runs.
use cobol_java_transformatio.Common.{
  ◌≡◌, ◌≢◌, ◌↔◌, ◌∙◌, text_eq_iff, refl, true, false, is_empty, All, Any, some, ok, collect,
  text_eq, has_prefix,
}
use cobol_java_transformatio.Comparators.Identity.{get?}
use cobol_java_transformatio.Evidence.Graph.{manifest_hash, post_init, canonical_evidence_graph}
use cobol_java_transformatio.Evidence.Bindings.{
  validate_run_bindings, validate_workload_bindings, validate_source_candidate_binding,
  validate_oracle_binding, validate_artifact_execution_binding,
}
use cobol_java_transformatio.Evidence.Pairing.{
  by_id, comparison_pairing_violations, comparison_artifact_violations,
  validate_comparison_artifact_binding, validate_comparator_binding, validate_comparison_results,
}
use cobol_java_transformatio.Evidence.Completeness.{
  validate_source_mutation, validate_exit_status_completeness, validate_manifest_integrity,
  validate_required_evidence, validate_candidate_executions, compared_ids,
}
use cobol_java_transformatio.Evidence.Integrity.{validate, violations_of}
use cobol_java_transformatio.Evidence.Completeness.Exact.{IsCompared}
use cobol_java_transformatio.Evidence.Model.{EvidenceManifest, is_oracle, is_candidate}
use cobol_java_transformatio.Evidence.Admission.{IsAdmissible, wrap, validate-IsAdmissible}
use cobol_java_transformatio.Verdict.Model.{Verdict}
use cobol_java_transformatio.Verdict.Derive.{derive_from_validated}
use cobol_java_transformatio.Examples.Fixtures.{
  platform, hashing, manifest, manifest_with, oracle, b_hash,
}
use cobol_java_transformatio.Examples.Verdicts.{derive-matching, matching}
use cobol_java_transformatio.Certification.Certified.{
  Certifies, derive_from_validated-wrap, validated_total, verified-Certifies,
}
use cobol_java_transformatio.Certification.Tamper.{
  Distinguishes, validate-tampered, forge, manifest_hash-forge,
}

accepted : validate platform (manifest "MATCH") ≡ ok (wrap platform (manifest "MATCH"))
unfolding validate violations_of validate_run_bindings validate_workload_bindings
    validate_source_candidate_binding validate_oracle_binding validate_artifact_execution_binding
    validate_comparison_artifact_binding comparison_artifact_violations
    comparison_pairing_violations validate_comparator_binding validate_comparison_results
    validate_source_mutation validate_exit_status_completeness validate_manifest_integrity
    validate_required_evidence validate_candidate_executions compared_ids by_id manifest_hash
    post_init canonical_evidence_graph collect text_eq has_prefix get?
accepted = refl

validate-IsAdmissible_example :
    (validate platform (manifest "MATCH") ≡ ok (wrap platform (manifest "MATCH")))
    ↔ IsAdmissible platform (manifest "MATCH")
validate-IsAdmissible_example = validate-IsAdmissible platform (manifest "MATCH")

validated_total_example :
    (v : Verdict) × (derive_from_validated platform (wrap platform (manifest "MATCH")) ≡ ok v)
validated_total_example = validated_total platform (manifest "MATCH") accepted

derived : derive_from_validated platform (wrap platform (manifest "MATCH")) ≡ ok matching
derived = derive_from_validated-wrap platform (manifest "MATCH") ∙ derive-matching

verified-Certifies_example :
    All (Certifies (manifest "MATCH")) (manifest "MATCH").comparison_evidence
    × All (IsCompared (manifest "MATCH")) (manifest "MATCH").artifact_evidence
    × (is_empty (manifest "MATCH").comparison_evidence ≡ false)
    × Any (λ e. is_oracle e ≡ true) (manifest "MATCH").execution_evidence
    × Any
        (λ e. (is_candidate e ≡ true) × (e.execution_phase ≡ "EXECUTE"))
        (manifest "MATCH").execution_evidence
verified-Certifies_example = verified-Certifies platform (manifest "MATCH") accepted derived refl

-- The sealed run with another count of source files, under the first seal.
abbrev tampered : EvidenceManifest
tampered = record (manifest_with "MATCH" (some oracle) 2) {
  sealed_hash = (manifest "MATCH").sealed_hash;
}

differ : text_eq "even" "odd" ≡ false
unfolding text_eq
differ = refl

other_digest : Distinguishes hashing (manifest "MATCH") tampered
unfolding manifest_hash post_init canonical_evidence_graph
other_digest = λ e. cc (differ, (text_eq_iff "even" "odd").1 e)

validate-tampered_example : validate platform tampered ≢ ok (wrap platform tampered)
unfolding post_init canonical_evidence_graph
validate-tampered_example = validate-tampered platform (manifest "MATCH") tampered refl other_digest

manifest_hash-forge_example :
    manifest_hash hashing (forge b_hash (manifest "MATCH"))
    ≡ manifest_hash hashing (manifest "MATCH")
manifest_hash-forge_example = manifest_hash-forge hashing b_hash (manifest "MATCH")
