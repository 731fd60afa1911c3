-- ===== src/Evidence/Integrity.antt =====
-- `EvidenceIntegrityValidator.validate` (engine/evidence/integrity.py): all checks in order, and the
-- validated wrapper if none finds a violation.
use cobol_java_transformatio.Common.{List, [], ◌∷◌, ◌++◌, Result, ok, err}
use cobol_java_transformatio.Evidence.Model.{EvidenceManifest}
use cobol_java_transformatio.Evidence.Graph.{manifest_hash}
use cobol_java_transformatio.Evidence.Violation.{IntegrityViolation}
use cobol_java_transformatio.Evidence.Bindings.{
  validate_run_bindings, validate_workload_bindings, validate_source_candidate_binding,
  validate_oracle_binding, validate_artifact_execution_binding,
}
use cobol_java_transformatio.Evidence.Pairing.{
  validate_comparison_artifact_binding, validate_comparator_binding, validate_comparison_results,
}
use cobol_java_transformatio.Evidence.Completeness.{
  validate_source_mutation, validate_exit_status_completeness, validate_manifest_integrity,
  validate_required_evidence,
}
use cobol_java_transformatio.Verdict.Model.{ValidatedEvidenceManifest, Platform}

module _ (p : Platform) where
  unfoldable pub violations_of : EvidenceManifest → List IntegrityViolation
  violations_of m =
      validate_run_bindings m
      ++ (validate_workload_bindings m
          ++ (validate_source_candidate_binding m
              ++ (validate_oracle_binding m
                  ++ (validate_artifact_execution_binding m
                      ++ (validate_comparison_artifact_binding m
                          ++ (validate_comparator_binding m
                              ++ (validate_comparison_results m
                                  ++ (validate_source_mutation m
                                      ++ (validate_exit_status_completeness m
                                          ++ (validate_manifest_integrity p.hashing m
                                              ++ validate_required_evidence m))))))))))

  unfoldable pub validate :
      EvidenceManifest → Result (List IntegrityViolation) ValidatedEvidenceManifest
  validate m = elim (violations_of m) [
    | [] ↦ ok (record {
      manifest = m;
      integrity_hash = manifest_hash p.hashing m;
      validated_at = p.utc_now;
    })
    | v ∷ vs ↦ err (v ∷ vs)
  ]
