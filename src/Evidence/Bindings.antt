-- ===== src/Evidence/Bindings.antt =====
-- The binding checks 1 to 5 of `EvidenceIntegrityValidator` (engine/evidence/integrity.py): run,
-- workload, candidate source, oracle image, and the execution behind each artifact.
pub mod Exact
use cobol_java_transformatio.Common.{
  ℕ, String, Bool, not, Option, none, some, List, [], ◌∷◌, ◌++◌, map, text_eq, elem, filter,
  collect, report_if,
}
use cobol_java_transformatio.Domain.{show_hash}
use cobol_java_transformatio.Evidence.Model.{
  ExecutionEvidence, ArtifactEvidence, ComparisonEvidence, EvidenceManifest, is_oracle,
}
use cobol_java_transformatio.Evidence.Violation.{
  IntegrityViolation, ViolationType, cross_run_replay, workload_binding_mismatch,
  source_candidate_mismatch, oracle_identity_mismatch, image_identity_mismatch,
  artifact_execution_mismatch, FieldPath, whole, entry, text, one_of,
}

-- A value that is not the expected one.
abbrev pub mismatch : ViolationType → FieldPath → String → String → List IntegrityViolation
mismatch kind path expected actual = report_if (not (text_eq actual expected)) (record {
  violation_type = kind;
  field_path = path;
  expected = text expected;
  actual = text actual;
})

-- A value that is none of the expected ones.
abbrev pub not_among : ViolationType → FieldPath → List String → String → List IntegrityViolation
not_among kind path expected actual = report_if (not (elem actual expected)) (record {
  violation_type = kind;
  field_path = path;
  expected = one_of expected;
  actual = text actual;
})

-- The executions of the manifest's own run.
abbrev pub ids_of_run : EvidenceManifest → List String
ids_of_run m =
    map (λ e. e.execution_id) (filter (λ e. text_eq e.run_id m.run_id) m.execution_evidence)

unfoldable pub validate_run_bindings : EvidenceManifest → List IntegrityViolation
validate_run_bindings m =
    collect
      (λ i e. mismatch cross_run_replay (entry "execution_evidence" i "run_id") m.run_id e.run_id) 0
      m.execution_evidence
    ++ (collect
          (λ i a.
            not_among cross_run_replay (entry "artifact_evidence" i "execution_id") (ids_of_run m)
              a.execution_id)
          0 m.artifact_evidence
        ++ collect
            (λ i c.
              mismatch cross_run_replay (entry "comparison_evidence" i "run_id") m.run_id c.run_id)
            0 m.comparison_evidence)

-- A binding that is enforced only where it is recorded.
abbrev pub if_recorded :
    ViolationType → FieldPath → String → Option String → List IntegrityViolation
if_recorded kind path expected none = []
if_recorded kind path expected (some actual) = mismatch kind path expected actual

unfoldable pub validate_workload_bindings : EvidenceManifest → List IntegrityViolation
validate_workload_bindings m =
    collect
      (λ i e.
        if_recorded workload_binding_mismatch (entry "execution_evidence" i "workload_id")
          m.workload_id e.workload_id)
      0 m.execution_evidence
    ++ collect
        (λ i c.
          if_recorded workload_binding_mismatch (entry "comparison_evidence" i "workload_id")
            m.workload_id c.workload_id)
        0 m.comparison_evidence

unfoldable pub validate_source_candidate_binding : EvidenceManifest → List IntegrityViolation
validate_source_candidate_binding m = elim m.candidate_identity [
  | none ↦ []
  | some c ↦
      mismatch source_candidate_mismatch (whole "candidate_identity.source_hash")
        (show_hash m.source_identity.source_hash) (show_hash c.source_hash)
]

unfoldable pub validate_oracle_binding : EvidenceManifest → List IntegrityViolation
validate_oracle_binding m = elim m.oracle_identity [
  | none ↦
      record {
        violation_type = oracle_identity_mismatch;
        field_path = whole "oracle_identity";
        expected = text "non-null OracleIdentity";
        actual = text "None";
      }
      ∷ []
  | some o ↦
      collect
        (λ i e.
          if_recorded image_identity_mismatch (entry "execution_evidence" i "image_digest")
            o.image_digest e.image_digest)
        0 (filter is_oracle m.execution_evidence)
]

unfoldable pub validate_artifact_execution_binding : EvidenceManifest → List IntegrityViolation
validate_artifact_execution_binding m =
    collect
      (λ i a.
        not_among artifact_execution_mismatch (entry "artifact_evidence" i "execution_id")
          (map (λ e. e.execution_id) m.execution_evidence) a.execution_id)
      0 m.artifact_evidence
