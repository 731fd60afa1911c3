-- ===== src/Evidence/Completeness.antt =====
-- The checks 6d to 9 of `EvidenceIntegrityValidator` (engine/evidence/integrity.py): source
-- mutation, exit-status completeness, the manifest's seal, and the evidence that must be there.
pub mod Exact
use Prim.Native.String.{◌++◌ as ◌<>◌}
use cobol_java_transformatio.Common.{
  String, Bool, true, not, ◌&&◌, ◌||◌, none, some, List, [], ◌∷◌, ◌++◌, map, text_eq, elem, any,
  filter, is_empty, collect, report_if, if◌then◌else◌,
}
use cobol_java_transformatio.Domain.{show_hash, hash_eq}
use cobol_java_transformatio.Evidence.Model.{
  ExecutionEvidence, ArtifactEvidence, ComparisonEvidence, EvidenceManifest, is_oracle,
  is_candidate,
}
use cobol_java_transformatio.Evidence.Graph.{Hashing, manifest_hash}
use cobol_java_transformatio.Evidence.Violation.{
  IntegrityViolation, source_mutation, missing_exit_status, manifest_hash_mismatch,
  missing_required_evidence, Shown, whole, entry, text, one_of, hash,
}
use cobol_java_transformatio.Evidence.Bindings.{mismatch}

unfoldable pub validate_source_mutation : EvidenceManifest → List IntegrityViolation
validate_source_mutation m =
    collect
      (λ i e.
        mismatch source_mutation (entry "execution_evidence" i "source_tree_hash_after")
          (show_hash e.source_tree_hash_before) (show_hash e.source_tree_hash_after))
      0 m.execution_evidence

-- An exit status that is behaviour to be certified.
abbrev pub exits_nonzero : ExecutionEvidence → Bool
exits_nonzero e =
    is_candidate e && text_eq e.termination_status "nonzero_exit"
    || is_oracle e && text_eq e.termination_status "return_code"

abbrev pub artifact_types : EvidenceManifest → List String
artifact_types m = map (λ a. a.artifact.artifact_type) m.artifact_evidence

abbrev pub comparison_types : EvidenceManifest → List String
comparison_types m = map (λ c. c.artifact_type) m.comparison_evidence

unfoldable pub validate_exit_status_completeness : EvidenceManifest → List IntegrityViolation
validate_exit_status_completeness m =
    if any exits_nonzero m.execution_evidence
    then report_if (not (elem "EXIT_STATUS" (artifact_types m))) (record {
      violation_type = missing_exit_status;
      field_path = whole "artifact_evidence";
      expected = text "EXIT_STATUS present";
      actual = text "EXIT_STATUS absent";
    })
      ++ report_if (not (elem "EXIT_STATUS" (comparison_types m))) (record {
        violation_type = missing_exit_status;
        field_path = whole "comparison_evidence";
        expected = text "EXIT_STATUS comparison present";
        actual = text "EXIT_STATUS comparison absent";
      })
    else []

module _ (h : Hashing) where
  unfoldable pub validate_manifest_integrity : EvidenceManifest → List IntegrityViolation
  validate_manifest_integrity m = elim m.sealed_hash [
    | none ↦
        record {
          violation_type = manifest_hash_mismatch;
          field_path = whole "sealed_hash";
          expected = text "sha256 seal of the evidence graph";
          actual = text "None";
        }
        ∷ []
    | some sealed ↦ report_if (not (hash_eq sealed (manifest_hash h m))) (record {
      violation_type = manifest_hash_mismatch;
      field_path = whole "sealed_hash";
      expected = hash sealed;
      actual = hash (manifest_hash h m);
    })
  ]

-- A part of the evidence that is not there.
abbrev pub missing : Bool → String → Shown → Shown → List IntegrityViolation
missing absent path expected actual = report_if absent (record {
  violation_type = missing_required_evidence;
  field_path = whole path;
  expected = expected;
  actual = actual;
})

abbrev pub executed : ExecutionEvidence → Bool
executed e = text_eq e.execution_phase "EXECUTE"

abbrev pub execution_ids : List ExecutionEvidence → List String
execution_ids = map (λ e. e.execution_id)

-- The artifacts that the executions of one role produced.
abbrev pub artifacts_of : (ExecutionEvidence → Bool) → EvidenceManifest → List ArtifactEvidence
artifacts_of role m =
    filter (λ a. elem a.execution_id (execution_ids (filter role m.execution_evidence)))
      m.artifact_evidence

unfoldable pub compared_ids : List ComparisonEvidence → List String
compared_ids [] = []
compared_ids (c ∷ cs) = c.oracle_artifact_id ∷ c.candidate_artifact_id ∷ compared_ids cs

unfoldable pub validate_candidate_executions : List ExecutionEvidence → List IntegrityViolation
validate_candidate_executions candidates =
    if is_empty candidates
    then missing true "execution_evidence" (text "at least 1 candidate execution")
        (text "0 candidate executions")
    else missing (not (any executed candidates)) "execution_evidence"
        (text "at least 1 candidate execution with phase EXECUTE")
        (one_of (map (λ e. e.execution_phase) candidates))

unfoldable pub validate_required_evidence : EvidenceManifest → List IntegrityViolation
validate_required_evidence m =
    if is_empty m.execution_evidence
    then missing true "execution_evidence" (text "oracle and candidate execution evidence")
        (text "0")
    else missing (is_empty (filter is_oracle m.execution_evidence)) "execution_evidence"
        (text "at least 1 oracle execution") (text "0 oracle executions")
      ++ (validate_candidate_executions (filter is_candidate m.execution_evidence)
          ++ (missing (is_empty (artifacts_of is_oracle m)) "artifact_evidence"
                (text "at least 1 oracle artifact") (text "0 oracle artifacts")
              ++ (missing (is_empty (artifacts_of is_candidate m)) "artifact_evidence"
                    (text "at least 1 candidate artifact") (text "0 candidate artifacts")
                  ++ (collect
                        (λ i a.
                          missing
                            (not (elem a.artifact.artifact_id (compared_ids m.comparison_evidence)))
                            "comparison_evidence"
                            (text ("comparison referencing " <> a.artifact.artifact_id))
                            (text "artifact is unreferenced"))
                        0 m.artifact_evidence
                      ++ missing (is_empty m.comparison_evidence) "comparison_evidence"
                          (text "at least 1 comparison") (text "0 comparisons")))))
