-- ===== src/Evidence/Pairing.antt =====
-- The checks 6, 6b and 6c of `EvidenceIntegrityValidator` (engine/evidence/integrity.py): what each
-- comparison pairs, which comparator it names, and the results that it may have.
pub mod Exact
use Prim.Native.String.{◌++◌ as ◌<>◌}
use cobol_java_transformatio.Common.{
  ℕ, String, Bool, not, ◌&&◌, Option, none, some, List, [], ◌∷◌, ◌++◌, map, text_eq, elem, length,
  is_empty, collect, report_if, if◌then◌else◌,
}
use cobol_java_transformatio.Domain.{ArtifactIdentity}
use cobol_java_transformatio.Evidence.Model.{ArtifactEvidence, ComparisonEvidence, EvidenceManifest}
use cobol_java_transformatio.Evidence.Violation.{
  IntegrityViolation, comparison_artifact_mismatch, malformed_evidence, comparator_binding_mismatch,
  unknown_comparison_result, entry, text, count,
}
use cobol_java_transformatio.Evidence.Bindings.{mismatch, not_among}
use cobol_java_transformatio.Comparators.Identity.{
  get?, get_or, canonical_comparator_ids, comparator_id_aliases,
}

-- The dict of artifacts by id: of two artifacts with one id it holds the later.
unfoldable pub by_id : String → List ArtifactEvidence → Option ArtifactIdentity
by_id k [] = none
by_id k (a ∷ rest) = elim (by_id k rest) [
  | some later ↦ some later
  | none ↦ if text_eq a.artifact.artifact_id k then some a.artifact else none
]

abbrev pub artifact_ids : List ArtifactEvidence → List String
artifact_ids = map (λ a. a.artifact.artifact_id)

abbrev pub wrong_role : ℕ → String → String → Option ArtifactIdentity → List IntegrityViolation
wrong_role i field role none = []
wrong_role i field role (some a) = report_if (not (text_eq a.producer_role role)) (record {
  violation_type = comparison_artifact_mismatch;
  field_path = entry "comparison_evidence" i field;
  expected = text ("producer_role " <> role);
  actual = text a.producer_role;
})

abbrev pub wrong_type : ℕ → String → String → Option ArtifactIdentity → List IntegrityViolation
wrong_type i field type none = []
wrong_type i field type (some a) =
    mismatch comparison_artifact_mismatch (entry "comparison_evidence" i field) type a.artifact_type

unfoldable pub comparison_pairing_violations :
    ℕ → ComparisonEvidence → EvidenceManifest → List IntegrityViolation
comparison_pairing_violations i c m =
    let oracle = by_id c.oracle_artifact_id m.artifact_evidence in
    let candidate = by_id c.candidate_artifact_id m.artifact_evidence in
    report_if (text_eq c.oracle_artifact_id c.candidate_artifact_id) (record {
      violation_type = comparison_artifact_mismatch;
      field_path = entry "comparison_evidence" i "candidate_artifact_id";
      expected = text "an artifact other than the oracle's";
      actual = text c.candidate_artifact_id;
    })
    ++ (wrong_role i "oracle_artifact_id" "ORACLE" oracle
        ++ (wrong_role i "candidate_artifact_id" "CANDIDATE" candidate
            ++ (wrong_type i "oracle_artifact_id" c.artifact_type oracle
                ++ (wrong_type i "candidate_artifact_id" c.artifact_type candidate
                    ++ report_if (text_eq c.result "MATCH" && not (is_empty c.differences))
                        (record {
                          violation_type = malformed_evidence;
                          field_path = entry "comparison_evidence" i "differences";
                          expected = text "no differences for MATCH";
                          actual = count (length c.differences);
                        })))))

unfoldable pub comparison_artifact_violations :
    EvidenceManifest → ℕ → ComparisonEvidence → List IntegrityViolation
comparison_artifact_violations m i c =
    let ids = artifact_ids m.artifact_evidence in
    not_among comparison_artifact_mismatch (entry "comparison_evidence" i "oracle_artifact_id") ids
      c.oracle_artifact_id
    ++ (not_among comparison_artifact_mismatch
          (entry "comparison_evidence" i "candidate_artifact_id") ids c.candidate_artifact_id
        ++ comparison_pairing_violations i c m)

unfoldable pub validate_comparison_artifact_binding : EvidenceManifest → List IntegrityViolation
validate_comparison_artifact_binding m =
    collect (comparison_artifact_violations m) 0 m.comparison_evidence

-- The check of one comparison, at the comparator registered for its type. A type that has none is
-- the deriver's to reject.
abbrev pub attribution : ℕ → ComparisonEvidence → Option String → List IntegrityViolation
attribution i c none = []
attribution i c (some expected) =
    report_if
      (not (text_eq (get_or c.comparator_id comparator_id_aliases c.comparator_id) expected))
      (record {
        violation_type = comparator_binding_mismatch;
        field_path = entry "comparison_evidence" i "comparator_id";
        expected = text expected;
        actual = text c.comparator_id;
      })

unfoldable pub validate_comparator_binding : EvidenceManifest → List IntegrityViolation
validate_comparator_binding m =
    collect (λ i c. attribution i c (get? c.artifact_type canonical_comparator_ids)) 0
      m.comparison_evidence

abbrev pub known_comparison_results : List String
known_comparison_results = "MATCH" ∷ "MISMATCH" ∷ "INCONCLUSIVE" ∷ []

unfoldable pub validate_comparison_results : EvidenceManifest → List IntegrityViolation
validate_comparison_results m =
    collect
      (λ i c.
        not_among unknown_comparison_result (entry "comparison_evidence" i "result")
          known_comparison_results c.result)
      0 m.comparison_evidence
