-- ===== src/Verdict/Derive/Comparable.antt =====
-- The evidence on which the comparisons decide the verdict.
use cobol_java_transformatio.Common.{
  String, ◌≡◌, ◌↔◌, refl, inl, inr, Bool, true, false, not, ◌&&◌, none, List, [], ◌∷◌, arith, any,
  filter, is_empty, All, Any, Bool-cases, Elem, elem, elem_iff,
}
use cobol_java_transformatio.Evidence.Model.{
  ExecutionEvidence, EvidenceManifest, is_oracle, is_candidate, is_complete,
}
use cobol_java_transformatio.Verdict.Analysis.{check_for_unavailable, status_in}
use cobol_java_transformatio.Verdict.Derive.Checks.{
  IsClean, IsSupported, IsOracle, IsCandidate, filter-is_empty, any-filter-false,
}

abbrev pub oracle_failures : List String
oracle_failures = "error" ∷ "timeout" ∷ "nonzero_exit" ∷ []

abbrev pub candidate_failures : List String
candidate_failures = "error" ∷ "timeout" ∷ []

-- Evidence on which the comparisons decide the verdict.
pub record IsComparable (m : EvidenceManifest) : Type 0 where
  pub clean : All IsClean m.execution_evidence
  pub oracle_ran : Any IsOracle m.execution_evidence
  pub oracle_usable :
      All (λ e. IsOracle e → ¬ Elem e.termination_status oracle_failures) m.execution_evidence
  pub candidate_ran : Any IsCandidate m.execution_evidence
  pub candidate_usable :
      All (λ e. IsCandidate e → ¬ Elem e.termination_status candidate_failures) m.execution_evidence
  pub supported : All IsSupported m.artifact_evidence
  pub has_artifacts : is_empty m.artifact_evidence ≡ false
  pub has_comparisons : is_empty m.comparison_evidence ≡ false

-- `elem` answers no exactly where there is no witness.
All-not_elem :
    (role : ExecutionEvidence → Bool) (statuses : List String) (es : List ExecutionEvidence)
    → All (λ e. role e ≡ true → elem e.termination_status statuses ≡ false) es
      ↔ All (λ e. role e ≡ true → ¬ Elem e.termination_status statuses) es
All-not_elem role statuses [] = (λ _. tt, λ _. tt)
All-not_elem role statuses (e ∷ es) = (
  λ h. (λ r x. cc (h.0 r, (elem_iff _ statuses).1 x), (All-not_elem role statuses es).0 h.1),
  λ h. (
    λ r. elim (Bool-cases (elem e.termination_status statuses)) [
      | inl x ↦ absurd (h.0 r ((elem_iff _ statuses).0 x))
      | inr x ↦ x
    ],
    (All-not_elem role statuses es).1 h.1,
  ),
)

pub check_for_unavailable_iff :
    (m : EvidenceManifest)
    → (check_for_unavailable m ≡ none) ↔ (
        Any IsOracle m.execution_evidence
        × All (λ e. IsOracle e → ¬ Elem e.termination_status oracle_failures) m.execution_evidence
        × Any IsCandidate m.execution_evidence
        × All
            (λ e. IsCandidate e → ¬ Elem e.termination_status candidate_failures)
            m.execution_evidence)
unfolding check_for_unavailable
check_for_unavailable_iff m = ground (
  arith,
  filter-is_empty is_oracle m.execution_evidence,
  filter-is_empty is_candidate m.execution_evidence,
  any-filter-false is_oracle (status_in oracle_failures) m.execution_evidence,
  any-filter-false is_candidate (status_in candidate_failures) m.execution_evidence,
  All-not_elem is_oracle oracle_failures m.execution_evidence,
  All-not_elem is_candidate candidate_failures m.execution_evidence,
)

-- An execution of the role that is no failure makes the role's evidence complete.
ran_to_end :
    (role : ExecutionEvidence → Bool) (es : List ExecutionEvidence)
    → Any (λ e. role e ≡ true) es
    → any (status_in candidate_failures) (filter role es) ≡ false
    → any (λ e. not (status_in candidate_failures e)) (filter role es) ≡ true
ran_to_end role [] a h = absurd a
ran_to_end role (e ∷ es) a h = ground (arith, ran_to_end role es)

-- Fewer failures count against completeness than against the oracle.
fewer_failures :
    (es : List ExecutionEvidence)
    → any (status_in oracle_failures) es ≡ false
    → any (status_in candidate_failures) es ≡ false
fewer_failures [] h = refl
fewer_failures (e ∷ es) h = ground (arith, fewer_failures es)

-- Behind the check for infrastructure only the artifacts and comparisons can be missing.
pub is_complete-of_available :
    (m : EvidenceManifest)
    → check_for_unavailable m ≡ none
    → is_complete m ≡ (not (is_empty m.artifact_evidence) && not (is_empty m.comparison_evidence))
unfolding is_complete check_for_unavailable
is_complete-of_available m h = ground (
  arith,
  filter-is_empty is_oracle m.execution_evidence,
  filter-is_empty is_candidate m.execution_evidence,
  fewer_failures (filter is_oracle m.execution_evidence),
  ran_to_end is_oracle m.execution_evidence,
  ran_to_end is_candidate m.execution_evidence,
)
