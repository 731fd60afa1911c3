-- ===== src/Verdict/Derive/Checks.antt =====
-- What each of the deriver's checks decides, for all evidence.
use cobol_java_transformatio.Common.{
  ◌≡◌, ◌≢◌, ◌↔◌, refl, inl, inr, Bool, true, false, none, some, List, [], ◌∷◌, arith, text_eq_iff,
  elem, Elem, elem_iff, any, filter, is_empty, All, Any, Bool-cases,
}
use cobol_java_transformatio.Domain.{VerdictState, error, unavailable, unsupported}
use cobol_java_transformatio.Evidence.Model.{
  ExecutionEvidence, ArtifactEvidence, EvidenceManifest, is_oracle, is_candidate,
}
use cobol_java_transformatio.Verdict.Analysis.{
  check_for_errors, check_for_unavailable, check_for_unsupported, supported_types,
}

-- no platform error and no timeout
abbrev pub IsClean : ExecutionEvidence → Type 0
IsClean e = (e.termination_status ≢ "error") × (e.timeout_applied ≡ false)

abbrev pub IsSupported : ArtifactEvidence → Type 0
IsSupported a = Elem a.artifact.artifact_type supported_types

pub check_for_errors_iff :
    (es : List ExecutionEvidence) → (check_for_errors es ≡ none) ↔ All IsClean es
unfolding check_for_errors
check_for_errors_iff [] = (λ _. tt, λ _. refl)
check_for_errors_iff (e ∷ es) =
    ground (arith, check_for_errors_iff es, text_eq_iff e.termination_status "error")

pub check_for_errors-some :
    (es : List ExecutionEvidence) {s : VerdictState} → check_for_errors es ≡ some s → s ≡ error
unfolding check_for_errors
check_for_errors-some [] h = cc
check_for_errors-some (e ∷ es) {s} h = ground (arith, check_for_errors-some es {s = s})

pub check_for_unavailable-some :
    (m : EvidenceManifest) {s : VerdictState} → check_for_unavailable m ≡ some s → s ≡ unavailable
unfolding check_for_unavailable
check_for_unavailable-some m h = ground arith

pub check_for_unsupported-some :
    (as' : List ArtifactEvidence) {s : VerdictState}
    → check_for_unsupported as' ≡ some s
    → s ≡ unsupported
unfolding check_for_unsupported
check_for_unsupported-some [] h = cc
check_for_unsupported-some (a ∷ as') {s} h = ground (arith, check_for_unsupported-some as' {s = s})

pub check_for_unsupported_iff :
    (as' : List ArtifactEvidence) → (check_for_unsupported as' ≡ none) ↔ All IsSupported as'
unfolding check_for_unsupported
check_for_unsupported_iff [] = (λ _. tt, λ _. refl)
check_for_unsupported_iff (a ∷ as') =
    elim (Bool-cases (elem a.artifact.artifact_type supported_types)) [
      | inl e ↦ rw e (
        λ h. ((elem_iff _ supported_types).0 e, (check_for_unsupported_iff as').0 h),
        λ h. (check_for_unsupported_iff as').1 h.1,
      )
      | inr e ↦ rw e (λ h. cc, λ h. cc (e, (elem_iff _ supported_types).1 h.0))
    ]

-- The code's reading of a list of executions, in the words of the specification.
abbrev pub IsOracle : ExecutionEvidence → Type 0
IsOracle e = is_oracle e ≡ true

abbrev pub IsCandidate : ExecutionEvidence → Type 0
IsCandidate e = is_candidate e ≡ true

module _ (role : ExecutionEvidence → Bool) where
  pub filter-is_empty :
      (es : List ExecutionEvidence)
      → (is_empty (filter role es) ≡ false) ↔ Any (λ e. role e ≡ true) es
  filter-is_empty [] = (λ h. cc, λ h. absurd h)
  filter-is_empty (e ∷ es) = elim (Bool-cases (role e)) [
    | inl r ↦ rw r (λ _. inl refl, λ _. refl)
    | inr r ↦ rw r (
      λ h. inr ((filter-is_empty es).0 h),
      elim [ inl c ↦ cc | inr m ↦ (filter-is_empty es).1 m ],
    )
  ]

  pub any-filter-false :
      (p : ExecutionEvidence → Bool) (es : List ExecutionEvidence)
      → (any p (filter role es) ≡ false) ↔ All (λ e. role e ≡ true → p e ≡ false) es
  any-filter-false p [] = (λ _. tt, λ _. refl)
  any-filter-false p (e ∷ es) = elim (Bool-cases (role e)) [
    | inl r ↦ ground (arith, any-filter-false p es, r)
    | inr r ↦ ground (arith, any-filter-false p es, r)
  ]
