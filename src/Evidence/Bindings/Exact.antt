-- ===== src/Evidence/Bindings/Exact.antt =====
-- The binding checks against the bindings that they are to check.
use cobol_java_transformatio.Common.{
  String, ◌≡◌, ◌↔◌, refl, sym, subst, ◌≢◌, ◌∙◌, inl, inr, true, Option, none, some, List, [],
  text_eq, text_eq_iff, Elem, Elem-map, not-text_eq_iff, not-elem_iff, All, Any, Any-map,
  All-filter, Any-filter, append-eq-nil_iff, iff_trans, collect, collect-eq-nil, report_if-eq-nil,
  filter, Option-cases,
}
use mathlib.Core.Option.{some-injective}
use cobol_java_transformatio.Domain.{show_hash, CandidateIdentity, OracleIdentity}
use cobol_java_transformatio.Evidence.Model.{EvidenceManifest, is_oracle}
use cobol_java_transformatio.Evidence.Violation.{
  ViolationType, FieldPath, IntegrityViolation, whole, entry, source_candidate_mismatch,
  image_identity_mismatch,
}
use cobol_java_transformatio.Evidence.Bindings.{
  mismatch, not_among, if_recorded, ids_of_run, validate_run_bindings, validate_workload_bindings,
  validate_source_candidate_binding, validate_oracle_binding, validate_artifact_execution_binding,
}

-- A recorded value is the given one.
abbrev pub BoundTo : Option String → String → Type 0
BoundTo o k = (w : String) → o ≡ some w → w ≡ k

pub mismatch-eq-nil :
    (t : ViolationType) (f : FieldPath) (k w : String) → (mismatch t f k w ≡ []) ↔ (w ≡ k)
mismatch-eq-nil t f k w = (
  λ h. (not-text_eq_iff w k).0 ((report_if-eq-nil _ _).0 h),
  λ e. (report_if-eq-nil _ _).1 ((not-text_eq_iff w k).1 e),
)

pub not_among-eq-nil :
    (t : ViolationType) (f : FieldPath) (ks : List String) (w : String)
    → (not_among t f ks w ≡ []) ↔ Elem w ks
not_among-eq-nil t f ks w = (
  λ h. (not-elem_iff w ks).0 ((report_if-eq-nil _ _).0 h),
  λ e. (report_if-eq-nil _ _).1 ((not-elem_iff w ks).1 e),
)

pub if_recorded-eq-nil :
    (t : ViolationType) (f : FieldPath) (k : String) (o : Option String)
    → (if_recorded t f k o ≡ []) ↔ BoundTo o k
if_recorded-eq-nil t f k none = (λ _ w e. cc, λ _. refl)
if_recorded-eq-nil t f k (some w) = (
  λ h x e. sym (some-injective _ _ e) ∙ (mismatch-eq-nil t f k w).0 h,
  λ b. (mismatch-eq-nil t f k w).1 (b w refl),
)

-- Executions and comparisons carry the manifest's run, and each artifact comes from an execution.
pub record IsRunBound (m : EvidenceManifest) : Type 0 where
  pub executions : All (λ e. e.run_id ≡ m.run_id) m.execution_evidence
  pub artifacts :
      All
        (λ a.
          Any (λ e. (e.run_id ≡ m.run_id) × (a.execution_id ≡ e.execution_id)) m.execution_evidence)
        m.artifact_evidence
  pub comparisons : All (λ c. c.run_id ≡ m.run_id) m.comparison_evidence

-- The ids of the run's own executions.
Elem-ids_of_run :
    (m : EvidenceManifest) (k : String)
    → Elem k (ids_of_run m)
      ↔ Any (λ e. (text_eq e.run_id m.run_id ≡ true) × (k ≡ e.execution_id)) m.execution_evidence
Elem-ids_of_run m k = iff_trans (Elem-map k _ _) (Any-filter _ _ m.execution_evidence)

pub validate_run_bindings-eq-nil :
    (m : EvidenceManifest) → (validate_run_bindings m ≡ []) ↔ IsRunBound m
unfolding validate_run_bindings
validate_run_bindings-eq-nil m = iff_trans all_three (
  λ h. record { executions = h.0; artifacts = h.1.0; comparisons = h.1.1 },
  λ b. (b.executions, (b.artifacts, b.comparisons)),
)
  where
    all_three : (validate_run_bindings m ≡ []) ↔ (
        All (λ e. e.run_id ≡ m.run_id) m.execution_evidence
        × (All
              (λ a.
                Any
                  (λ e. (e.run_id ≡ m.run_id) × (a.execution_id ≡ e.execution_id))
                  m.execution_evidence)
              m.artifact_evidence
            × All (λ c. c.run_id ≡ m.run_id) m.comparison_evidence))
    all_three =
        append-eq-nil_iff _ _
          (collect-eq-nil _ _ (λ i e. mismatch-eq-nil _ _ m.run_id e.run_id) 0 m.execution_evidence)
          (append-eq-nil_iff _ _
            (collect-eq-nil _ _
              (λ i a. iff_trans (not_among-eq-nil _ _ (ids_of_run m) a.execution_id) (
                iff_trans (Elem-ids_of_run m a.execution_id) (
                  Any-map (λ e h. ((text_eq_iff _ _).0 h.0, h.1)) m.execution_evidence,
                  Any-map (λ e h. ((text_eq_iff _ _).1 h.0, h.1)) m.execution_evidence,
                )))
              0 m.artifact_evidence)
            (collect-eq-nil _ _ (λ i c. mismatch-eq-nil _ _ m.run_id c.run_id) 0
              m.comparison_evidence))

-- Evidence that records a workload records the manifest's.
pub record IsWorkloadBound (m : EvidenceManifest) : Type 0 where
  pub executions : All (λ e. BoundTo e.workload_id m.workload_id) m.execution_evidence
  pub comparisons : All (λ c. BoundTo c.workload_id m.workload_id) m.comparison_evidence

pub validate_workload_bindings-eq-nil :
    (m : EvidenceManifest) → (validate_workload_bindings m ≡ []) ↔ IsWorkloadBound m
unfolding validate_workload_bindings
validate_workload_bindings-eq-nil m =
    iff_trans
      (append-eq-nil_iff _ _
        (collect-eq-nil _ _ (λ i e. if_recorded-eq-nil _ _ m.workload_id e.workload_id) 0
          m.execution_evidence)
        (collect-eq-nil _ _ (λ i c. if_recorded-eq-nil _ _ m.workload_id c.workload_id) 0
          m.comparison_evidence))
      (λ h. record { executions = h.0; comparisons = h.1 }, λ b. (b.executions, b.comparisons))

-- A candidate was made from the manifest's source.
abbrev pub IsSourceBound : EvidenceManifest → Type 0
IsSourceBound m =
    (c : CandidateIdentity)
    → m.candidate_identity ≡ some c
    → show_hash c.source_hash ≡ show_hash m.source_identity.source_hash

pub validate_source_candidate_binding-eq-nil :
    (m : EvidenceManifest) → (validate_source_candidate_binding m ≡ []) ↔ IsSourceBound m
unfolding validate_source_candidate_binding
validate_source_candidate_binding-eq-nil m = go m.candidate_identity
  where
    path : FieldPath
    path = whole "candidate_identity.source_hash"

    source : String
    source = show_hash m.source_identity.source_hash

    go :
        (o : Option CandidateIdentity)
        → ◌≡◌ {A = List IntegrityViolation}
            (elim o [
              | none ↦ []
              | some c ↦ mismatch source_candidate_mismatch path source (show_hash c.source_hash)
            ])
            []
          ↔ ((c : CandidateIdentity) → o ≡ some c → show_hash c.source_hash ≡ source)
    go none = (λ _ c e. cc, λ _. refl)
    go (some d) = (
      λ h c e.
          subst (λ (x : CandidateIdentity). show_hash x.source_hash ≡ source) (some-injective _ _ e)
            ((mismatch-eq-nil _ _ _ _).0 h),
      λ b. (mismatch-eq-nil _ _ _ _).1 (b d refl),
    )

-- The manifest names its oracle, and an oracle execution that records its image ran that one.
abbrev pub IsOracleBound : EvidenceManifest → Type 0
IsOracleBound m =
    (o : OracleIdentity) × (m.oracle_identity ≡ some o)
    × All (λ e. is_oracle e ≡ true → BoundTo e.image_digest o.image_digest) m.execution_evidence

abbrev image_violations : EvidenceManifest → OracleIdentity → List IntegrityViolation
image_violations m o =
    collect
      (λ i e.
        if_recorded image_identity_mismatch (entry "execution_evidence" i "image_digest")
          o.image_digest e.image_digest)
      0 (filter is_oracle m.execution_evidence)

oracle_none : (m : EvidenceManifest) → m.oracle_identity ≡ none → validate_oracle_binding m ≢ []
unfolding validate_oracle_binding
oracle_none m n = rw n (λ e. cc e)

oracle_some :
    (m : EvidenceManifest) (o : OracleIdentity)
    → m.oracle_identity ≡ some o
    → validate_oracle_binding m ≡ image_violations m o
unfolding validate_oracle_binding
oracle_some m o e = rw e

pub validate_oracle_binding-eq-nil :
    (m : EvidenceManifest) → (validate_oracle_binding m ≡ []) ↔ IsOracleBound m
validate_oracle_binding-eq-nil m = elim (Option-cases m.oracle_identity) [
  | inl n ↦ (λ h. absurd (oracle_none m n h), λ b. cc (n, b.1))
  | inr (o, e) ↦ (
    λ h. (o, e, (images o).0 (sym (oracle_some m o e) ∙ h)),
    λ b. oracle_some m b.0 b.1 ∙ (images b.0).1 b.2,
  )
]
  where
    images :
        (o : OracleIdentity)
        → (image_violations m o ≡ [])
          ↔ All
              (λ e. is_oracle e ≡ true → BoundTo e.image_digest o.image_digest)
              m.execution_evidence
    images o =
        iff_trans
          (collect-eq-nil _ _ (λ i e. if_recorded-eq-nil _ _ o.image_digest e.image_digest) 0
            (filter is_oracle m.execution_evidence))
          (All-filter _ is_oracle m.execution_evidence)

-- Each artifact comes from an execution of the manifest.
abbrev pub IsArtifactBound : EvidenceManifest → Type 0
IsArtifactBound m =
    All (λ a. Any (λ e. a.execution_id ≡ e.execution_id) m.execution_evidence) m.artifact_evidence

pub validate_artifact_execution_binding-eq-nil :
    (m : EvidenceManifest) → (validate_artifact_execution_binding m ≡ []) ↔ IsArtifactBound m
unfolding validate_artifact_execution_binding
validate_artifact_execution_binding-eq-nil m =
    collect-eq-nil _ _
      (λ i a.
        iff_trans (not_among-eq-nil _ _ _ a.execution_id)
          (Elem-map a.execution_id _ m.execution_evidence))
      0 m.artifact_evidence
