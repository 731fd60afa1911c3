-- ===== src/Evidence/Completeness/Exact.antt =====
-- The completeness checks against the evidence that they are to find.
use cobol_java_transformatio.Common.{
  String, ◌≡◌, ◌≢◌, ◌↔◌, ◌⊎◌, refl, inl, inr, Bool, true, false, not, none, some, List, [], ◌∷◌,
  ◌++◌, arith, text_eq_iff, elem, Elem, Elem-map, elem_iff, not-elem_iff, All, Any, any, is_empty,
  is_empty-false, filter, Any-map, Any-filter, append-eq-nil_iff, iff_trans, collect-eq-nil,
  report_if, report_if-eq-nil, Option-cases, Bool-cases,
}
use cobol_java_transformatio.Domain.{show_hash, hash_eq, ContentHash}
use cobol_java_transformatio.Evidence.Model.{
  ExecutionEvidence, ArtifactEvidence, ComparisonEvidence, EvidenceManifest, is_oracle,
  is_candidate,
}
use cobol_java_transformatio.Evidence.Graph.{Hashing, manifest_hash}
use cobol_java_transformatio.Evidence.Violation.{IntegrityViolation}
use cobol_java_transformatio.Evidence.Bindings.Exact.{mismatch-eq-nil}
use cobol_java_transformatio.Evidence.Completeness.{
  validate_source_mutation, exits_nonzero, artifact_types, comparison_types,
  validate_exit_status_completeness, validate_manifest_integrity, executed, execution_ids,
  artifacts_of, compared_ids, validate_candidate_executions, validate_required_evidence,
}

-- No execution changed the source tree.
abbrev pub IsUnmutated : EvidenceManifest → Type 0
IsUnmutated m =
    All (λ e. show_hash e.source_tree_hash_after ≡ show_hash e.source_tree_hash_before)
      m.execution_evidence

pub validate_source_mutation-eq-nil :
    (m : EvidenceManifest) → (validate_source_mutation m ≡ []) ↔ IsUnmutated m
unfolding validate_source_mutation
validate_source_mutation-eq-nil m =
    collect-eq-nil _ _
      (λ i e.
        mismatch-eq-nil _ _ (show_hash e.source_tree_hash_before)
          (show_hash e.source_tree_hash_after))
      0 m.execution_evidence

-- An exit status that is behaviour is captured and compared.
abbrev pub HasExitStatus : EvidenceManifest → Type 0
HasExitStatus m =
    any exits_nonzero m.execution_evidence ≡ true
    → Any (λ a. "EXIT_STATUS" ≡ a.artifact.artifact_type) m.artifact_evidence
      × Any (λ c. "EXIT_STATUS" ≡ c.artifact_type) m.comparison_evidence

both_present :
    (m : EvidenceManifest) (x y : IntegrityViolation)
    → (report_if (not (elem "EXIT_STATUS" (artifact_types m))) x
          ++ report_if (not (elem "EXIT_STATUS" (comparison_types m))) y
        ≡ [])
      ↔ (Any (λ a. "EXIT_STATUS" ≡ a.artifact.artifact_type) m.artifact_evidence
          × Any (λ c. "EXIT_STATUS" ≡ c.artifact_type) m.comparison_evidence)
both_present m x y =
    append-eq-nil_iff _ _
      (iff_trans (report_if-eq-nil _ x)
        (iff_trans (not-elem_iff _ _) (Elem-map _ _ m.artifact_evidence)))
      (iff_trans (report_if-eq-nil _ y)
        (iff_trans (not-elem_iff _ _) (Elem-map _ _ m.comparison_evidence)))

pub validate_exit_status_completeness-eq-nil :
    (m : EvidenceManifest) → (validate_exit_status_completeness m ≡ []) ↔ HasExitStatus m
unfolding validate_exit_status_completeness
validate_exit_status_completeness-eq-nil m =
    elim (Bool-cases (any exits_nonzero m.execution_evidence)) [
      | inr n ↦ rw n (λ _ h. cc, λ _. refl)
      | inl y ↦ rw y (λ h _. (both_present m _ _).0 h, λ h. (both_present m _ _).1 (h refl))
    ]

-- The seal is there, and it is the hash of the graph as it stands.
abbrev pub IsSealed : Hashing → EvidenceManifest → Type 0
IsSealed h m = (s : ContentHash) × (m.sealed_hash ≡ some s) × (hash_eq s (manifest_hash h m) ≡ true)

module _ (h : Hashing) where
  seal_none : (m : EvidenceManifest) → m.sealed_hash ≡ none → validate_manifest_integrity h m ≢ []
  unfolding validate_manifest_integrity
  seal_none m n = rw n (λ e. cc e)

  seal_some :
      (m : EvidenceManifest) (s : ContentHash)
      → m.sealed_hash ≡ some s
      → (validate_manifest_integrity h m ≡ []) ↔ (hash_eq s (manifest_hash h m) ≡ true)
  unfolding validate_manifest_integrity
  seal_some m s e = ground arith

  pub validate_manifest_integrity-eq-nil :
      (m : EvidenceManifest) → (validate_manifest_integrity h m ≡ []) ↔ IsSealed h m
  validate_manifest_integrity-eq-nil m = elim (Option-cases m.sealed_hash) [
    | inl n ↦ (λ x. absurd (seal_none m n x), λ x. cc (n, x.1))
    | inr (s, e) ↦ (λ x. (s, e, (seal_some m s e).0 x), λ x. (seal_some m x.0 x.1).1 x.2)
  ]

-- An execution of the role produced the artifact.
abbrev pub ProducedBy : (ExecutionEvidence → Bool) → EvidenceManifest → ArtifactEvidence → Type 0
ProducedBy role m a =
    Any (λ e. (role e ≡ true) × (a.execution_id ≡ e.execution_id)) m.execution_evidence

-- Some comparison names the artifact on one of its sides.
abbrev pub IsCompared : EvidenceManifest → ArtifactEvidence → Type 0
IsCompared m a =
    Any
      (λ c.
        (a.artifact.artifact_id ≡ c.oracle_artifact_id)
        ⊎ (a.artifact.artifact_id ≡ c.candidate_artifact_id))
      m.comparison_evidence

-- The least evidence that can be certified.
pub record HasRequired (m : EvidenceManifest) : Type 0 where
  pub oracle_ran : Any (λ e. is_oracle e ≡ true) m.execution_evidence
  pub candidate_executed :
      Any (λ e. (is_candidate e ≡ true) × (e.execution_phase ≡ "EXECUTE")) m.execution_evidence
  pub oracle_artifact : Any (ProducedBy is_oracle m) m.artifact_evidence
  pub candidate_artifact : Any (ProducedBy is_candidate m) m.artifact_evidence
  pub covered : All (IsCompared m) m.artifact_evidence
  pub compared : is_empty m.comparison_evidence ≡ false

Elem-compared_ids :
    (k : String) (cs : List ComparisonEvidence)
    → Elem k (compared_ids cs)
      ↔ Any (λ c. (k ≡ c.oracle_artifact_id) ⊎ (k ≡ c.candidate_artifact_id)) cs
unfolding compared_ids
Elem-compared_ids k [] = (λ h. h, λ h. h)
Elem-compared_ids k (c ∷ cs) = ground (arith, Elem-compared_ids k cs)

any_iff :
    (p : ExecutionEvidence → Bool) (es : List ExecutionEvidence)
    → (not (any p es) ≡ false) ↔ Any (λ e. p e ≡ true) es
any_iff p [] = (λ h. cc, λ h. absurd h)
any_iff p (e ∷ es) = ground (arith, any_iff p es)

some_executed :
    (es : List ExecutionEvidence)
    → (validate_candidate_executions es ≡ []) ↔ Any (λ e. executed e ≡ true) es
unfolding validate_candidate_executions
some_executed [] = (λ h. cc, λ h. absurd h)
some_executed (e ∷ es) = iff_trans (report_if-eq-nil _ _) (any_iff executed (e ∷ es))

candidate_executions-eq-nil :
    (es : List ExecutionEvidence)
    → (validate_candidate_executions (filter is_candidate es) ≡ [])
      ↔ Any (λ e. (is_candidate e ≡ true) × (e.execution_phase ≡ "EXECUTE")) es
candidate_executions-eq-nil es = iff_trans (some_executed _) (
    iff_trans (Any-filter _ is_candidate es) (
      Any-map (λ e h. (h.0, (text_eq_iff _ _).0 h.1)) es,
      Any-map (λ e h. (h.0, (text_eq_iff _ _).1 h.1)) es,
    ))

is_empty-filter :
    {A : Type 0} (p : A → Bool) (xs : List A)
    → (is_empty (filter p xs) ≡ false) ↔ Any (λ x. p x ≡ true) xs
is_empty-filter p xs =
    iff_trans (is_empty-false (filter p xs))
      (iff_trans (Any-filter _ p xs) (Any-map (λ x h. h.0) xs, Any-map (λ x h. (h, tt)) xs))

artifacts_of-is_empty :
    (role : ExecutionEvidence → Bool) (m : EvidenceManifest)
    → (is_empty (artifacts_of role m) ≡ false) ↔ Any (ProducedBy role m) m.artifact_evidence
artifacts_of-is_empty role m = iff_trans (is_empty-filter _ m.artifact_evidence) (
  Any-map (λ a h. (produced a).0 h) m.artifact_evidence,
  Any-map (λ a h. (produced a).1 h) m.artifact_evidence,
)
  where
    produced :
        (a : ArtifactEvidence)
        → (elem a.execution_id (execution_ids (filter role m.execution_evidence)) ≡ true)
          ↔ ProducedBy role m a
    produced a =
        iff_trans (elem_iff a.execution_id _)
          (iff_trans (Elem-map a.execution_id _ _) (Any-filter _ role m.execution_evidence))

no_executions :
    (m : EvidenceManifest)
    → is_empty m.execution_evidence ≡ true
    → validate_required_evidence m ≢ []
unfolding validate_required_evidence
no_executions m e = rw e (λ h. cc h)

required_parts :
    (m : EvidenceManifest)
    → is_empty m.execution_evidence ≡ false
    → (validate_required_evidence m ≡ []) ↔ (
        Any (λ e. is_oracle e ≡ true) m.execution_evidence
        × (Any (λ e. (is_candidate e ≡ true) × (e.execution_phase ≡ "EXECUTE")) m.execution_evidence
            × (Any (ProducedBy is_oracle m) m.artifact_evidence
                × (Any (ProducedBy is_candidate m) m.artifact_evidence
                    × (All (IsCompared m) m.artifact_evidence
                        × (is_empty m.comparison_evidence ≡ false))))))
unfolding validate_required_evidence
required_parts m e = rw e (
    append-eq-nil_iff _ _
      (iff_trans (report_if-eq-nil _ _) (is_empty-filter is_oracle m.execution_evidence))
      (append-eq-nil_iff _ _ (candidate_executions-eq-nil m.execution_evidence) (
        append-eq-nil_iff _ _ (iff_trans (report_if-eq-nil _ _) (artifacts_of-is_empty is_oracle m))
          (append-eq-nil_iff _ _
            (iff_trans (report_if-eq-nil _ _) (artifacts_of-is_empty is_candidate m))
            (append-eq-nil_iff _ _
              (collect-eq-nil _ _
                (λ i a. iff_trans (report_if-eq-nil _ _) (
                  iff_trans (not-elem_iff _ _)
                    (Elem-compared_ids a.artifact.artifact_id m.comparison_evidence)))
                0 m.artifact_evidence)
              (report_if-eq-nil _ _))))))

pub validate_required_evidence-eq-nil :
    (m : EvidenceManifest) → (validate_required_evidence m ≡ []) ↔ HasRequired m
validate_required_evidence-eq-nil m = elim (Bool-cases (is_empty m.execution_evidence)) [
  | inl none_ran ↦ (
    λ h. absurd (no_executions m none_ran h),
    λ r.
        let ran : is_empty m.execution_evidence ≡ false =
          (is_empty-false _).1 (Any-map (λ e h. tt) m.execution_evidence r.oracle_ran) in
        cc (none_ran, ran),
  )
  | inr ran ↦ iff_trans (required_parts m ran) (
    λ h. record {
      oracle_ran = h.0;
      candidate_executed = h.1.0;
      oracle_artifact = h.1.1.0;
      candidate_artifact = h.1.1.1.0;
      covered = h.1.1.1.1.0;
      compared = h.1.1.1.1.1;
    },
    λ r. (
      r.oracle_ran,
      (r.candidate_executed, (r.oracle_artifact, (r.candidate_artifact, (r.covered, r.compared)))),
    ),
  )
]
