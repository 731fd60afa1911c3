-- ===== src/Evidence/Pairing/Exact.antt =====
-- The checks of the comparisons against the pairing that they are to check.
use mathlib.Core.Option.{some-injective}
use cobol_java_transformatio.Common.{
  ℕ, String, ◌≡◌, ◌≢◌, ◌↔◌, refl, sym, subst, ◌∙◌, inl, inr, true, false, not, ◌&&◌, Option, none,
  some, List, [], ◌∷◌, arith, text_eq, text_eq_iff, Elem, not-text_eq_iff, All, is_empty,
  append-eq-nil_iff, iff_trans, collect-eq-nil, report_if-eq-nil, Option-cases, Bool-cases,
}
use cobol_java_transformatio.Domain.{ArtifactIdentity}
use cobol_java_transformatio.Comparators.Identity.{
  get?, get_or, canonical_comparator_ids, comparator_id_aliases,
}
use cobol_java_transformatio.Evidence.Model.{ArtifactEvidence, ComparisonEvidence, EvidenceManifest}
use cobol_java_transformatio.Evidence.Bindings.Exact.{mismatch-eq-nil, not_among-eq-nil}
use cobol_java_transformatio.Evidence.Pairing.{
  by_id, artifact_ids, wrong_role, wrong_type, comparison_pairing_violations,
  comparison_artifact_violations, validate_comparison_artifact_binding, attribution,
  validate_comparator_binding, known_comparison_results, validate_comparison_results,
}

-- A side of a comparison: an artifact of the manifest with the role and the compared type.
abbrev pub IsSide : EvidenceManifest → ComparisonEvidence → String → String → Type 0
IsSide m c role id =
    (a : ArtifactIdentity) × (by_id id m.artifact_evidence ≡ some a)
    × (a.producer_role ≡ role)
    × (a.artifact_type ≡ c.artifact_type)

-- A comparison pairs an oracle's artifact with a candidate's of its type, and a match shows no
-- difference.
pub record IsPairing (m : EvidenceManifest) (c : ComparisonEvidence) : Type 0 where
  pub distinct : c.oracle_artifact_id ≢ c.candidate_artifact_id
  pub oracle_side : IsSide m c "ORACLE" c.oracle_artifact_id
  pub candidate_side : IsSide m c "CANDIDATE" c.candidate_artifact_id
  pub clean_match : c.result ≡ "MATCH" → is_empty c.differences ≡ true

-- The dict has an entry for each id that occurs.
by_id-of_Elem :
    (k : String) (arts : List ArtifactEvidence)
    → Elem k (artifact_ids arts) ↔ ((a : ArtifactIdentity) × (by_id k arts ≡ some a))
unfolding by_id
by_id-of_Elem k [] = (λ h. absurd h, λ h. cc (h.1))
by_id-of_Elem k (x ∷ arts) = elim (Option-cases (by_id k arts)) [
  | inr (y, e) ↦ rw e (λ _. (y, refl), λ _. inr ((by_id-of_Elem k arts).1 (y, e)))
  | inl n ↦ elim (Bool-cases (text_eq x.artifact.artifact_id k)) [
    | inl t ↦ rw (n, t) (λ _. (x.artifact, refl), λ _. inl (sym ((text_eq_iff _ _).0 t)))
    | inr t ↦
        rw (n, t)
          (
            elim [
              | inl e ↦ cc (t, (text_eq_iff x.artifact.artifact_id k).1 (sym e))
              | inr h ↦ cc (n, ((by_id-of_Elem k arts).0 h).1)
            ],
            λ h. cc (h.1),
          )
  ]
]

abbrev Fits : (ArtifactIdentity → Type 0) → Option ArtifactIdentity → Type 0
Fits P o = (a : ArtifactIdentity) → o ≡ some a → P a

wrong_role-eq-nil :
    (i : ℕ) (f role : String) (o : Option ArtifactIdentity)
    → (wrong_role i f role o ≡ []) ↔ Fits (λ a. a.producer_role ≡ role) o
wrong_role-eq-nil i f role none = (λ _ a e. cc, λ _. refl)
wrong_role-eq-nil i f role (some b) = (
  λ h a e.
      subst (λ (x : ArtifactIdentity). x.producer_role ≡ role) (some-injective _ _ e)
        ((not-text_eq_iff _ _).0 ((report_if-eq-nil _ _).0 h)),
  λ p. (report_if-eq-nil _ _).1 ((not-text_eq_iff _ _).1 (p b refl)),
)

wrong_type-eq-nil :
    (i : ℕ) (f type : String) (o : Option ArtifactIdentity)
    → (wrong_type i f type o ≡ []) ↔ Fits (λ a. a.artifact_type ≡ type) o
wrong_type-eq-nil i f type none = (λ _ a e. cc, λ _. refl)
wrong_type-eq-nil i f type (some b) = (
  λ h a e.
      subst (λ (x : ArtifactIdentity). x.artifact_type ≡ type) (some-injective _ _ e)
        ((mismatch-eq-nil _ _ _ _).0 h),
  λ p. (mismatch-eq-nil _ _ _ _).1 (p b refl),
)

text_eq-eq-false : (s t : String) → (text_eq s t ≡ false) ↔ (s ≢ t)
text_eq-eq-false s t = ground (arith, text_eq_iff s t)

clean_match-eq-nil :
    (c : ComparisonEvidence)
    → ((text_eq c.result "MATCH" && not (is_empty c.differences)) ≡ false)
      ↔ (c.result ≡ "MATCH" → is_empty c.differences ≡ true)
clean_match-eq-nil c = ground (arith, text_eq_iff c.result "MATCH")

-- The findings about one comparison, one after another.
pairing_parts :
    (m : EvidenceManifest) (i : ℕ) (c : ComparisonEvidence)
    → (comparison_artifact_violations m i c ≡ []) ↔ (
        Elem c.oracle_artifact_id (artifact_ids m.artifact_evidence)
        × (Elem c.candidate_artifact_id (artifact_ids m.artifact_evidence)
            × ((c.oracle_artifact_id ≢ c.candidate_artifact_id)
                × (Fits
                      (λ a. a.producer_role ≡ "ORACLE")
                      (by_id c.oracle_artifact_id m.artifact_evidence)
                    × (Fits
                          (λ a. a.producer_role ≡ "CANDIDATE")
                          (by_id c.candidate_artifact_id m.artifact_evidence)
                        × (Fits
                              (λ a. a.artifact_type ≡ c.artifact_type)
                              (by_id c.oracle_artifact_id m.artifact_evidence)
                            × (Fits
                                  (λ a. a.artifact_type ≡ c.artifact_type)
                                  (by_id c.candidate_artifact_id m.artifact_evidence)
                                × (c.result ≡ "MATCH" → is_empty c.differences ≡ true))))))))
unfolding comparison_artifact_violations comparison_pairing_violations
pairing_parts m i c = append-eq-nil_iff _ _ (not_among-eq-nil _ _ _ c.oracle_artifact_id) (
    append-eq-nil_iff _ _ (not_among-eq-nil _ _ _ c.candidate_artifact_id) (
      append-eq-nil_iff _ _ (iff_trans (report_if-eq-nil _ _) (text_eq-eq-false _ _)) (
        append-eq-nil_iff _ _
          (wrong_role-eq-nil i _ "ORACLE" (by_id c.oracle_artifact_id m.artifact_evidence))
          (append-eq-nil_iff _ _
            (wrong_role-eq-nil i _ "CANDIDATE" (by_id c.candidate_artifact_id m.artifact_evidence))
            (append-eq-nil_iff _ _
              (wrong_type-eq-nil i _ c.artifact_type
                (by_id c.oracle_artifact_id m.artifact_evidence))
              (append-eq-nil_iff _ _
                (wrong_type-eq-nil i _ c.artifact_type
                  (by_id c.candidate_artifact_id m.artifact_evidence))
                (iff_trans (report_if-eq-nil _ _) (clean_match-eq-nil c))))))))

Fits-unique :
    (P : ArtifactIdentity → Type 0) (o : Option ArtifactIdentity) (a : ArtifactIdentity)
    → o ≡ some a
    → P a
    → Fits P o
Fits-unique P o a e p b f = subst P (some-injective _ _ (sym e ∙ f)) p

comparison_artifact_violations-eq-nil :
    (m : EvidenceManifest) (i : ℕ) (c : ComparisonEvidence)
    → (comparison_artifact_violations m i c ≡ []) ↔ IsPairing m c
comparison_artifact_violations-eq-nil m i c = iff_trans (pairing_parts m i c) (
  λ (o, rest).
      let (k, rest₁) = rest in
      let (ne, rest₂) = rest₁ in
      let (ro, rest₃) = rest₂ in
      let (rk, rest₄) = rest₃ in
      let (to, rest₅) = rest₄ in
      let (tk, d) = rest₅ in
      let (a, ea) = (by_id-of_Elem _ m.artifact_evidence).0 o in
      let (b, eb) = (by_id-of_Elem _ m.artifact_evidence).0 k in
      record {
        distinct = ne;
        oracle_side = (a, ea, ro a ea, to a ea);
        candidate_side = (b, eb, rk b eb, tk b eb);
        clean_match = d;
      },
  λ h.
      let (a, ea, ra, ta) = h.oracle_side in
      let (b, eb, rb, tb) = h.candidate_side in
      (
        (by_id-of_Elem _ m.artifact_evidence).1 (a, ea),
        (
          (by_id-of_Elem _ m.artifact_evidence).1 (b, eb),
          (
            h.distinct,
            (
              Fits-unique _ _ a ea ra,
              (
                Fits-unique _ _ b eb rb,
                (Fits-unique _ _ a ea ta, (Fits-unique _ _ b eb tb, h.clean_match)),
              ),
            ),
          ),
        ),
      ),
)

pub validate_comparison_artifact_binding-eq-nil :
    (m : EvidenceManifest)
    → (validate_comparison_artifact_binding m ≡ []) ↔ All (IsPairing m) m.comparison_evidence
unfolding validate_comparison_artifact_binding
validate_comparison_artifact_binding-eq-nil m =
    collect-eq-nil _ _ (λ i c. comparison_artifact_violations-eq-nil m i c) 0 m.comparison_evidence

-- The comparator named is the one registered for the compared type, if there is one.
abbrev pub IsAttributed : ComparisonEvidence → Type 0
IsAttributed c =
    (expected : String)
    → get? c.artifact_type canonical_comparator_ids ≡ some expected
    → get_or c.comparator_id comparator_id_aliases c.comparator_id ≡ expected

attribution-eq-nil :
    (i : ℕ) (c : ComparisonEvidence) (o : Option String)
    → (attribution i c o ≡ []) ↔ (
        (expected : String)
        → o ≡ some expected
        → get_or c.comparator_id comparator_id_aliases c.comparator_id ≡ expected)
attribution-eq-nil i c none = (λ _ x e. cc, λ _. refl)
attribution-eq-nil i c (some x) = (
  λ h y f. (not-text_eq_iff _ _).0 ((report_if-eq-nil _ _).0 h) ∙ some-injective _ _ f,
  λ b. (report_if-eq-nil _ _).1 ((not-text_eq_iff _ _).1 (b x refl)),
)

pub validate_comparator_binding-eq-nil :
    (m : EvidenceManifest)
    → (validate_comparator_binding m ≡ []) ↔ All IsAttributed m.comparison_evidence
unfolding validate_comparator_binding
validate_comparator_binding-eq-nil m =
    collect-eq-nil _ _
      (λ i c. attribution-eq-nil i c (get? c.artifact_type canonical_comparator_ids)) 0
      m.comparison_evidence

pub validate_comparison_results-eq-nil :
    (m : EvidenceManifest)
    → (validate_comparison_results m ≡ [])
      ↔ All (λ c. Elem c.result known_comparison_results) m.comparison_evidence
unfolding validate_comparison_results
validate_comparison_results-eq-nil m =
    collect-eq-nil _ _ (λ i c. not_among-eq-nil _ _ known_comparison_results c.result) 0
      m.comparison_evidence
