-- ===== src/Verdict/Derive/Verified.antt =====
-- Which evidence gets which verdict: the states of `derive` against conditions on the manifest.
use cobol_java_transformatio.Common.{
  ◌≡◌, ◌↔◌, sym, ap, ◌∙◌, inl, inr, Bool, true, false, none, [], ◌∷◌, arith, is_empty, All, Any,
  Option-cases, ok,
}
use cobol_java_transformatio.Domain.{VerdictState, verified, failed, partial, unproven}
use cobol_java_transformatio.Evidence.Model.{EvidenceManifest}
use cobol_java_transformatio.Verdict.Model.{Verdict, Platform, incomplete_manifest, zero_checks}
use cobol_java_transformatio.Verdict.Analysis.{
  check_for_errors, check_for_unavailable, check_for_unsupported, analyze, final_state, no_findings,
}
use cobol_java_transformatio.Verdict.Derive.{derive, derive_compared}
use cobol_java_transformatio.Verdict.Derive.Checks.{
  check_for_errors_iff, check_for_errors-some, check_for_unavailable-some,
  check_for_unsupported-some, check_for_unsupported_iff,
}
use cobol_java_transformatio.Verdict.Derive.Compared.{
  IsMatch, IsMismatch, IsInconclusive, IsKnown, final_state-verified, final_state-failed,
  final_state-partial,
}
use cobol_java_transformatio.Verdict.Derive.Comparable.{
  IsComparable, check_for_unavailable_iff, is_complete-of_available,
}
use cobol_java_transformatio.Verdict.Derive.Steps.{
  create_verdict-state, derive_errors, derive_unavailable, derive_unsupported, derive_rest,
}

module _ (p : Platform) where
  -- On comparable evidence the comparisons decide.
  derive-compared :
      (m : EvidenceManifest) {v : Verdict}
      → IsComparable m
      → derive p m ≡ ok v
      → v.state ≡ final_state (analyze no_findings m.comparison_evidence)
  unfolding derive derive_compared
  derive-compared m {v} c h =
      create_verdict-state p _ m (analyze no_findings m.comparison_evidence).differences v (
        let errors : check_for_errors m.execution_evidence ≡ none =
          (check_for_errors_iff m.execution_evidence).1 c.clean in
        let available : check_for_unavailable m ≡ none =
          (check_for_unavailable_iff m).1
            (c.oracle_ran, c.oracle_usable, c.candidate_ran, c.candidate_usable) in
        let types : check_for_unsupported m.artifact_evidence ≡ none =
          (check_for_unsupported_iff m.artifact_evidence).1 c.supported in
        ground (
          arith,
          errors,
          available,
          types,
          is_complete-of_available m available,
          c.has_artifacts,
          c.has_comparisons,
          h,
        ))

  -- Other evidence gets a state that no comparison decides.
  abbrev is_compared : VerdictState → Bool
  is_compared verified = true
  is_compared failed = true
  is_compared partial = true
  is_compared _ = false

  comparable_rest :
      (m : EvidenceManifest) (v : Verdict)
      → check_for_unavailable m ≡ none
      → derive_compared p m ≡ ok v
      → is_compared v.state ≡ true
      → (is_empty m.artifact_evidence ≡ false) × (is_empty m.comparison_evidence ≡ false)
  unfolding derive_compared
  comparable_rest m v u h s = ground (
    arith,
    is_complete-of_available m u,
    create_verdict-state p unproven m (incomplete_manifest ∷ []) v,
    create_verdict-state p unproven m (zero_checks ∷ []) v,
  )

  IsComparable-derive :
      (m : EvidenceManifest) {v : Verdict}
      → derive p m ≡ ok v
      → is_compared v.state ≡ true
      → IsComparable m
  IsComparable-derive m {v} h s = elim (Option-cases (check_for_errors m.execution_evidence)) [
    | inr (x, e) ↦
        let state : v.state ≡ x =
          create_verdict-state p x m _ v (sym (derive_errors p m x e) ∙ h) in
        cc (state, check_for_errors-some m.execution_evidence e, s)
    | inl errors ↦ elim (Option-cases (check_for_unavailable m)) [
      | inr (x, e) ↦
          let state : v.state ≡ x =
            create_verdict-state p x m _ v (sym (derive_unavailable p m x errors e) ∙ h) in
          cc (state, check_for_unavailable-some m e, s)
      | inl available ↦ elim (Option-cases (check_for_unsupported m.artifact_evidence)) [
        | inr (x, e) ↦
            let state : v.state ≡ x =
              create_verdict-state p x m _ v
                (sym (derive_unsupported p m x errors available e) ∙ h) in
            cc (state, check_for_unsupported-some m.artifact_evidence e, s)
        | inl types ↦
            let ready = (check_for_unavailable_iff m).0 available in
            let there =
              comparable_rest m v available (sym (derive_rest p m errors available types) ∙ h) s in
            record {
              clean = (check_for_errors_iff m.execution_evidence).0 errors;
              oracle_ran = ready.0;
              oracle_usable = ready.1;
              candidate_ran = ready.2;
              candidate_usable = ready.3;
              supported = (check_for_unsupported_iff m.artifact_evidence).0 types;
              has_artifacts = there.0;
              has_comparisons = there.1;
            }
      ]
    ]
  ]

  -- A derived verdict is VERIFIED exactly where the evidence is comparable (no platform error or
  -- timeout, an oracle and a candidate that ran to a usable end, only supported artifacts, at least
  -- one artifact and one comparison) and every comparison's result is MATCH.
  pub derive-verified :
      (m : EvidenceManifest) {v : Verdict}
      → derive p m ≡ ok v
      → (v.state ≡ verified) ↔ (IsComparable m × All IsMatch m.comparison_evidence)
  derive-verified m h = (
    λ s.
        let c = IsComparable-derive m h (ap is_compared s) in
        (c, (final_state-verified _).0 (sym (derive-compared m c h) ∙ s)),
    λ x. derive-compared m x.0 h ∙ (final_state-verified _).1 x.1,
  )

  -- A derived verdict is FAILED exactly where the evidence is comparable, every comparison has one
  -- of the three known results, and one of them is MISMATCH.
  pub derive-failed :
      (m : EvidenceManifest) {v : Verdict}
      → derive p m ≡ ok v
      → (v.state ≡ failed) ↔ (
          IsComparable m × All IsKnown m.comparison_evidence × Any IsMismatch m.comparison_evidence)
  derive-failed m h = (
    λ s.
        let c = IsComparable-derive m h (ap is_compared s) in
        let (known, some_mismatch) = (final_state-failed _).0 (sym (derive-compared m c h) ∙ s) in
        (c, known, some_mismatch),
    λ x. derive-compared m x.0 h ∙ (final_state-failed _).1 (x.1, x.2),
  )

  -- A derived verdict is PARTIAL exactly where the evidence is comparable, every comparison has a
  -- known result, none is MISMATCH and one is INCONCLUSIVE.
  pub derive-partial :
      (m : EvidenceManifest) {v : Verdict}
      → derive p m ≡ ok v
      → (v.state ≡ partial) ↔ (
          IsComparable m
          × All IsKnown m.comparison_evidence
          × (¬ Any IsMismatch m.comparison_evidence)
          × Any IsInconclusive m.comparison_evidence)
  derive-partial m h = (
    λ s.
        let c = IsComparable-derive m h (ap is_compared s) in
        let r = (final_state-partial _).0 (sym (derive-compared m c h) ∙ s) in (c, r.0, r.1, r.2),
    λ x. derive-compared m x.0 h ∙ (final_state-partial _).1 (x.1, x.2, x.3),
  )
