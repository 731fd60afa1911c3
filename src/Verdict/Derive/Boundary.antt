-- ===== src/Verdict/Derive/Boundary.antt =====
-- The trust boundary of the deriver: clamped verdicts, and when there is a verdict at all.
use cobol_java_transformatio.Common.{
  ◌≡◌, ◌≢◌, refl, true, false, none, some, List, [], ◌∷◌, map, arith, Option-cases, Bool-cases,
  is_empty, ◌∙◌, Result, ok, err, inl, inr,
}
use cobol_java_transformatio.Domain.{
  VerdictState, verified, unproven, error, OracleIdentity, hash_eq, show_hash,
}
use cobol_java_transformatio.Evidence.Model.{EvidenceManifest, is_complete}
use cobol_java_transformatio.Evidence.Graph.{manifest_hash}
use cobol_java_transformatio.Evidence.Violation.{IntegrityViolation}
use cobol_java_transformatio.Verdict.Model.{
  Verdict, ValidatedEvidenceManifest, Platform, Difference, violation, post_validation_mutation,
  no_oracle_identity, AttributeError, Scope, trust_boundary_violation, incomplete_manifest,
  zero_checks,
}
use cobol_java_transformatio.Verdict.Analysis.{
  check_for_errors, check_for_unavailable, check_for_unsupported, analyze, final_state, no_findings,
}
use cobol_java_transformatio.Verdict.Derive.{
  derive, derive_compared, create_verdict, error_verdict, clamp, derive_untrusted,
  derive_from_validated, candidate_hash_of,
}
use cobol_java_transformatio.Verdict.Derive.Steps.{
  derive_errors, derive_unavailable, derive_unsupported, derive_rest,
}

module _ (p : Platform) where
  create_verdict_total :
      (s : VerdictState) (m : EvidenceManifest) (d : List Difference) (o : OracleIdentity)
      → m.oracle_identity ≡ some o
      → create_verdict p s m d ≢ err no_oracle_identity
  unfolding create_verdict
  create_verdict_total s m d o h = ground arith

  create_verdict-none :
      (s : VerdictState) (m : EvidenceManifest) (d : List Difference)
      → m.oracle_identity ≡ none
      → create_verdict p s m d ≡ err no_oracle_identity
  unfolding create_verdict
  create_verdict-none s m d h = rw h

  compared_creates :
      (m : EvidenceManifest)
      → (s : VerdictState) × (d : List Difference) × (derive_compared p m ≡ create_verdict p s m d)
  unfolding derive_compared
  compared_creates m = elim (Bool-cases (is_complete m)) [
    | inr e ↦ (unproven, incomplete_manifest ∷ [], rw e)
    | inl c ↦ elim (Bool-cases (is_empty m.comparison_evidence)) [
      | inl e ↦ (unproven, zero_checks ∷ [], rw (c, e))
      | inr e ↦
          let t = analyze no_findings m.comparison_evidence in
          (final_state t, t.differences, rw (c, e))
    ]
  ]

  -- Whatever branch is taken, the result is one call of `create_verdict`.
  derive_creates :
      (m : EvidenceManifest)
      → (s : VerdictState) × (d : List Difference) × (derive p m ≡ create_verdict p s m d)
  derive_creates m = elim (Option-cases (check_for_errors m.execution_evidence)) [
    | inr (x, e) ↦ (x, _, derive_errors p m x e)
    | inl errors ↦ elim (Option-cases (check_for_unavailable m)) [
      | inr (x, e) ↦ (x, _, derive_unavailable p m x errors e)
      | inl available ↦ elim (Option-cases (check_for_unsupported m.artifact_evidence)) [
        | inr (x, e) ↦ (x, _, derive_unsupported p m x errors available e)
        | inl types ↦
            let (s, d, e) = compared_creates m in (s, d, derive_rest p m errors available types ∙ e)
      ]
    ]
  ]

  -- With an oracle to name, the result is no exception.
  result_of_ne_err :
      (r : Result AttributeError Verdict) → r ≢ err no_oracle_identity → (v : Verdict) × (r ≡ ok v)
  result_of_ne_err (ok v) h = (v, refl)
  result_of_ne_err (err no_oracle_identity) h = absurd (h refl)

  -- Evidence gets a verdict exactly where its manifest names an oracle; without one, reading the
  -- oracle's fields raises.
  pub derive-total :
      (m : EvidenceManifest)
      → ((o : OracleIdentity) → m.oracle_identity ≡ some o → (v : Verdict) × (derive p m ≡ ok v))
        × (m.oracle_identity ≡ none → derive p m ≡ err no_oracle_identity)
  derive-total m =
      let (s, d, e) = derive_creates m in
      (
        λ o h. result_of_ne_err _ (rw e (create_verdict_total s m d o h)),
        λ h. rw e (create_verdict-none s m d h),
      )

  -- Untrusted evidence never gets a VERIFIED verdict, whatever its violations.
  pub derive_untrusted-ne-verified :
      (m : EvidenceManifest) (vs : List IntegrityViolation) {v : Verdict}
      → derive_untrusted p m vs ≡ ok v
      → v.state ≢ verified
  unfolding derive_untrusted clamp error_verdict
  derive_untrusted-ne-verified m vs h = ground arith

  error_verdict_of : EvidenceManifest → OracleIdentity → Scope → List Difference → Verdict
  error_verdict_of m o scope differences = record {
    state = error;
    workload_id = m.workload_id;
    run_id = m.run_id;
    source_hash = show_hash m.source_identity.source_hash;
    candidate_hash = candidate_hash_of m;
    oracle_id = o.oracle_id;
    oracle_digest = o.image_digest;
    executed_check_count = 0;
    skipped_count = 0;
    unavailable_count = 0;
    supported_scope_statement = scope;
    evidence_manifest_hash = show_hash (manifest_hash p.hashing m);
    derivation_timestamp = p.utc_now;
    differences = differences;
  }

  -- The clamp of untrusted evidence: a verdict other than VERIFIED is passed on as it is, and in
  -- place of VERIFIED stands ERROR with no executed checks and the violations as its differences.
  pub derive_untrusted_lem :
      (m : EvidenceManifest) (vs : List IntegrityViolation) {v : Verdict}
      → derive p m ≡ ok v
      → (v.state ≢ verified → derive_untrusted p m vs ≡ ok v)
        × (v.state ≡ verified
            → (w : Verdict) × (derive_untrusted p m vs ≡ ok w)
              × (w.state ≡ error)
              × (w.executed_check_count ≡ 0)
              × (w.differences ≡ map violation vs))
  unfolding derive_untrusted clamp error_verdict error_verdict_of
  derive_untrusted_lem m vs {v} h = (
    ground arith,
    λ s. elim (Option-cases m.oracle_identity) [
      | inl no_oracle ↦ cc (h, (derive-total m).1 no_oracle)
      | inr (o, has_oracle) ↦
          let w = error_verdict_of m o trust_boundary_violation (map violation vs) in
          (w, ground arith, refl, refl, refl)
    ],
  )

  -- A verdict that is derived from a wrapped manifest whose hash is not the one taken at
  -- validation is ERROR, whatever the evidence, with no executed checks and the mutation as its
  -- only difference.
  pub derive_from_validated-mutated :
      (x : ValidatedEvidenceManifest) {v : Verdict}
      → hash_eq (manifest_hash p.hashing x.manifest) x.integrity_hash ≡ false
      → derive_from_validated p x ≡ ok v
      → (v.state ≡ error)
        × (v.executed_check_count ≡ 0)
        × (v.differences
            ≡ post_validation_mutation (manifest_hash p.hashing x.manifest) x.integrity_hash ∷ [])
  unfolding derive_from_validated error_verdict
  derive_from_validated-mutated x e h = ground arith

  -- Behind an unchanged hash the validated manifest is derived as it is.
  pub derive_from_validated-unchanged :
      (x : ValidatedEvidenceManifest)
      → hash_eq (manifest_hash p.hashing x.manifest) x.integrity_hash ≡ true
      → derive_from_validated p x ≡ derive p x.manifest
  unfolding derive_from_validated
  derive_from_validated-unchanged x e = ground arith
