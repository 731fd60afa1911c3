-- ===== src/Evidence/Admission.antt =====
-- The conditions of all checks together, against `validate`.
use cobol_java_transformatio.Common.{
  ◌≡◌, ◌↔◌, [], arith, All, Elem, iff_trans, append-eq-nil_iff, ok,
}
use cobol_java_transformatio.Evidence.Model.{EvidenceManifest}
use cobol_java_transformatio.Evidence.Graph.{manifest_hash}
use cobol_java_transformatio.Evidence.Bindings.Exact.{
  IsRunBound, IsWorkloadBound, IsSourceBound, IsOracleBound, IsArtifactBound,
  validate_run_bindings-eq-nil, validate_workload_bindings-eq-nil,
  validate_source_candidate_binding-eq-nil, validate_oracle_binding-eq-nil,
  validate_artifact_execution_binding-eq-nil,
}
use cobol_java_transformatio.Evidence.Pairing.{known_comparison_results}
use cobol_java_transformatio.Evidence.Pairing.Exact.{
  IsPairing, IsAttributed, validate_comparison_artifact_binding-eq-nil,
  validate_comparator_binding-eq-nil, validate_comparison_results-eq-nil,
}
use cobol_java_transformatio.Evidence.Completeness.Exact.{
  IsUnmutated, HasExitStatus, IsSealed, HasRequired, validate_source_mutation-eq-nil,
  validate_exit_status_completeness-eq-nil, validate_manifest_integrity-eq-nil,
  validate_required_evidence-eq-nil,
}
use cobol_java_transformatio.Evidence.Integrity.{violations_of, validate}
use cobol_java_transformatio.Verdict.Model.{ValidatedEvidenceManifest, Platform}

pub record IsAdmissible (p : Platform) (m : EvidenceManifest) : Type 0 where
  pub run : IsRunBound m
  pub workload : IsWorkloadBound m
  pub source : IsSourceBound m
  pub oracle : IsOracleBound m
  pub artifacts : IsArtifactBound m
  pub pairings : All (IsPairing m) m.comparison_evidence
  pub comparators : All IsAttributed m.comparison_evidence
  pub results : All (λ c. Elem c.result known_comparison_results) m.comparison_evidence
  pub unmutated : IsUnmutated m
  pub exit_status : HasExitStatus m
  pub seal : IsSealed p.hashing m
  pub required : HasRequired m

module _ (p : Platform) where
  violations_of-eq-nil : (m : EvidenceManifest) → (violations_of p m ≡ []) ↔ IsAdmissible p m
  unfolding violations_of
  violations_of-eq-nil m =
      iff_trans
        (append-eq-nil_iff _ _ (validate_run_bindings-eq-nil m) (
          append-eq-nil_iff _ _ (validate_workload_bindings-eq-nil m) (
            append-eq-nil_iff _ _ (validate_source_candidate_binding-eq-nil m) (
              append-eq-nil_iff _ _ (validate_oracle_binding-eq-nil m) (
                append-eq-nil_iff _ _ (validate_artifact_execution_binding-eq-nil m) (
                  append-eq-nil_iff _ _ (validate_comparison_artifact_binding-eq-nil m) (
                    append-eq-nil_iff _ _ (validate_comparator_binding-eq-nil m) (
                      append-eq-nil_iff _ _ (validate_comparison_results-eq-nil m) (
                        append-eq-nil_iff _ _ (validate_source_mutation-eq-nil m) (
                          append-eq-nil_iff _ _ (validate_exit_status_completeness-eq-nil m) (
                            append-eq-nil_iff _ _ (validate_manifest_integrity-eq-nil p.hashing m)
                              (validate_required_evidence-eq-nil m))))))))))))
        (
          λ (a, h1).
              let (b, h2) = h1 in
              let (c, h3) = h2 in
              let (d, h4) = h3 in
              let (e, h5) = h4 in
              let (f, h6) = h5 in
              let (g, h7) = h6 in
              let (i, h8) = h7 in
              let (j, h9) = h8 in
              let (k, h10) = h9 in
              let (l, n) = h10 in
              record {
                run = a;
                workload = b;
                source = c;
                oracle = d;
                artifacts = e;
                pairings = f;
                comparators = g;
                results = i;
                unmutated = j;
                exit_status = k;
                seal = l;
                required = n;
              },
          λ r. (
            r.run,
            (
              r.workload,
              (
                r.source,
                (
                  r.oracle,
                  (
                    r.artifacts,
                    (
                      r.pairings,
                      (
                        r.comparators,
                        (r.results, (r.unmutated, (r.exit_status, (r.seal, r.required)))),
                      ),
                    ),
                  ),
                ),
              ),
            ),
          ),
        )

  -- What `validate` wraps an accepted manifest in.
  abbrev pub wrap : EvidenceManifest → ValidatedEvidenceManifest
  wrap m = record {
    manifest = m;
    integrity_hash = manifest_hash p.hashing m;
    validated_at = p.utc_now;
  }

  validate-of_nil : (m : EvidenceManifest) → violations_of p m ≡ [] → validate p m ≡ ok (wrap m)
  unfolding validate
  validate-of_nil m e = ground arith

  nil-of_validate :
      (m : EvidenceManifest) {x : ValidatedEvidenceManifest}
      → validate p m ≡ ok x
      → violations_of p m ≡ []
  unfolding validate
  nil-of_validate m h = ground arith

  -- A manifest is accepted, and wrapped with its hash as it stands, exactly where it is admissible:
  -- run, workload, source, oracle image and artifact bindings hold, each comparison pairs an oracle
  -- artifact with a candidate artifact of its type under the registered comparator and has a known
  -- result, the sources are unchanged, a behavioural exit status is compared, the seal matches the
  -- evidence, and the required evidence is there.
  pub validate-IsAdmissible :
      (m : EvidenceManifest) → (validate p m ≡ ok (wrap m)) ↔ IsAdmissible p m
  validate-IsAdmissible m = (
    λ h. (violations_of-eq-nil m).0 (nil-of_validate m h),
    λ a. validate-of_nil m ((violations_of-eq-nil m).1 a),
  )
