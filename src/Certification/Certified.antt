-- ===== src/Certification/Certified.antt =====
-- engine/evidence/integrity.py in front of engine/verdict/derivation.py: the verdicts of accepted
-- manifests.
use cobol_java_transformatio.Common.{
  ◌≡◌, sym, ◌∙◌, true, false, List, [], ◌∷◌, arith, All, Any, is_empty, text_eq_refl, ok,
}
use cobol_java_transformatio.Domain.{verified, ContentHash, hash_eq}
use cobol_java_transformatio.Evidence.Model.{
  ComparisonEvidence, EvidenceManifest, is_oracle, is_candidate,
}
use cobol_java_transformatio.Evidence.Graph.{manifest_hash}
use cobol_java_transformatio.Evidence.Admission.{wrap, validate-IsAdmissible}
use cobol_java_transformatio.Evidence.Pairing.Exact.{IsPairing, IsSide}
use cobol_java_transformatio.Evidence.Completeness.Exact.{IsCompared}
use cobol_java_transformatio.Evidence.Integrity.{validate}
use cobol_java_transformatio.Verdict.Model.{Verdict, Platform}
use cobol_java_transformatio.Verdict.Derive.{derive, derive_from_validated}
use cobol_java_transformatio.Verdict.Derive.Compared.{IsMatch}
use cobol_java_transformatio.Verdict.Derive.Verified.{derive-verified}
use cobol_java_transformatio.Verdict.Derive.Boundary.{derive-total, derive_from_validated-unchanged}

hash_eq_refl : (h : ContentHash) → hash_eq h h ≡ true
hash_eq_refl h = ground (arith, text_eq_refl h.digest, text_eq_refl h.algorithm)

-- A comparison that certifies: an oracle's and a candidate's artifact of one type, equal with no
-- difference on record, in the manifest's run.
pub record Certifies (m : EvidenceManifest) (c : ComparisonEvidence) : Type 0 where
  pub matches : c.result ≡ "MATCH"
  pub no_difference : is_empty c.differences ≡ true
  pub of_run : c.run_id ≡ m.run_id
  pub oracle_side : IsSide m c "ORACLE" c.oracle_artifact_id
  pub candidate_side : IsSide m c "CANDIDATE" c.candidate_artifact_id

Certifies-All :
    (m : EvidenceManifest) (cs : List ComparisonEvidence)
    → All IsMatch cs
    → All (IsPairing m) cs
    → All (λ c. c.run_id ≡ m.run_id) cs
    → All (Certifies m) cs
Certifies-All m [] _ _ _ = tt
Certifies-All m (c ∷ cs) (x, xs) (y, ys) (z, zs) = (
  record {
    matches = x;
    no_difference = y.clean_match x;
    of_run = z;
    oracle_side = y.oracle_side;
    candidate_side = y.candidate_side;
  },
  Certifies-All m cs xs ys zs,
)

module _ (p : Platform) where
  -- A fresh validation is not read as a mutation.
  pub derive_from_validated-wrap :
      (m : EvidenceManifest) → derive_from_validated p (wrap p m) ≡ derive p m
  derive_from_validated-wrap m =
      derive_from_validated-unchanged p (wrap p m) (hash_eq_refl (manifest_hash p.hashing m))

  -- Evidence that validation accepts always gets a verdict: deriving it raises nothing.
  pub validated_total :
      (m : EvidenceManifest)
      → validate p m ≡ ok (wrap p m)
      → (v : Verdict) × (derive_from_validated p (wrap p m) ≡ ok v)
  validated_total m h =
      let (o, e, _) = ((validate-IsAdmissible p m).0 h).oracle in
      let (v, d) = (derive-total p m).0 o e in (v, derive_from_validated-wrap m ∙ d)

  -- If validation accepts a manifest and its verdict is VERIFIED, then every comparison is a match
  -- with no recorded difference between an oracle artifact and a candidate artifact of the same
  -- type and of the manifest's run, every captured artifact is compared, there is a comparison, an
  -- oracle ran and a candidate was executed.
  pub verified-Certifies :
      (m : EvidenceManifest) {v : Verdict}
      → validate p m ≡ ok (wrap p m)
      → derive_from_validated p (wrap p m) ≡ ok v
      → v.state ≡ verified
      → All (Certifies m) m.comparison_evidence
        × All (IsCompared m) m.artifact_evidence
        × (is_empty m.comparison_evidence ≡ false)
        × Any (λ e. is_oracle e ≡ true) m.execution_evidence
        × Any (λ e. (is_candidate e ≡ true) × (e.execution_phase ≡ "EXECUTE")) m.execution_evidence
  verified-Certifies m h d s =
      let a = (validate-IsAdmissible p m).0 h in
      let matched = ((derive-verified p m (sym (derive_from_validated-wrap m) ∙ d)).0 s).1 in
      (
        Certifies-All m m.comparison_evidence matched a.pairings a.run.comparisons,
        a.required.covered,
        a.required.compared,
        a.required.oracle_ran,
        a.required.candidate_executed,
      )
