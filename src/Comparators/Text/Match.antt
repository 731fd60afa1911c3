-- ===== src/Comparators/Text/Match.antt =====
-- The results of the text comparators, for each ordering and for missing content.
use mathlib.Core.List.{Perm}
use mathlib.Core.Logic.{∥∥₁_elim}
use cobol_java_transformatio.Common.{
  String, ◌≡◌, ◌≢◌, ◌↔◌, ◌⊎◌, refl, ap, Option, none, some, List, [], arith, inl, inr, text_eq,
  text_eq_refl, ok,
}
use cobol_java_transformatio.Common.Bytes.{Bytes, bytes_eq_iff}
use cobol_java_transformatio.Domain.{ArtifactIdentity}
use cobol_java_transformatio.Comparators.Model.{
  match, mismatch, inconclusive, ComparatorResult, FailurePolicy,
}
use cobol_java_transformatio.Comparators.Policy.{
  missing_result, handle_missing, apply_ordering, normalize, splitlines, sorted, concat,
}
use cobol_java_transformatio.Comparators.Policy.Lines.{sorted-Permᴰ}
use cobol_java_transformatio.Comparators.Text.{
  TextComparator, report, prepare, compare_present, compare,
}

pub sequential : (s : Bytes) → prepare [] "SEQUENTIAL" s ≡ ok s
unfolding prepare normalize apply_ordering text_eq
sequential s = refl

pub by_lines : (s : Bytes) → prepare [] "SORTED" s ≡ ok (concat (sorted (splitlines s)))
unfolding prepare normalize apply_ordering text_eq
by_lines s = refl

sorted_set : IsSet (List Bytes)
sorted_set = hlevel

module _ (t : TextComparator) (oa ca : ArtifactIdentity) where
  pub report-match :
      (ns : List String) (ordering : String) (o c : Bytes)
      → (((report t oa ca ns ordering o c).result ≡ match) ↔ (o ≡ c))
        × (((report t oa ca ns ordering o c).result ≡ mismatch) ↔ (o ≢ c))
  unfolding report
  report-match ns ordering o c = ground (arith, bytes_eq_iff o c)

  -- On prepared contents the comparison is equality.
  pub compare-prepared :
      (policy : Option FailurePolicy) (ns : List String) (ordering : String) (o c o' c' : Bytes)
      → prepare ns ordering o ≡ ok o'
      → prepare ns ordering c ≡ ok c'
      → compare t oa (some o) ca (some c) ns ordering policy ≡ ok (report t oa ca ns ordering o' c')
  unfolding compare compare_present handle_missing
  compare-prepared policy ns ordering o c o' c' eo ec = ground arith

  -- With no normalization and in file order, text comparison never fails and is byte-exact: it
  -- reports a match exactly where the two contents are the same bytes, and else a mismatch.
  pub compare-sequential :
      (policy : Option FailurePolicy) (o c : Bytes)
      → (r : ComparatorResult) × (compare t oa (some o) ca (some c) [] "SEQUENTIAL" policy ≡ ok r)
        × ((r.result ≡ match) ↔ (o ≡ c))
        × ((r.result ≡ mismatch) ↔ (o ≢ c))
  compare-sequential policy o c =
      let (matched, differs) = report-match [] "SEQUENTIAL" o c in
      (
        report t oa ca [] "SEQUENTIAL" o c,
        compare-prepared policy [] "SEQUENTIAL" o c o c (sequential o) (sequential c),
        matched,
        differs,
      )

  -- Under the SORTED ordering, contents whose lines are the same up to their order match.
  pub compare-sorted :
      (policy : Option FailurePolicy) (o c : Bytes)
      → Perm (splitlines o) (splitlines c)
      → (r : ComparatorResult) × (compare t oa (some o) ca (some c) [] "SORTED" policy ≡ ok r)
        × (r.result ≡ match)
  compare-sorted policy o c h =
      let same : sorted (splitlines o) ≡ sorted (splitlines c) =
        ∥∥₁_elim h (sorted_set _ _) sorted-Permᴰ in
      let r =
        report t oa ca [] "SORTED" (concat (sorted (splitlines o)))
          (concat (sorted (splitlines c))) in
      (
        r,
        compare-prepared policy [] "SORTED" o c _ _ (by_lines o) (by_lines c),
        (report-match [] "SORTED" _ _).0.1 (ap concat same),
      )

  ne_match :
      (policy : Option FailurePolicy) (o c : Option Bytes)
      → (missing_result t.id oa ca o c policy).result ≢ match
  ne_match policy o c = ground arith

  default_policy :
      (policy : Option FailurePolicy) (o c : Option Bytes)
      → policy ≡ none
      → (missing_result t.id oa ca o c policy).result ≡ inconclusive
  default_policy policy o c e = rw e (rw (text_eq_refl "UNAVAILABLE"))

  -- Content that is missing on a side is never a match, whatever the other side holds, whichever
  -- policies are declared: it is inconclusive under the default failure policy.
  pub compare-missing :
      (policy : Option FailurePolicy) (ns : List String) (ordering : String) (o c : Option Bytes)
      → (o ≡ none) ⊎ (c ≡ none)
      → (r : ComparatorResult) × (compare t oa o ca c ns ordering policy ≡ ok r)
        × (r.result ≢ match)
        × (policy ≡ none → r.result ≡ inconclusive)
  unfolding compare handle_missing
  compare-missing policy ns ordering none c h = (
    missing_result t.id oa ca none c policy,
    refl,
    ne_match policy none c,
    default_policy policy none c,
  )
  compare-missing policy ns ordering (some o) none h = (
    missing_result t.id oa ca (some o) none policy,
    refl,
    ne_match policy (some o) none,
    default_policy policy (some o) none,
  )
  compare-missing policy ns ordering (some o) (some c) h = elim h [ inl e ↦ cc | inr e ↦ cc ]
