-- ===== src/Comparators/FixedRecord/Exact.antt =====
-- The fixed-record comparison against the equality of the contents.
use native.Mathlib.Nat.{le-div_iff_mul-le}
use cobol_java_transformatio.Common.{
  if◌then◌else◌, ℕ, zero, suc, ◌+◌, ◌*◌, ◌/◌, ◌≤◌, ◌<◌, ◌≡◌, ◌↔◌, refl, sym, ap, subst, ◌∙◌, Option,
  none, some, List, [], ◌∷◌, ◌++◌, arith, length, append-eq-nil, report_if-eq-nil, is_empty, ok,
}
use cobol_java_transformatio.Common.Bytes.{
  Bytes, bytes_eq_iff, take, drop, take-append-drop, drop-drop,
}
use cobol_java_transformatio.Domain.{ArtifactIdentity}
use cobol_java_transformatio.Comparators.Model.{
  match, mismatch, ComparisonDifference, ComparatorResult, FailurePolicy,
}
use cobol_java_transformatio.Comparators.Policy.{handle_missing}
use cobol_java_transformatio.Comparators.FixedRecord.{
  record_of, compare_record, compare_records, max, tail_of, record_differences, content_differences,
  count_conflict, infer_record_length, differences_of, result_of, compare,
}

-- Whole records start inside the content.
record_starts : (n i k : ℕ) → 0 < n → i < k / n → i * n < k
record_starts n i k p h =
    let e : suc i * n ≤ k = (le-div_iff_mul-le p).0 (omega (arith, h)) in grind (arith, e, p)

-- A record without a difference is whole on both sides, and the same.
compare_record-eq-nil :
    (n : ℕ) (o c : Bytes) (i : ℕ)
    → compare_record n o c i ≡ []
    → (i < length o / n) × (i < length c / n) × (record_of n o i ≡ record_of n c i)
unfolding compare_record
compare_record-eq-nil n o c i h = ground (arith, bytes_eq_iff (record_of n o i) (record_of n c i))

record_of-whole :
    (n i : ℕ) (s : Bytes) → 0 < n → i < length s / n → record_of n s i ≡ take n (drop (i * n) s)
record_of-whole n i s p h = ground (arith, record_starts n i (length s) p h)

-- The content from record i on is that record and the content from the next one on.
drop-record : (n i : ℕ) (s : Bytes) → drop (i * n) s ≡ take n (drop (i * n) s) ++ drop (suc i * n) s
drop-record n i s =
    let next : i * n + n ≡ suc i * n = grind arith in
    sym (take-append-drop n (drop (i * n) s))
    ∙ ap (λ t. take n (drop (i * n) s) ++ t) (drop-drop n (i * n) s ∙ ap (λ (j : ℕ). drop j s) next)

-- Rounds without a difference stay inside both contents.
compare_records-counts :
    (n : ℕ) (o c : Bytes) (i r : ℕ)
    → i ≤ length o / n
    → i ≤ length c / n
    → compare_records n o c i r ≡ []
    → (i + r ≤ length o / n) × (i + r ≤ length c / n)
unfolding compare_records
compare_records-counts n o c i zero h k e = (omega arith, omega arith)
compare_records-counts n o c i (suc r) h k e =
    let split = (append-eq-nil (compare_record n o c i) (compare_records n o c (suc i) r)).0 e in
    let whole = compare_record-eq-nil n o c i split.0 in
    let rest =
      compare_records-counts n o c (suc i) r (omega (arith, whole.0)) (omega (arith, whole.1))
        split.1 in
    (omega (arith, rest.0), omega (arith, rest.1))

-- Rounds without a difference carry the equality of what follows back to their start.
compare_records-same :
    (n : ℕ) (o c : Bytes) (i r : ℕ)
    → 0 < n
    → compare_records n o c i r ≡ []
    → drop ((i + r) * n) o ≡ drop ((i + r) * n) c
    → drop (i * n) o ≡ drop (i * n) c
unfolding compare_records
compare_records-same n o c i zero p e t =
    subst (λ (j : ℕ). drop (j * n) o ≡ drop (j * n) c) (omega arith) t
compare_records-same n o c i (suc r) p e t =
    let split = (append-eq-nil (compare_record n o c i) (compare_records n o c (suc i) r)).0 e in
    let whole = compare_record-eq-nil n o c i split.0 in
    let last = subst (λ (j : ℕ). drop (j * n) o ≡ drop (j * n) c) (omega arith) t in
    let rest = compare_records-same n o c (suc i) r p split.1 last in
    let same : take n (drop (i * n) o) ≡ take n (drop (i * n) c) =
      sym (record_of-whole n i o p whole.0) ∙ whole.2 ∙ record_of-whole n i c p whole.1 in
    (drop-record n i o
      ∙ ap (λ t. t ++ drop (suc i * n) o) same
      ∙ ap (λ t. take n (drop (i * n) c) ++ t) rest
      ∙ sym (drop-record n i c))

max-right : (a b : ℕ) → max a b ≤ a → max a b ≤ b → (a ≡ max a b) × (b ≡ max a b)
max-right a b h k = ground arith

-- No difference is reported only where the contents are the same.
pub record_differences-eq-nil :
    (n : ℕ) (o c : Bytes) → 0 < n → record_differences n o c ≡ [] → o ≡ c
unfolding record_differences
record_differences-eq-nil n o c p e =
    let k = length o / n in
    let j = length c / n in
    let split = (append-eq-nil (compare_records n o c 0 (max k j)) _).0 e in
    let counts = compare_records-counts n o c 0 (max k j) (omega arith) (omega arith) split.0 in
    let top = max-right k j (omega (arith, counts.0)) (omega (arith, counts.1)) in
    let tails : tail_of n o ≡ tail_of n c =
      (bytes_eq_iff (tail_of n o) (tail_of n c)).0
        (ground (arith, (report_if-eq-nil _ _).0 split.1)) in
    let ends : drop (max k j * n) o ≡ drop (max k j * n) c =
      subst (λ (a : ℕ). drop (a * n) o ≡ drop (max k j * n) c) top.0
        (subst (λ (a : ℕ). tail_of n o ≡ drop (a * n) c) top.1 tails) in
    let from_zero : max k j ≡ 0 + max k j = omega arith in
    let ends' = subst (λ (a : ℕ). drop (a * n) o ≡ drop (a * n) c) from_zero ends in
    let start : 0 * n ≡ 0 = omega arith in
    subst (λ (a : ℕ). drop a o ≡ drop a c) start
      (compare_records-same n o c 0 (max k j) p split.0 ends')

content_differences-eq-nil : (o c : Bytes) (n : Option ℕ) → content_differences o c n ≡ [] → o ≡ c
unfolding content_differences
content_differences-eq-nil o c none e = cc
content_differences-eq-nil o c (some n) e = ground (arith, record_differences-eq-nil n o c)

-- An oracle and a candidate differ exactly where the stated counts conflict or the bytes do.
differences_of-eq-nil :
    (oracle candidate : ArtifactIdentity) (o c : Bytes)
    → (differences_of oracle candidate o c ≡ [])
      ↔ ((count_conflict oracle.record_count candidate.record_count ≡ none) × (o ≡ c))
unfolding differences_of
differences_of-eq-nil oracle candidate o c =
    ground (
      arith,
      bytes_eq_iff o c,
      content_differences-eq-nil o c (infer_record_length oracle candidate),
    )

abbrev pub IsSame : ArtifactIdentity → ArtifactIdentity → Bytes → Bytes → Type 0
IsSame oracle candidate o c =
    (count_conflict oracle.record_count candidate.record_count ≡ none) × (o ≡ c)

is_match :
    (ds : List ComparisonDifference) (P : Type 0)
    → (ds ≡ []) ↔ P
    → (((if is_empty ds then match else mismatch) ≡ match) ↔ P)
      × (((if is_empty ds then match else mismatch) ≡ mismatch) ↔ (P → ⊥))
is_match [] P h = ground (arith, h.0, h.1)
is_match (d ∷ ds) P h = ground (arith, h.0, h.1)

-- Fixed-record comparison of two contents that are there never fails, whichever record length it
-- infers: it reports a match exactly where the stated record counts do not conflict and the
-- contents are the same bytes, and else a mismatch.
pub compare-fixed_record :
    (oracle candidate : ArtifactIdentity) (o c : Bytes) (policy : Option FailurePolicy)
    → (r : ComparatorResult) × (compare oracle (some o) candidate (some c) policy ≡ ok r)
      × ((r.result ≡ match) ↔ IsSame oracle candidate o c)
      × ((r.result ≡ mismatch) ↔ (IsSame oracle candidate o c → ⊥))
unfolding compare handle_missing
compare-fixed_record oracle candidate o c policy =
    let (matched, differs) =
      is_match (differences_of oracle candidate o c) _
        (differences_of-eq-nil oracle candidate o c) in
    (result_of oracle candidate (differences_of oracle candidate o c), refl, matched, differs)
