-- ===== src/Examples/Comparisons.antt =====
-- Comparisons of concrete contents.
use mathlib.Core.List.{Perm}
use mathlib.Core.List.Perm
use cobol_java_transformatio.Common.{
  ℕ, ◌||◌, arith, ◌≡◌, ◌≢◌, ◌↔◌, refl, false, none, some, [], ◌∷◌, ◌==◌, ok,
}
use cobol_java_transformatio.Common.Bytes.{codes, bytes_le}
use cobol_java_transformatio.Domain.{ArtifactIdentity}
use cobol_java_transformatio.Comparators.Model.{match, mismatch, inconclusive, ComparatorResult}
use cobol_java_transformatio.Comparators.Policy.{splitlines, lf, cr}
use cobol_java_transformatio.Comparators.Text.{stdout_comparator, compare}
use cobol_java_transformatio.Comparators.Text.Match.{compare-sequential, compare-sorted}
use cobol_java_transformatio.Comparators.Text.Unterminated.{IsPlain, compare-sorted_unterminated}
use cobol_java_transformatio.Comparators.FixedRecord.{compare as compare_fixed}
use cobol_java_transformatio.Comparators.FixedRecord.Exact.{IsSame, compare-fixed_record}
use cobol_java_transformatio.Common.{length, ◌≤◌, ◌⊎◌}
use cobol_java_transformatio.Common.Int.{pos}
use cobol_java_transformatio.Comparators.ExitStatus.{compare as compare_exit}
use cobol_java_transformatio.Comparators.ExitStatus.Parse.{
  int_of_bytes, signed, lstrip, rstrip, digits_of, value, max_str_digits,
}
use cobol_java_transformatio.Comparators.ExitStatus.Exact.{Both, IsDecimal, compare-exit_status}
use cobol_java_transformatio.Examples.Fixtures.{stdout_artifact}

abbrev oa : ArtifactIdentity
oa = stdout_artifact "ORACLE" "o1"

abbrev ca : ArtifactIdentity
ca = stdout_artifact "CANDIDATE" "p1"

-- Two records of three bytes and a partial one.
abbrev three : ArtifactIdentity → ArtifactIdentity
three a = record a { size_bytes = 6; record_count = some 2 }

compare-sequential_example :
    (r : ComparatorResult) × (compare stdout_comparator oa
        (some (codes "A\n"))
        ca
        (some (codes "A"))
        []
        "SEQUENTIAL"
        none
      ≡ ok r)
    × ((r.result ≡ match) ↔ (codes "A\n" ≡ codes "A"))
    × ((r.result ≡ mismatch) ↔ (codes "A\n" ≢ codes "A"))
compare-sequential_example =
    compare-sequential stdout_comparator oa ca none (codes "A\n") (codes "A")

swapped : Perm (splitlines (codes "A\nB\n")) (splitlines (codes "B\nA\n"))
unfolding splitlines
swapped = Perm.swap (codes "B\n") (codes "A\n") []

compare-sorted_example :
    (r : ComparatorResult) × (compare stdout_comparator oa
        (some (codes "A\nB\n"))
        ca
        (some (codes "B\nA\n"))
        []
        "SORTED"
        none
      ≡ ok r)
    × (r.result ≡ match)
compare-sorted_example =
    compare-sorted stdout_comparator oa ca none (codes "A\nB\n") (codes "B\nA\n") swapped

plain : (c : ℕ) → (c == lf || c == cr) ≡ false → IsPlain (c ∷ [])
plain c h = ground arith

later : bytes_le (66 ∷ lf ∷ []) (65 ∷ []) ≡ false
unfolding bytes_le
later = refl

compare-sorted_unterminated_example :
    let o = 66 ∷ lf ∷ 65 ∷ [] in
    let c = 65 ∷ 66 ∷ lf ∷ [] in
    (o ≢ c)
    × (r : ComparatorResult) × (compare stdout_comparator oa (some o) ca (some c) [] "SORTED" none
        ≡ ok r)
    × (r.result ≡ match)
compare-sorted_unterminated_example =
    compare-sorted_unterminated stdout_comparator oa ca none 65 [] (66 ∷ []) (plain 65 refl)
      (plain 66 refl) later

compare-fixed_record_example :
    (r : ComparatorResult) × (compare_fixed
        (three oa)
        (some (codes "ABCDEF-"))
        (three ca)
        (some (codes "ABCDEX-"))
        none
      ≡ ok r)
    × ((r.result ≡ match) ↔ IsSame (three oa) (three ca) (codes "ABCDEF-") (codes "ABCDEX-"))
    × ((r.result ≡ mismatch)
        ↔ (IsSame (three oa) (three ca) (codes "ABCDEF-") (codes "ABCDEX-") → ⊥))
compare-fixed_record_example =
    compare-fixed_record (three oa) (three ca) (codes "ABCDEF-") (codes "ABCDEX-") none

decimal : IsDecimal (1 ∷ 0 ∷ [])
decimal = ground arith

short : length {A = ℕ} (1 ∷ 0 ∷ []) ≤ max_str_digits
short = ground arith

compare-exit_status_example :
    (r : ComparatorResult) × (compare_exit oa (some (codes "010\n")) ca (some (codes "10")) none
      ≡ ok r)
    × ((r.result ≡ match) ↔ Both (codes "010\n") (codes "10") (λ i j. i ≡ j))
    × ((r.result ≡ mismatch) ↔ Both (codes "010\n") (codes "10") (λ i j. i ≢ j))
    × ((r.result ≡ inconclusive)
        ↔ ((int_of_bytes (codes "010\n") ≡ none) ⊎ (int_of_bytes (codes "10") ≡ none)))
compare-exit_status_example = compare-exit_status oa ca (codes "010\n") (codes "10") none

int_underscored : int_of_bytes (codes " +1_000 ") ≡ some (pos 1000)
unfolding int_of_bytes signed lstrip rstrip digits_of value
int_underscored = refl
