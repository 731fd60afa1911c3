-- ===== src/Comparators/FixedRecord.antt =====
-- The FIXED_RECORD comparator of engine/comparators/framework.py.
pub mod Exact
use cobol_java_transformatio.Common.{
  ℕ, zero, suc, ◌+◌, ◌-◌, ◌*◌, ◌/◌, Bool, true, false, not, ◌&&◌, Option, none, some, List, [], ◌∷◌,
  ◌++◌, length, ltb, leb, ◌==◌, if◌then◌else◌, Result, ok, err, report_if, is_empty,
}
use cobol_java_transformatio.Common.Bytes.{Bytes, bytes_eq, take, drop}
use cobol_java_transformatio.Domain.{ArtifactIdentity}
use cobol_java_transformatio.Comparators.Model.{
  match, mismatch, place, record_at, text, bytes, number, note, record_counts, extra_record,
  missing_record, record_differs, trailing_bytes, ComparisonDifference, ComparatorId,
  ComparatorResult, ValueError, FailurePolicy,
}
use cobol_java_transformatio.Comparators.Policy.{handle_missing}

abbrev pub fixed_record_id : ComparatorId
fixed_record_id = record { comparator_id = "FIXED_RECORD_COMPARATOR"; version = "1.0.0" }

-- `content[i * n:(i + 1) * n]`, or nothing where the record starts behind the end
abbrev pub record_of : ℕ → Bytes → ℕ → Bytes
record_of n content i = if ltb (i * n) (length content) then take n (drop (i * n) content) else []

-- The differences of record i.
unfoldable pub compare_record : ℕ → Bytes → Bytes → ℕ → List ComparisonDifference
compare_record n o c i =
    if leb (length o / n) i
    then record {
      location = record_at i;
      expected = text "<missing>";
      actual = bytes (record_of n c i);
      description = extra_record i;
    }
      ∷ []
    else if leb (length c / n) i
    then record {
      location = record_at i;
      expected = bytes (record_of n o i);
      actual = text "<missing>";
      description = missing_record i;
    }
      ∷ []
    else report_if (not (bytes_eq (record_of n o i) (record_of n c i))) (record {
      location = record_at i;
      expected = bytes (record_of n o i);
      actual = bytes (record_of n c i);
      description = record_differs i;
    })

-- `for i in range(i, i + rounds)`
unfoldable pub compare_records : ℕ → Bytes → Bytes → ℕ → ℕ → List ComparisonDifference
compare_records n o c i zero = []
compare_records n o c i (suc rounds) =
    compare_record n o c i ++ compare_records n o c (suc i) rounds

abbrev pub max : ℕ → ℕ → ℕ
max a b = if leb a b then b else a

-- The bytes behind the last whole record.
abbrev pub tail_of : ℕ → Bytes → Bytes
tail_of n content = drop ((length content / n) * n) content

unfoldable pub record_differences : ℕ → Bytes → Bytes → List ComparisonDifference
record_differences n o c =
    compare_records n o c 0 (max (length o / n) (length c / n))
    ++ report_if (not (bytes_eq (tail_of n o) (tail_of n c))) (record {
      location = place "trailing_partial_record";
      expected = bytes (tail_of n o);
      actual = bytes (tail_of n c);
      description =
          trailing_bytes (length (tail_of n o)) (length (tail_of n c))
            (max (length o / n) (length c / n)) n;
    })

abbrev pub result_of :
    ArtifactIdentity → ArtifactIdentity → List ComparisonDifference → ComparatorResult
result_of oracle candidate differences = record {
  comparator_id = fixed_record_id;
  oracle_artifact = oracle;
  candidate_artifact = candidate;
  result = if is_empty differences then match else mismatch;
  differences = differences;
  normalization_applied = [];
  ordering_applied = "SEQUENTIAL";
  failure_policy = "";
}

abbrev counted : ArtifactIdentity → Option ℕ
counted a = elim a.record_count [ none ↦ none | some k ↦ if ltb 0 k then some k else none ]

unfoldable pub infer_record_length : ArtifactIdentity → ArtifactIdentity → Option ℕ
infer_record_length oracle candidate = elim (counted oracle) [
  | some k ↦ some (oracle.size_bytes / k)
  | none ↦ elim (counted candidate) [ some k ↦ some (candidate.size_bytes / k) | none ↦ none ]
]

-- The record counts that both artifacts state, where they differ.
unfoldable pub count_conflict : Option ℕ → Option ℕ → Option (ℕ × ℕ)
count_conflict none c = none
count_conflict (some o) none = none
count_conflict (some o) (some c) = if o == c then none else some (o, c)

abbrev pub whole_differences : Bytes → Bytes → List ComparisonDifference
whole_differences o c =
    record {
      location = place "records";
      expected = number (length o);
      actual = number (length c);
      description = note "FIXED_RECORD content differs (byte-level fallback)";
    }
    ∷ []

-- The differences of unequal contents, at the record length that was inferred.
unfoldable pub content_differences : Bytes → Bytes → Option ℕ → List ComparisonDifference
content_differences o c none = whole_differences o c
content_differences o c (some n) =
    if ltb 0 n then record_differences n o c else whole_differences o c

unfoldable pub differences_of :
    ArtifactIdentity → ArtifactIdentity → Bytes → Bytes → List ComparisonDifference
differences_of oracle candidate o c =
    elim (count_conflict oracle.record_count candidate.record_count) [
      | some (k, j) ↦
          record {
            location = place "record_count";
            expected = number k;
            actual = number j;
            description = record_counts k j;
          }
          ∷ []
      | none ↦
          if bytes_eq o c
          then []
          else content_differences o c (infer_record_length oracle candidate)
    ]

unfoldable pub compare :
    ArtifactIdentity
    → Option Bytes
    → ArtifactIdentity
    → Option Bytes
    → Option FailurePolicy
    → Result ValueError ComparatorResult
compare oracle o candidate c policy =
    handle_missing fixed_record_id oracle candidate o c policy
      λ o' c'. ok (result_of oracle candidate (differences_of oracle candidate o' c'))
