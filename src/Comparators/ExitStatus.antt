-- ===== src/Comparators/ExitStatus.antt =====
-- The EXIT_STATUS comparator of engine/comparators/framework.py.
pub mod Parse
pub mod Exact
use cobol_java_transformatio.Common.{Option, none, some, List, [], ◌∷◌, Result, ok, if◌then◌else◌}
use cobol_java_transformatio.Common.Int.{ℤ, eq_ℤ}
use cobol_java_transformatio.Common.Bytes.{Bytes}
use cobol_java_transformatio.Domain.{ArtifactIdentity}
use cobol_java_transformatio.Comparators.Model.{
  ComparisonResult, match, mismatch, inconclusive, place, Printed, bytes, integer, Description,
  note, exit_codes, ComparisonDifference, ComparatorId, ComparatorResult, ValueError, FailurePolicy,
}
use cobol_java_transformatio.Comparators.Policy.{handle_missing}
use cobol_java_transformatio.Comparators.ExitStatus.Parse.{int_of_bytes}

abbrev pub exit_status_id : ComparatorId
exit_status_id = record { comparator_id = "EXIT_STATUS_COMPARATOR"; version = "1.0.0" }

abbrev pub exit_difference : Printed → Printed → Description → List ComparisonDifference
exit_difference expected actual description =
    record {
      location = place "exit_code";
      expected = expected;
      actual = actual;
      description = description;
    }
    ∷ []

abbrev pub exit_result :
    ArtifactIdentity
    → ArtifactIdentity
    → ComparisonResult
    → List ComparisonDifference
    → ComparatorResult
exit_result oracle candidate result differences = record {
  comparator_id = exit_status_id;
  oracle_artifact = oracle;
  candidate_artifact = candidate;
  result = result;
  differences = differences;
  normalization_applied = [];
  ordering_applied = "SEQUENTIAL";
  failure_policy = "";
}

-- The result for the two numbers, where both are there.
unfoldable pub compare_exits :
    ArtifactIdentity → ArtifactIdentity → Bytes → Bytes → Option ℤ → Option ℤ → ComparatorResult
compare_exits oracle candidate o c none j =
    exit_result oracle candidate inconclusive
      (exit_difference (bytes o) (bytes c) (note "Invalid exit code format"))
compare_exits oracle candidate o c (some i) none =
    exit_result oracle candidate inconclusive
      (exit_difference (bytes o) (bytes c) (note "Invalid exit code format"))
compare_exits oracle candidate o c (some i) (some j) =
    if eq_ℤ i j
    then exit_result oracle candidate match []
    else exit_result oracle candidate mismatch
        (exit_difference (integer i) (integer j) (exit_codes i j))

unfoldable pub compare :
    ArtifactIdentity
    → Option Bytes
    → ArtifactIdentity
    → Option Bytes
    → Option FailurePolicy
    → Result ValueError ComparatorResult
compare oracle o candidate c policy =
    handle_missing exit_status_id oracle candidate o c policy
      λ o' c'. ok (compare_exits oracle candidate o' c' (int_of_bytes o') (int_of_bytes c'))
