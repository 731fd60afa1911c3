-- ===== src/Comparators/Text.antt =====
-- The STDOUT, STDERR and TEXT_FILE comparators of engine/comparators/framework.py, which differ in
-- their ids and messages only.
pub mod Match
pub mod Unterminated
pub mod Supported
use cobol_java_transformatio.Common.{
  String, Option, none, some, List, [], ◌∷◌, Result, ok, err, ◌>>=◌, if◌then◌else◌,
}
use cobol_java_transformatio.Common.Bytes.{Bytes, bytes_eq}
use cobol_java_transformatio.Domain.{ArtifactIdentity}
use cobol_java_transformatio.Comparators.Model.{
  match, mismatch, Location, place, bytes, Description, note, ComparatorId, ComparatorResult,
  ValueError, FailurePolicy,
}
use cobol_java_transformatio.Comparators.Policy.{handle_missing, apply_ordering, normalize}

pub record TextComparator : Type 0 where
  pub id : ComparatorId
  pub artifact_type : String
  pub location : String
  pub description : String

abbrev pub stdout_comparator : TextComparator
stdout_comparator = record {
  id = record { comparator_id = "STDOUT_COMPARATOR"; version = "1.0.0" };
  artifact_type = "STDOUT";
  location = "stdout";
  description = "STDOUT output differs";
}

abbrev pub stderr_comparator : TextComparator
stderr_comparator = record {
  id = record { comparator_id = "STDERR_COMPARATOR"; version = "1.0.0" };
  artifact_type = "STDERR";
  location = "stderr";
  description = "STDERR output differs";
}

abbrev pub text_file_comparator : TextComparator
text_file_comparator = record {
  id = record { comparator_id = "TEXT_FILE_COMPARATOR"; version = "1.0.0" };
  artifact_type = "TEXT_FILE";
  location = "file_content";
  description = "TEXT_FILE content differs";
}

-- `self._apply_ordering(self._normalize(content, normalizations), ordering)`
unfoldable pub prepare : List String → String → Bytes → Result ValueError Bytes
prepare normalizations ordering content = do
  normalized ← normalize content normalizations
  apply_ordering normalized ordering

unfoldable pub report :
    TextComparator
    → ArtifactIdentity
    → ArtifactIdentity
    → List String
    → String
    → Bytes
    → Bytes
    → ComparatorResult
report t oracle candidate normalizations ordering o c =
    if bytes_eq o c
    then record {
      comparator_id = t.id;
      oracle_artifact = oracle;
      candidate_artifact = candidate;
      result = match;
      differences = [];
      normalization_applied = normalizations;
      ordering_applied = ordering;
      failure_policy = "";
    }
    else record {
      comparator_id = t.id;
      oracle_artifact = oracle;
      candidate_artifact = candidate;
      result = mismatch;
      differences =
          record {
            location = place t.location;
            expected = bytes o;
            actual = bytes c;
            description = note t.description;
          }
          ∷ [];
      normalization_applied = normalizations;
      ordering_applied = ordering;
      failure_policy = "";
    }

-- The part of `compare` behind the check for missing content.
unfoldable pub compare_present :
    TextComparator
    → ArtifactIdentity
    → ArtifactIdentity
    → List String
    → String
    → Bytes
    → Bytes
    → Result ValueError ComparatorResult
compare_present t oracle candidate normalizations ordering o c = do
  oracle_normalized ← prepare normalizations ordering o
  candidate_normalized ← prepare normalizations ordering c
  ok (report t oracle candidate normalizations ordering oracle_normalized candidate_normalized)

unfoldable pub compare :
    TextComparator
    → ArtifactIdentity
    → Option Bytes
    → ArtifactIdentity
    → Option Bytes
    → List String
    → String
    → Option FailurePolicy
    → Result ValueError ComparatorResult
compare t oracle o candidate c normalizations ordering policy =
    handle_missing t.id oracle candidate o c policy
      (compare_present t oracle candidate normalizations ordering)

-- The `compare` of each of the three classes.
abbrev pub compare_stdout :
    ArtifactIdentity
    → Option Bytes
    → ArtifactIdentity
    → Option Bytes
    → List String
    → String
    → Option FailurePolicy
    → Result ValueError ComparatorResult
compare_stdout = compare stdout_comparator

abbrev pub compare_stderr :
    ArtifactIdentity
    → Option Bytes
    → ArtifactIdentity
    → Option Bytes
    → List String
    → String
    → Option FailurePolicy
    → Result ValueError ComparatorResult
compare_stderr = compare stderr_comparator

abbrev pub compare_text_file :
    ArtifactIdentity
    → Option Bytes
    → ArtifactIdentity
    → Option Bytes
    → List String
    → String
    → Option FailurePolicy
    → Result ValueError ComparatorResult
compare_text_file = compare text_file_comparator
