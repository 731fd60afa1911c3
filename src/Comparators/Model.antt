-- ===== src/Comparators/Model.antt =====
-- The results of engine/comparators/framework.py. What a difference shows is data: bytes and numbers
-- stand where the source prints them, and a description has a constructor for each text. Fields that
-- no comparator sets are left out.
use cobol_java_transformatio.Common.{ℕ, String, List}
use cobol_java_transformatio.Common.Bytes.{Bytes}
use cobol_java_transformatio.Common.Int.{ℤ}
use cobol_java_transformatio.Domain.{ArtifactIdentity}

pub data ComparisonResult : Type 0 where
  match mismatch inconclusive : ComparisonResult

pub data Location : Type 0 where
  place : String → Location
  record_at : ℕ → Location

pub data Printed : Type 0 where
  text : String → Printed
  bytes : Bytes → Printed
  number : ℕ → Printed
  integer : ℤ → Printed

pub data Description : Type 0 where
  note : String → Description
  exit_codes : ℤ → ℤ → Description
  record_counts : ℕ → ℕ → Description
  extra_record missing_record record_differs : ℕ → Description
  trailing_bytes : ℕ → ℕ → ℕ → ℕ → Description

pub record ComparisonDifference : Type 0 where
  pub location : Location
  pub expected : Printed
  pub actual : Printed
  pub description : Description

pub record ComparatorId : Type 0 where
  pub comparator_id : String
  pub version : String

-- The id and type of a comparator object, which `TypedComparator.__init__` takes.
pub record TypedComparator : Type 0 where
  pub id : ComparatorId
  pub artifact_type : String

pub record ComparatorResult : Type 0 where
  pub comparator_id : ComparatorId
  pub oracle_artifact : ArtifactIdentity
  pub candidate_artifact : ArtifactIdentity
  pub result : ComparisonResult
  pub differences : List ComparisonDifference
  pub normalization_applied : List String
  pub ordering_applied : String
  pub failure_policy : String

pub data ValueError : Type 0 where
  unsupported_ordering unsupported_normalization already_registered : String → ValueError

-- What `getattr(failure_policy, "on_missing", …)` finds, if there is a policy.
pub record FailurePolicy : Type 0 where
  pub on_missing : String
  pub on_malformed : String
