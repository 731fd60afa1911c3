-- ===== src/Evidence/Violation.antt =====
-- `ViolationType` and `IntegrityViolation` of engine/evidence/integrity.py. The description is a
-- text that repeats the other fields, so it is left out; paths and values are kept as data.
use cobol_java_transformatio.Common.{ℕ, String, List}
use cobol_java_transformatio.Domain.{ContentHash}

pub data ViolationType : Type 0 where
  run_binding_mismatch workload_binding_mismatch source_candidate_mismatch : ViolationType
  oracle_identity_mismatch image_identity_mismatch artifact_execution_mismatch : ViolationType
  comparison_artifact_mismatch comparator_binding_mismatch content_hash_mismatch : ViolationType
  manifest_hash_mismatch source_mutation unknown_comparison_result : ViolationType
  missing_required_evidence missing_exit_status cross_run_replay : ViolationType
  cross_workload_replay orphan_artifact orphan_comparison malformed_evidence : ViolationType

-- `whole "f"` is the path f, and `entry "c" i "f"` the path c[i].f
pub data FieldPath : Type 0 where
  whole : String → FieldPath
  entry : String → ℕ → String → FieldPath

-- An expected or actual value: a text, one of several texts (a set as the list it is made from), a
-- digest, or a count.
pub data Shown : Type 0 where
  text : String → Shown
  one_of : List String → Shown
  hash : ContentHash → Shown
  count : ℕ → Shown

pub record IntegrityViolation : Type 0 where
  pub violation_type : ViolationType
  pub field_path : FieldPath
  pub expected : Shown
  pub actual : Shown
