-- ===== src/Verdict/Model.antt =====
-- The records of engine/verdict/derivation.py. The messages of a verdict are data, with a
-- constructor for each text and its values as arguments.
use cobol_java_transformatio.Common.{ℕ, String, Option, List}
use cobol_java_transformatio.Domain.{VerdictState, WorkloadId, ContentHash}
use cobol_java_transformatio.Evidence.Model.{EvidenceManifest}
use cobol_java_transformatio.Evidence.Graph.{Hashing}
use cobol_java_transformatio.Evidence.Violation.{IntegrityViolation}

pub data Difference : Type 0 where
  platform_error infrastructure_unavailable unsupported_artifact : Difference
  incomplete_manifest zero_checks : Difference
  oracle_compile_failure : String → Difference
  recorded : String → Difference
  unknown_result : String → String → Difference
  post_validation_mutation : ContentHash → ContentHash → Difference
  violation : IntegrityViolation → Difference

-- The scope statement: compiler and lane of the run, or why there is none.
pub data Scope : Type 0 where
  validation_scope : String → Option String → Scope
  evidence_mutated trust_boundary_violation : Scope

pub data AttributeError : Type 0 where
  no_oracle_identity : AttributeError

pub record Verdict : Type 0 where
  pub state : VerdictState
  pub workload_id : WorkloadId
  pub run_id : String
  pub source_hash : String
  pub candidate_hash : Option String
  pub oracle_id : String
  pub oracle_digest : String
  pub executed_check_count : ℕ
  pub skipped_count : ℕ
  pub unavailable_count : ℕ
  pub supported_scope_statement : Scope
  pub evidence_manifest_hash : String
  pub derivation_timestamp : String
  pub differences : List Difference

-- `ValidatedEvidenceManifest` of engine/evidence/integrity.py less its constant summary text
pub record ValidatedEvidenceManifest : Type 0 where
  pub manifest : EvidenceManifest
  pub integrity_hash : ContentHash
  pub validated_at : String

-- What the deriver takes from outside: sha256 over the graph's JSON, and the clock's text.
pub record Platform : Type 0 where
  pub hashing : Hashing
  pub utc_now : String
