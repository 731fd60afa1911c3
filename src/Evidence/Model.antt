-- ===== src/Evidence/Model.antt =====
-- engine/evidence/models.py: the records of executions, artifacts and comparisons, and the manifest
-- that binds them. A dict is the list of its items; values of the type Any are kept as text.
use cobol_java_transformatio.Common.{
  ℕ, String, Bool, not, ◌&&◌, Option, List, [], ◌∷◌, has_prefix, elem, any, filter, is_empty,
}
use cobol_java_transformatio.Common.Int.{ℤ}
use cobol_java_transformatio.Domain.{
  WorkloadId, RunId, ExecutionId, ContentHash, SourceIdentity, CandidateIdentity, OracleIdentity,
  EnvironmentIdentity, InputIdentity, ArtifactIdentity,
}

pub record ExecutionEvidence : Type 0 where
  pub execution_id : ExecutionId
  pub run_id : RunId
  pub runtime_id : String
  pub command : String
  pub working_directory : String
  pub environment_variables : List (String × String)
  pub start_time : String
  pub end_time : String
  pub exit_code : Option ℤ
  pub stdout_hash : ContentHash
  pub stderr_hash : ContentHash
  pub generated_files : List (String × ContentHash)
  pub source_tree_hash_before : ContentHash
  pub source_tree_hash_after : ContentHash
  pub termination_status : String
  pub timeout_applied : Bool
  pub timeout_duration : Option ℕ
  pub compilation_diagnostics : Option (List (String × String))
  pub workload_id : Option WorkloadId
  pub image_digest : Option String
  pub execution_phase : String

pub record ArtifactEvidence : Type 0 where
  pub artifact : ArtifactIdentity
  pub execution_id : ExecutionId
  pub capture_time : String
  pub content_hash : ContentHash
  pub size_bytes : ℕ
  pub record_count : Option ℕ

pub record ComparisonEvidence : Type 0 where
  pub comparison_id : String
  pub run_id : RunId
  pub comparator_id : String
  pub comparator_version : String
  pub oracle_artifact_id : String
  pub candidate_artifact_id : String
  pub artifact_type : String
  pub result : String
  pub normalization_applied : List String
  pub differences : List String
  pub field_level_results : List (List (String × String))
  pub content_hash : ContentHash
  pub ordering_applied : String
  pub failure_policy : String
  pub workload_id : Option WorkloadId

pub record VerdictEvidence : Type 0 where
  pub run_id : RunId
  pub workload_id : WorkloadId
  pub verdict_state : String
  pub executed_check_count : ℕ
  pub skipped_count : ℕ
  pub unavailable_count : ℕ
  pub supported_scope_statement : String
  pub evidence_manifest_hash : ContentHash
  pub derivation_timestamp : String

pub record EvidenceManifest : Type 0 where
  pub manifest_version : String
  pub run_id : RunId
  pub workload_id : WorkloadId
  pub source_identity : SourceIdentity
  pub candidate_identity : Option CandidateIdentity
  pub oracle_identity : Option OracleIdentity
  pub environment_identities : List EnvironmentIdentity
  pub controlled_input : InputIdentity
  pub execution_evidence : List ExecutionEvidence
  pub artifact_evidence : List ArtifactEvidence
  pub comparison_evidence : List ComparisonEvidence
  pub verdict_evidence : Option VerdictEvidence
  pub created_at : String
  pub sealed_hash : Option ContentHash

abbrev pub is_oracle : ExecutionEvidence → Bool
is_oracle e = has_prefix e.runtime_id "oracle"

abbrev pub is_candidate : ExecutionEvidence → Bool
is_candidate e = has_prefix e.runtime_id "candidate"

abbrev ran_to_end : ExecutionEvidence → Bool
ran_to_end e = not (elem e.termination_status ("error" ∷ "timeout" ∷ []))

-- `EvidenceManifest.is_complete`
unfoldable pub is_complete : EvidenceManifest → Bool
is_complete m =
    any ran_to_end (filter is_oracle m.execution_evidence)
    && any ran_to_end (filter is_candidate m.execution_evidence)
    && not (is_empty m.artifact_evidence)
    && not (is_empty m.comparison_evidence)
