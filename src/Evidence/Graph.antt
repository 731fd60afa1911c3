-- ===== src/Evidence/Graph.antt =====
-- `canonical_evidence_graph` and the seal of engine/evidence/models.py. json.dumps and sha256 are
-- the two functions of `Hashing`: the graph's text, and the hex digest of a text.
use cobol_java_transformatio.Common.{ℕ, String, Bool, Option, none, some, List, map}
use cobol_java_transformatio.Common.Int.{ℤ}
use cobol_java_transformatio.Domain.{
  ContentHash, show_hash, SourceIdentity, CandidateIdentity, OracleIdentity, EnvironmentIdentity,
  InputIdentity,
}
use cobol_java_transformatio.Evidence.Model.{
  ExecutionEvidence, ArtifactEvidence, ComparisonEvidence, EvidenceManifest,
}

pub record SourceNode : Type 0 where
  pub source_id : String
  pub source_hash : String
  pub file_count : ℕ
  pub total_size_bytes : ℕ

pub record CandidateNode : Type 0 where
  pub candidate_id : String
  pub candidate_hash : String
  pub source_hash : String
  pub file_count : ℕ
  pub total_size_bytes : ℕ

pub record InputNode : Type 0 where
  pub input_id : String
  pub stdin_hash : Option String
  pub input_files : List (String × String)

pub record ExecutionNode : Type 0 where
  pub execution_id : String
  pub run_id : String
  pub workload_id : Option String
  pub runtime_id : String
  pub command : String
  pub working_directory : String
  pub environment_variables : List (String × String)
  pub start_time : String
  pub end_time : String
  pub exit_code : Option ℤ
  pub stdout_hash : String
  pub stderr_hash : String
  pub generated_files : List (String × String)
  pub source_tree_hash_before : String
  pub source_tree_hash_after : String
  pub termination_status : String
  pub timeout_applied : Bool
  pub timeout_duration : Option ℕ
  pub compilation_diagnostics : Option (List (String × String))
  pub image_digest : Option String
  pub execution_phase : String

pub record ArtifactNode : Type 0 where
  pub artifact_id : String
  pub artifact_type : String
  pub logical_name : String
  pub producer_role : String
  pub content_hash : String
  pub size_bytes : ℕ
  pub record_count : Option ℕ
  pub execution_id : String
  pub capture_time : String

pub record ComparisonNode : Type 0 where
  pub comparison_id : String
  pub run_id : String
  pub workload_id : Option String
  pub comparator_id : String
  pub comparator_version : String
  pub oracle_artifact_id : String
  pub candidate_artifact_id : String
  pub artifact_type : String
  pub result : String
  pub normalization_applied : List String
  pub differences : List String
  pub field_level_results : List (List (String × String))
  pub ordering_applied : String
  pub failure_policy : String
  pub content_hash : String

pub record EvidenceGraph : Type 0 where
  pub manifest_version : String
  pub run_id : String
  pub workload_id : String
  pub source_identity : SourceNode
  pub candidate_identity : Option CandidateNode
  pub oracle_identity : Option OracleIdentity
  pub environment_identities : List EnvironmentIdentity
  pub controlled_input : InputNode
  pub execution_evidence : List ExecutionNode
  pub artifact_evidence : List ArtifactNode
  pub comparison_evidence : List ComparisonNode

abbrev map_option : {A B : Type 0} → (A → B) → Option A → Option B
map_option f none = none
map_option f (some a) = some (f a)

abbrev show_files : List (String × ContentHash) → List (String × String)
show_files = map (λ f. (f.0, show_hash f.1))

abbrev pub source_node : SourceIdentity → SourceNode
source_node s = record {
  source_id = s.source_id;
  source_hash = show_hash s.source_hash;
  file_count = s.file_count;
  total_size_bytes = s.total_size_bytes;
}

abbrev pub candidate_node : CandidateIdentity → CandidateNode
candidate_node c = record {
  candidate_id = c.candidate_id;
  candidate_hash = show_hash c.candidate_hash;
  source_hash = show_hash c.source_hash;
  file_count = c.file_count;
  total_size_bytes = c.total_size_bytes;
}

abbrev pub input_node : InputIdentity → InputNode
input_node i = record {
  input_id = i.input_id;
  stdin_hash = map_option show_hash i.stdin_hash;
  input_files = show_files i.input_files;
}

abbrev pub execution_node : ExecutionEvidence → ExecutionNode
execution_node e = record {
  execution_id = e.execution_id;
  run_id = e.run_id;
  workload_id = e.workload_id;
  runtime_id = e.runtime_id;
  command = e.command;
  working_directory = e.working_directory;
  environment_variables = e.environment_variables;
  start_time = e.start_time;
  end_time = e.end_time;
  exit_code = e.exit_code;
  stdout_hash = show_hash e.stdout_hash;
  stderr_hash = show_hash e.stderr_hash;
  generated_files = show_files e.generated_files;
  source_tree_hash_before = show_hash e.source_tree_hash_before;
  source_tree_hash_after = show_hash e.source_tree_hash_after;
  termination_status = e.termination_status;
  timeout_applied = e.timeout_applied;
  timeout_duration = e.timeout_duration;
  compilation_diagnostics = e.compilation_diagnostics;
  image_digest = e.image_digest;
  execution_phase = e.execution_phase;
}

abbrev pub artifact_node : ArtifactEvidence → ArtifactNode
artifact_node a = record {
  artifact_id = a.artifact.artifact_id;
  artifact_type = a.artifact.artifact_type;
  logical_name = a.artifact.logical_name;
  producer_role = a.artifact.producer_role;
  content_hash = show_hash a.content_hash;
  size_bytes = a.size_bytes;
  record_count = a.record_count;
  execution_id = a.execution_id;
  capture_time = a.capture_time;
}

abbrev pub comparison_node : ComparisonEvidence → ComparisonNode
comparison_node c = record {
  comparison_id = c.comparison_id;
  run_id = c.run_id;
  workload_id = c.workload_id;
  comparator_id = c.comparator_id;
  comparator_version = c.comparator_version;
  oracle_artifact_id = c.oracle_artifact_id;
  candidate_artifact_id = c.candidate_artifact_id;
  artifact_type = c.artifact_type;
  result = c.result;
  normalization_applied = c.normalization_applied;
  differences = c.differences;
  field_level_results = c.field_level_results;
  ordering_applied = c.ordering_applied;
  failure_policy = c.failure_policy;
  content_hash = show_hash c.content_hash;
}

unfoldable pub canonical_evidence_graph : EvidenceManifest → EvidenceGraph
canonical_evidence_graph m = record {
  manifest_version = m.manifest_version;
  run_id = m.run_id;
  workload_id = m.workload_id;
  source_identity = source_node m.source_identity;
  candidate_identity = map_option candidate_node m.candidate_identity;
  oracle_identity = m.oracle_identity;
  environment_identities = m.environment_identities;
  controlled_input = input_node m.controlled_input;
  execution_evidence = map execution_node m.execution_evidence;
  artifact_evidence = map artifact_node m.artifact_evidence;
  comparison_evidence = map comparison_node m.comparison_evidence;
}

pub record Hashing : Type 0 where
  pub json_dumps : EvidenceGraph → List ℕ
  pub sha256_hex : List ℕ → String

module _ (h : Hashing) where
  -- `_graph_hash`, which the property `manifest_hash` recomputes on every call
  unfoldable pub manifest_hash : EvidenceManifest → ContentHash
  manifest_hash m = record {
    digest = h.sha256_hex (h.json_dumps (canonical_evidence_graph m));
    algorithm = "sha256";
  }

  -- `__post_init__` seals the manifest at construction.
  unfoldable pub post_init : EvidenceManifest → EvidenceManifest
  unfolding manifest_hash
  post_init m = record m { sealed_hash = some (manifest_hash m) }
