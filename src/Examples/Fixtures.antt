-- ===== src/Examples/Fixtures.antt =====
-- A run with one STDOUT comparison, on a platform with a small checksum in place of sha256.
use cobol_java_transformatio.Common.{
  ℕ, ◌+◌, ◌%◌, String, false, Option, none, some, List, [], ◌∷◌, ◌++◌, ◌==◌, if◌then◌else◌,
}
use cobol_java_transformatio.Common.Int.{pos}
use cobol_java_transformatio.Common.Bytes.{codes}
use cobol_java_transformatio.Domain.{ContentHash, OracleIdentity, ArtifactIdentity}
use cobol_java_transformatio.Evidence.Model.{
  ExecutionEvidence, ArtifactEvidence, ComparisonEvidence, EvidenceManifest,
}
use cobol_java_transformatio.Evidence.Graph.{Hashing, post_init}
use cobol_java_transformatio.Verdict.Model.{Platform}

abbrev sum : List ℕ → ℕ
sum [] = 0
sum (x ∷ xs) = x + sum xs

abbrev parity_hex : List ℕ → String
parity_hex xs = if sum xs % 2 == 0 then "even" else "odd"

abbrev pub hashing : Hashing
hashing = record {
  json_dumps = λ g. codes g.run_id ++ g.source_identity.file_count ∷ [];
  sha256_hex = parity_hex;
}

abbrev pub platform : Platform
platform = record { hashing = hashing; utc_now = "2024-01-01T00:00:00Z" }

abbrev pub a_hash : ContentHash
a_hash = record { digest = "a1"; algorithm = "sha256" }

abbrev pub b_hash : ContentHash
b_hash = record { digest = "b2"; algorithm = "sha256" }

abbrev pub oracle : OracleIdentity
oracle = record {
  oracle_id = "gnucobol-3";
  image_digest = "sha256:77";
  compiler_version = "3.2";
  preprocessor_version = none;
  base_image = none;
}

abbrev execution : String → String → ExecutionEvidence
execution runtime id = record {
  execution_id = id;
  run_id = "run";
  runtime_id = runtime;
  command = "./main";
  working_directory = "/work";
  environment_variables = [];
  start_time = "t0";
  end_time = "t1";
  exit_code = some (pos 0);
  stdout_hash = a_hash;
  stderr_hash = b_hash;
  generated_files = [];
  source_tree_hash_before = a_hash;
  source_tree_hash_after = a_hash;
  termination_status = "success";
  timeout_applied = false;
  timeout_duration = none;
  compilation_diagnostics = none;
  workload_id = some "workload";
  image_digest = none;
  execution_phase = "EXECUTE";
}

abbrev pub stdout_artifact : String → String → ArtifactIdentity
stdout_artifact role id = record {
  artifact_id = id;
  artifact_type = "STDOUT";
  logical_name = "stdout";
  producer_role = role;
  content_hash = a_hash;
  size_bytes = 2;
  record_count = none;
}

abbrev artifact : String → String → String → ArtifactEvidence
artifact role id by = record {
  artifact = stdout_artifact role id;
  execution_id = by;
  capture_time = "t2";
  content_hash = a_hash;
  size_bytes = 2;
  record_count = none;
}

abbrev comparison : String → ComparisonEvidence
comparison result = record {
  comparison_id = "c1";
  run_id = "run";
  comparator_id = "STDOUT_COMPARATOR";
  comparator_version = "1.0.0";
  oracle_artifact_id = "o1";
  candidate_artifact_id = "p1";
  artifact_type = "STDOUT";
  result = result;
  normalization_applied = [];
  differences = [];
  field_level_results = [];
  content_hash = a_hash;
  ordering_applied = "SEQUENTIAL";
  failure_policy = "";
  workload_id = some "workload";
}

abbrev pub manifest_with : String → Option OracleIdentity → ℕ → EvidenceManifest
manifest_with result by files = record {
  manifest_version = "1.0.0";
  run_id = "run";
  workload_id = "workload";
  source_identity = record {
    source_id = "src";
    source_hash = a_hash;
    file_count = files;
    total_size_bytes = 9;
  };
  candidate_identity = none;
  oracle_identity = by;
  environment_identities = [];
  controlled_input = record { input_id = "in"; stdin_hash = none; input_files = [] };
  execution_evidence = execution "oracle-1" "e1" ∷ execution "candidate-1" "e2" ∷ [];
  artifact_evidence = artifact "ORACLE" "o1" "e1" ∷ artifact "CANDIDATE" "p1" "e2" ∷ [];
  comparison_evidence = comparison result ∷ [];
  verdict_evidence = none;
  created_at = "t3";
  sealed_hash = none;
}

-- A run whose comparison has the given result, as its construction seals it.
abbrev pub manifest : String → EvidenceManifest
manifest result = post_init hashing (manifest_with result (some oracle) 1)

abbrev pub no_oracle : EvidenceManifest
no_oracle = manifest_with "MATCH" none 1
