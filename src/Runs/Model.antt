-- ===== src/Runs/Model.antt =====
-- The records of api/store.py. A row holds the values that the columns encode; a report and a
-- discovery snapshot are their JSON texts.
use cobol_java_transformatio.Common.{ℕ, String, Option, List}
use cobol_java_transformatio.Evidence.Model.{EvidenceManifest}
use cobol_java_transformatio.Verdict.Model.{Verdict}
use cobol_java_transformatio.Runs.Stage.{RunStage}

pub record RunRecord : Type 0 where
  pub id : String
  pub application_id : String
  pub workload_id : String
  pub stage : RunStage
  pub created_at : String
  pub completed_at : Option String
  pub error : Option String
  pub evidence_manifest : Option EvidenceManifest
  pub verdict : Option Verdict
  pub modernization_report : Option String
  pub validation_generation : ℕ
  pub certification_contract : Option String
  pub approval_state : String
  pub approval_approver : Option String
  pub approval_reason : Option String
  pub approval_decided_at : Option String
  pub generated_seal : Option String
  pub last_stage : Option String
  pub source_path : Option String
  pub generated_app_path : Option String
  pub generated_entrypoint : Option String
  pub discovery_snapshot : Option String

-- why an event was recorded: the text of the decision, or `revalidation generation N`
pub data Reason : Type 0 where
  given : Option String → Reason
  revalidation_generation : ℕ → Reason

-- a row of `approval_events`, less its sequence number, which is its place in the list
pub record ApprovalEvent : Type 0 where
  pub run_id : String
  pub state : String
  pub approver : Option String
  pub reason : Reason
  pub recorded_at : String

pub record Store : Type 0 where
  pub runs : List RunRecord
  pub approval_events : List ApprovalEvent

-- `NotFoundError`, `ConflictError`, `InvalidStateTransitionError` of api/errors.py, and `ValueError`
pub data StoreError : Type 0 where
  not_found already_exists reset_by_newer_attempt not_revalidatable : String → StoreError
  invalid_transition : RunStage → RunStage → StoreError
  invalid_decision : String → StoreError
