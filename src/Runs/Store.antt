-- ===== src/Runs/Store.antt =====
-- The operations of `Store` in api/store.py on runs. Each returns the store that it leaves, with
-- what it answers, or the exception that it raises; an exception leaves the store as it was. The
-- clock `_utc_now` is read by the caller.
pub mod Outcome
use cobol_java_transformatio.Common.{
  ℕ, suc, ◌+◌, String, Bool, true, false, not, ◌&&◌, ◌||◌, Option, none, some, List, [], ◌∷◌, ◌++◌,
  text_eq, ◌==◌, if◌then◌else◌, Result, ok, err, ◌>>=◌, ◌>>◌, raise_if, length, filter,
}
use cobol_java_transformatio.Runs.Stage.{
  RunStage, created, failed, is_terminal, is_valid_transition, last_stage_anchor,
}
use cobol_java_transformatio.Runs.Model.{
  RunRecord, ApprovalEvent, given, revalidation_generation, Store, StoreError, not_found,
  already_exists, reset_by_newer_attempt, not_revalidatable, invalid_transition, invalid_decision,
}
use cobol_java_transformatio.Runs.Table.{select, matches, update, rowcount}

unfoldable pub get_run : String → Store → Option RunRecord
get_run k s = select k s.runs

-- A row that is there, or the error of a key that is not.
unfoldable pub require : String → Store → Result StoreError RunRecord
require k s = elim (get_run k s) [ none ↦ err (not_found k) | some r ↦ ok r ]

unfoldable pub add_run : RunRecord → Store → Result StoreError Store
add_run record_ s = elim (get_run record_.id s) [
  | none ↦ ok (record s {
    runs =
        s.runs
        ++ record record_ { last_stage = last_stage_anchor record_.stage record_.last_stage } ∷ [];
  })
  | some r ↦ err (already_exists record_.id)
]

-- the columns that `update_run` writes
unfoldable pub written_by_update : RunRecord → RunRecord → RunRecord
written_by_update new row = record row {
  application_id = new.application_id;
  workload_id = new.workload_id;
  stage = new.stage;
  created_at = new.created_at;
  completed_at = new.completed_at;
  error = new.error;
  evidence_manifest = new.evidence_manifest;
  verdict = new.verdict;
  modernization_report = new.modernization_report;
  validation_generation = new.validation_generation;
  certification_contract = new.certification_contract;
  last_stage = last_stage_anchor new.stage row.last_stage;
}

unfoldable pub update_run : RunRecord → Bool → Store → Result StoreError Store
update_run new allow_reset s = do
  row ← require new.id s
  raise_if (not (new.validation_generation == row.validation_generation))
      (reset_by_newer_attempt new.id)
  raise_if (not allow_reset && not (is_valid_transition row.stage new.stage))
      (invalid_transition row.stage new.stage)
  ok (record s { runs = update (matches new.id none) (written_by_update new) s.runs })

-- An `UPDATE` of one run that may be bound to an attempt: `rowcount == 0` raises.
unfoldable pub update_bound :
    String → Option ℕ → (RunRecord → RunRecord) → Store → Result StoreError Store
update_bound k expected_generation f s =
    if rowcount (matches k expected_generation) s.runs == 0
    then elim (get_run k s) [ none ↦ err (not_found k) | some r ↦ err (reset_by_newer_attempt k) ]
    else ok (record s { runs = update (matches k expected_generation) f s.runs })

unfoldable pub decide : String → String → Option String → String → RunRecord → RunRecord
decide state approver reason decided_at row = record row {
  approval_state = state;
  approval_approver = some approver;
  approval_reason = reason;
  approval_decided_at = some decided_at;
}

unfoldable pub set_run_approval :
    String → String → String → Option String → Option ℕ → String → Store → Result StoreError Store
set_run_approval k state approver reason expected_generation now s = do
  raise_if (not (text_eq state "APPROVED" || text_eq state "REJECTED")) (invalid_decision state)
  t ← update_bound k expected_generation (decide state approver reason now) s
  ok (record t {
    approval_events =
        t.approval_events
        ++ record {
          run_id = k;
          state = state;
          approver = some approver;
          reason = given reason;
          recorded_at = now;
        }
          ∷ [];
  })

unfoldable pub approval_history : String → Store → List ApprovalEvent
approval_history k s = filter (λ e. text_eq e.run_id k) s.approval_events

unfoldable pub set_generated_seal : String → String → Option ℕ → Store → Result StoreError Store
set_generated_seal k seal expected_generation s =
    update_bound k expected_generation (λ row. record row { generated_seal = some seal }) s

unfoldable pub set_run_generated :
    String → Option String → Option String → Option ℕ → Store → Result StoreError Store
set_run_generated k path entrypoint expected_generation s =
    update_bound k expected_generation
      (λ row. record row { generated_app_path = path; generated_entrypoint = entrypoint }) s

unfoldable pub set_run_discovery : String → Option String → Store → Result StoreError Store
set_run_discovery k snapshot s =
    update_bound k none (λ row. record row { discovery_snapshot = snapshot }) s

-- the columns that a new attempt starts with
unfoldable pub reset : Option String → RunRecord → RunRecord
reset certification_contract row = record row {
  stage = created;
  completed_at = none;
  error = none;
  evidence_manifest = none;
  verdict = none;
  validation_generation = row.validation_generation + 1;
  certification_contract = certification_contract;
  approval_state = "PENDING";
  approval_approver = none;
  approval_reason = none;
  approval_decided_at = none;
  generated_seal = none;
  last_stage = none;
}

-- The discarded decision is kept in the audit trail.
unfoldable pub reset_events : RunRecord → String → List ApprovalEvent
reset_events row now =
    if text_eq row.approval_state "PENDING"
    then []
    else record {
      run_id = row.id;
      state = "RESET";
      approver = none;
      reason = revalidation_generation (row.validation_generation + 1);
      recorded_at = now;
    }
      ∷ []

unfoldable pub begin_revalidation :
    String → Option String → String → Store → Result StoreError Store
begin_revalidation k certification_contract now s = do
  row ← require k s
  raise_if (not (is_terminal row.stage)) (not_revalidatable k)
  ok record {
    runs = update (matches k none) (reset certification_contract) s.runs;
    approval_events = s.approval_events ++ reset_events row now;
  }

unfoldable pub interrupt : String → RunRecord → RunRecord
interrupt now row = record row {
  stage = failed;
  completed_at = some now;
  error = some "Interrupted by process restart before completion";
}

abbrev pub is_running : RunRecord → Bool
is_running row = not (is_terminal row.stage)

unfoldable pub mark_interrupted_runs : String → Store → Store × ℕ
mark_interrupted_runs now s =
    (record s { runs = update is_running (interrupt now) s.runs }, rowcount is_running s.runs)
