-- ===== src/Examples/Lifecycles.antt =====
-- Concrete runs of api/store.py, and the theorems at them.
use cobol_java_transformatio.Common.{
  ◌≡◌, ◌≢◌, refl, true, false, none, some, [], ◌∷◌, ok, err, text_eq, All, length, filter, String,
  Option,
}
use cobol_java_transformatio.Runs.Stage.{
  RunStage, created, building, completed, is_valid_transition, is_terminal, stage_eq, position,
  forward, stage_index, index_from, last_stage_anchor, value,
}
use cobol_java_transformatio.Runs.Model.{RunRecord, Store, given, not_found, not_revalidatable}
use cobol_java_transformatio.Runs.Table.{select, matches, update, rowcount}
use cobol_java_transformatio.Runs.Store.{
  add_run, update_run, written_by_update, require, get_run, update_bound, decide, set_run_approval,
  approval_history, begin_revalidation, reset, reset_events, mark_interrupted_runs, is_running,
}
use cobol_java_transformatio.Runs.Step.{
  Step, Reach, here, next, empty, added, decided, updated as written,
}
use cobol_java_transformatio.Runs.Attempt.{view, Moved, Step-Move}
use cobol_java_transformatio.Runs.Attempt.History.{Later, Reach-Later}
use cobol_java_transformatio.Runs.Attempt.Stale.{IsRefused, begin_revalidation-IsRefused}
use cobol_java_transformatio.Runs.Attempt.Audit.{decision_of, replay, pending}
use cobol_java_transformatio.Runs.Attempt.Audit.Steps.{Reach-approval_history}
use cobol_java_transformatio.Runs.Attempt.Restart.{
  HasEnded, IsRestarted, mark_interrupted_runs_lem, IsFresh, begin_revalidation-get_run,
}

abbrev run_at : RunStage → Option String → RunRecord
run_at stage last_stage = record {
  id = "run-1";
  application_id = "app-1";
  workload_id = "workload";
  stage = stage;
  created_at = "2024-01-01T00:00:00Z";
  completed_at = none;
  error = none;
  evidence_manifest = none;
  verdict = none;
  modernization_report = none;
  validation_generation = 0;
  certification_contract = none;
  approval_state = "PENDING";
  approval_approver = none;
  approval_reason = none;
  approval_decided_at = none;
  generated_seal = none;
  last_stage = last_stage;
  source_path = none;
  generated_app_path = none;
  generated_entrypoint = none;
  discovery_snapshot = none;
}

abbrev with_run : RunRecord → Store
with_run r = record { runs = r ∷ []; approval_events = [] }

abbrev new_run : RunRecord
new_run = run_at created none

abbrev started : Store
started = with_run (run_at created (some "CREATED"))

abbrev in_build : Store
in_build = with_run (run_at building (some "BUILDING"))

abbrev ended : Store
ended = with_run (run_at completed (some "COMPARING"))

build_step : Step started in_build
unfolding update_run require get_run select text_eq is_valid_transition stage_eq position forward
    stage_index index_from is_terminal update matches written_by_update last_stage_anchor value
build_step = written (run_at building none) refl

found_started : select "run-1" started.runs ≡ some (run_at created (some "CREATED"))
unfolding select text_eq
found_started = refl

Step-Move_example : Moved "run-1" (run_at created (some "CREATED")) in_build
unfolding select
Step-Move_example =
    Step-Move build_step (refl, tt) "run-1" (run_at created (some "CREATED")) found_started

Reach-Later_example :
    (r' : RunRecord) × (select "run-1" in_build.runs ≡ some r')
    × Later (view (run_at created (some "CREATED"))) (view r')
unfolding select
Reach-Later_example =
    Reach-Later (next here build_step) (refl, tt) "run-1" (run_at created (some "CREATED"))
      found_started

abbrev again : Store
again = with_run (reset none (run_at completed (some "COMPARING")))

revalidation : begin_revalidation "run-1" none "2024-01-02T00:00:00Z" ended ≡ ok again
unfolding begin_revalidation require get_run select text_eq is_terminal stage_eq position update
    matches reset reset_events
revalidation = refl

found_ended : select "run-1" ended.runs ≡ some (run_at completed (some "COMPARING"))
unfolding select text_eq
found_ended = refl

begin_revalidation-IsRefused_example : IsRefused "run-1" 0 again
unfolding select
begin_revalidation-IsRefused_example =
    begin_revalidation-IsRefused here (refl, tt) "run-1" none "2024-01-02T00:00:00Z" revalidation
      here (run_at completed (some "COMPARING")) found_ended

abbrev approved : Store
approved = record {
  runs =
      record (run_at created (some "CREATED")) {
        approval_state = "APPROVED";
        approval_approver = some "ada";
        approval_reason = none;
        approval_decided_at = some "2024-01-03T00:00:00Z";
      }
      ∷ [];
  approval_events =
      record {
        run_id = "run-1";
        state = "APPROVED";
        approver = some "ada";
        reason = given none;
        recorded_at = "2024-01-03T00:00:00Z";
      }
      ∷ [];
}

approval_steps : Reach empty approved
unfolding add_run get_run select text_eq last_stage_anchor is_terminal stage_eq position value
    set_run_approval update_bound rowcount matches update decide
approval_steps =
    next
      (next here (
        added new_run (record { state = refl; approver = refl; decided_at = refl })
          (let e : add_run new_run empty ≡ ok started = refl in e)))
      (decided "run-1" "APPROVED" "ada" none (some 0) "2024-01-03T00:00:00Z" refl)

Reach-approval_history_example :
    ((k : String) (r : RunRecord)
      → select k approved.runs ≡ some r
      → decision_of r ≡ replay pending (approval_history k approved))
    × ((k : String) → select k approved.runs ≡ none → approval_history k approved ≡ [])
Reach-approval_history_example = Reach-approval_history approval_steps

mark_interrupted_runs_lem_example :
    All HasEnded (mark_interrupted_runs "2024-01-04T00:00:00Z" in_build).0.runs
    × ((k : String)
        → IsRestarted "2024-01-04T00:00:00Z"
            (get_run k in_build)
            (get_run k (mark_interrupted_runs "2024-01-04T00:00:00Z" in_build).0))
    × ((mark_interrupted_runs "2024-01-04T00:00:00Z" in_build).1
        ≡ length (filter is_running in_build.runs))
    × ((mark_interrupted_runs "2024-01-04T00:00:00Z" in_build).0.approval_events
        ≡ in_build.approval_events)
mark_interrupted_runs_lem_example = mark_interrupted_runs_lem "2024-01-04T00:00:00Z" in_build

begin_revalidation-get_run_example :
    (get_run "run-1" ended ≡ none
      → begin_revalidation "run-1" none "2024-01-02T00:00:00Z" ended ≡ err (not_found "run-1"))
    × ((r : RunRecord)
        → get_run "run-1" ended ≡ some r
        → is_terminal r.stage ≡ false
        → begin_revalidation "run-1" none "2024-01-02T00:00:00Z" ended
          ≡ err (not_revalidatable "run-1"))
    × ((r : RunRecord)
        → get_run "run-1" ended ≡ some r
        → is_terminal r.stage ≡ true
        → (t : Store) × (begin_revalidation "run-1" none "2024-01-02T00:00:00Z" ended ≡ ok t)
          × ((r' : RunRecord) × (get_run "run-1" t ≡ some r') × IsFresh none r r')
          × ((j : String) → j ≢ "run-1" → get_run j t ≡ get_run j ended))
begin_revalidation-get_run_example =
    begin_revalidation-get_run "run-1" none "2024-01-02T00:00:00Z" ended
