-- ===== src/Runs/Attempt/Restart.antt =====
-- What a restart of the service and a new validation attempt leave in the table of api/store.py.
use cobol_java_transformatio.Common.{
  ◌+◌, String, ◌≡◌, ◌≢◌, refl, sym, subst, inl, inr, Bool, true, false, Option, none, some, List,
  [], ◌∷◌, ◌++◌, arith, text_eq_iff, ok, err, Option-cases, Bool-cases, filter, length, All,
}
use cobol_java_transformatio.Runs.Stage.{created, failed, is_terminal, stage_eq, position}
use cobol_java_transformatio.Runs.Model.{RunRecord, Store, not_found, not_revalidatable}
use cobol_java_transformatio.Runs.Table.{select, matches, update, rowcount}
use cobol_java_transformatio.Runs.Table.Laws.{select-update, select-id, updated, KeepsId}
use cobol_java_transformatio.Runs.Store.{
  require, get_run, begin_revalidation, reset, reset_events, interrupt, is_running,
  mark_interrupted_runs,
}

abbrev pub HasEnded : RunRecord → Type 0
HasEnded r = is_terminal r.stage ≡ true

interrupt-HasEnded :
    (now : String) (rows : List RunRecord) → All HasEnded (update is_running (interrupt now) rows)
unfolding update interrupt is_terminal stage_eq position
interrupt-HasEnded now [] = tt
interrupt-HasEnded now (r ∷ rows) = elim (Bool-cases (is_terminal r.stage)) [
  | inl e ↦ (rw e e, interrupt-HasEnded now rows)
  | inr e ↦ (rw e refl, interrupt-HasEnded now rows)
]

rowcount-filter :
    (p : RunRecord → Bool) (rows : List RunRecord) → rowcount p rows ≡ length (filter p rows)
unfolding rowcount
rowcount-filter p [] = refl
rowcount-filter p (r ∷ rows) = ground (arith, rowcount-filter p rows)

-- What an interruption makes of a run, column by column.
pub record IsInterrupted (now : String) (r r' : RunRecord) : Type 0 where
  pub stage : r'.stage ≡ failed
  pub ended :
      (r'.completed_at ≡ some now)
      × (r'.error ≡ some "Interrupted by process restart before completion")
      × (r'.last_stage ≡ r.last_stage)
  pub generation : r'.validation_generation ≡ r.validation_generation
  pub evidence : r'.evidence_manifest ≡ r.evidence_manifest
  pub verdict : r'.verdict ≡ r.verdict
  pub report : r'.modernization_report ≡ r.modernization_report
  pub contract : r'.certification_contract ≡ r.certification_contract
  pub approval :
      (r'.approval_state ≡ r.approval_state)
      × (r'.approval_approver ≡ r.approval_approver)
      × (r'.approval_reason ≡ r.approval_reason)
      × (r'.approval_decided_at ≡ r.approval_decided_at)
  pub seal : r'.generated_seal ≡ r.generated_seal
  pub identity :
      (r'.id ≡ r.id)
      × (r'.application_id ≡ r.application_id)
      × (r'.workload_id ≡ r.workload_id)
      × (r'.created_at ≡ r.created_at)
  pub source :
      (r'.source_path ≡ r.source_path)
      × (r'.generated_app_path ≡ r.generated_app_path)
      × (r'.generated_entrypoint ≡ r.generated_entrypoint)
      × (r'.discovery_snapshot ≡ r.discovery_snapshot)

interrupt-IsInterrupted : (now : String) (r : RunRecord) → IsInterrupted now r (interrupt now r)
unfolding interrupt
interrupt-IsInterrupted now r = ground arith

-- what a restart does to the run of one key, which may be missing
abbrev pub IsRestarted : String → Option RunRecord → Option RunRecord → Type 0
IsRestarted now none found = found ≡ none
IsRestarted now (some r) found =
    (is_terminal r.stage ≡ true → found ≡ some r)
    × (is_terminal r.stage ≡ false → (r' : RunRecord) × (found ≡ some r') × IsInterrupted now r r')

updated-IsRestarted :
    (now : String) (found : Option RunRecord)
    → IsRestarted now found (updated is_running (interrupt now) found)
updated-IsRestarted now none = refl
updated-IsRestarted now (some r) =
    (λ e. rw e refl, λ e. (interrupt now r, rw e refl, interrupt-IsInterrupted now r))

-- A restart of the service ends every run. A key that no run has still has none; a run that had
-- ended stays as it was; any other run is then FAILED with the time and the message of the
-- interruption, and every other column is as it was. The answer counts the runs that had not ended.
-- The audit trail stays.
pub mark_interrupted_runs_lem :
    (now : String) (s : Store)
    → All HasEnded (mark_interrupted_runs now s).0.runs
      × ((k : String) → IsRestarted now (get_run k s) (get_run k (mark_interrupted_runs now s).0))
      × ((mark_interrupted_runs now s).1 ≡ length (filter is_running s.runs))
      × ((mark_interrupted_runs now s).0.approval_events ≡ s.approval_events)
unfolding mark_interrupted_runs get_run interrupt
mark_interrupted_runs_lem now s = (
  interrupt-HasEnded now s.runs,
  λ k.
      subst (IsRestarted now (select k s.runs))
        (sym (select-update is_running (interrupt now) (λ r. refl) k s.runs))
        (updated-IsRestarted now (select k s.runs)),
  rowcount-filter is_running s.runs,
  refl,
)

-- What a row may carry into the next attempt: its identity, its source, its bundle, its discovery
-- and its modernization report, which is not cleared.
pub record IsFresh (contract : Option String) (r : RunRecord) (r' : RunRecord) : Type 0 where
  pub stage : r'.stage ≡ created
  pub generation : r'.validation_generation ≡ r.validation_generation + 1
  pub evidence : r'.evidence_manifest ≡ none
  pub verdict : r'.verdict ≡ none
  pub ended : (r'.completed_at ≡ none) × (r'.error ≡ none) × (r'.last_stage ≡ none)
  pub approval :
      (r'.approval_state ≡ "PENDING")
      × (r'.approval_approver ≡ none)
      × (r'.approval_reason ≡ none)
      × (r'.approval_decided_at ≡ none)
  pub seal : r'.generated_seal ≡ none
  pub contract_named : r'.certification_contract ≡ contract
  pub report : r'.modernization_report ≡ r.modernization_report
  pub kept :
      (r'.id ≡ r.id)
      × (r'.source_path ≡ r.source_path)
      × (r'.generated_app_path ≡ r.generated_app_path)
      × (r'.discovery_snapshot ≡ r.discovery_snapshot)

fresh : (contract : Option String) (r : RunRecord) → IsFresh contract r (reset contract r)
unfolding reset
fresh contract r = ground arith

module _ (k : String) (f : RunRecord → RunRecord) (keeps : KeepsId f) (rows : List RunRecord) where
  own :
      {r : RunRecord}
      → select k rows ≡ some r
      → select k (update (matches k none) f rows) ≡ some (f r)
  unfolding matches
  own {r} e =
      ground (
        arith,
        select-update (matches k none) f keeps k rows,
        select-id k rows e,
        text_eq_iff r.id k,
      )

  others : (j : String) → j ≢ k → select j (update (matches k none) f rows) ≡ select j rows
  unfolding matches
  others j n = elim (Option-cases (select j rows)) [
    | inl e ↦ ground (arith, select-update (matches k none) f keeps j rows)
    | inr (r, e) ↦ ground (
      arith,
      select-update (matches k none) f keeps j rows,
      select-id j rows e,
      text_eq_iff r.id k,
      n,
    )
  ]

-- A revalidation of an unknown run and of one that has not ended are refused. Of a run that has
-- ended it succeeds, and the run then starts a new attempt: CREATED, the next generation, no
-- evidence, verdict, error, seal or decision, but the modernization report of the attempt before.
-- Every other run is as it was.
pub begin_revalidation-get_run :
    (k : String) (contract : Option String) (now : String) (s : Store)
    → (get_run k s ≡ none → begin_revalidation k contract now s ≡ err (not_found k))
      × ((r : RunRecord)
          → get_run k s ≡ some r
          → is_terminal r.stage ≡ false
          → begin_revalidation k contract now s ≡ err (not_revalidatable k))
      × ((r : RunRecord)
          → get_run k s ≡ some r
          → is_terminal r.stage ≡ true
          → (t : Store) × (begin_revalidation k contract now s ≡ ok t)
            × ((r' : RunRecord) × (get_run k t ≡ some r') × IsFresh contract r r')
            × ((j : String) → j ≢ k → get_run j t ≡ get_run j s))
unfolding begin_revalidation require get_run reset
begin_revalidation-get_run k contract now s = (
  λ e. ground arith,
  λ r e running. ground arith,
  λ r e ended. (
    record {
      runs = update (matches k none) (reset contract) s.runs;
      approval_events = s.approval_events ++ reset_events r now;
    },
    ground arith,
    (reset contract r, own k (reset contract) (λ r. refl) s.runs e, fresh contract r),
    others k (reset contract) (λ r. refl) s.runs,
  ),
)
