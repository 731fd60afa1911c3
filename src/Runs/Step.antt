-- ===== src/Runs/Step.antt =====
-- The histories of a store: any order of the operations of api/store.py that succeed. A run is
-- added with the defaults of `RunRecord`, and `update_run` is called without `allow_reset`, as
-- everywhere in the repository.
use cobol_java_transformatio.Common.{ℕ, String, ◌≡◌, false, Option, none, ok, []}
use cobol_java_transformatio.Runs.Model.{RunRecord, Store}
use cobol_java_transformatio.Runs.Store.{
  add_run, update_run, set_run_approval, set_generated_seal, set_run_generated, set_run_discovery,
  begin_revalidation, mark_interrupted_runs,
}

-- The approval columns of a run that nobody has decided on.
pub record IsUndecided (r : RunRecord) : Type 0 where
  pub state : r.approval_state ≡ "PENDING"
  pub approver : r.approval_approver ≡ none
  pub decided_at : r.approval_decided_at ≡ none

pub data Step (s : Store) (t : Store) : Type 0 where
  added : (r : RunRecord) → IsUndecided r → add_run r s ≡ ok t → Step s t
  updated : (r : RunRecord) → update_run r false s ≡ ok t → Step s t
  decided :
      (k state approver : String) (reason : Option String) (g : Option ℕ) (now : String)
      → set_run_approval k state approver reason g now s ≡ ok t
      → Step s t
  sealed : (k seal : String) (g : Option ℕ) → set_generated_seal k seal g s ≡ ok t → Step s t
  generated :
      (k : String) (path entrypoint : Option String) (g : Option ℕ)
      → set_run_generated k path entrypoint g s ≡ ok t
      → Step s t
  discovered :
      (k : String) (snapshot : Option String) → set_run_discovery k snapshot s ≡ ok t → Step s t
  revalidated :
      (k : String) (contract : Option String) (now : String)
      → begin_revalidation k contract now s ≡ ok t
      → Step s t
  restarted : (now : String) → (mark_interrupted_runs now s).0 ≡ t → Step s t

pub data Reach (s : Store) : Store → Type 0 where
  here : Reach s s
  next : {t u : Store} → Reach s t → Step t u → Reach s u

-- the store before the first run
abbrev pub empty : Store
empty = record { runs = []; approval_events = [] }
