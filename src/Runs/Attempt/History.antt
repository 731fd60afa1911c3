-- ===== src/Runs/Attempt/History.antt =====
-- Histories of a run over many operations of api/store.py.
use cobol_java_transformatio.Common.{◌<◌, String, ◌≡◌, refl, sym, inl, inr, ◌⊎◌, none, some, arith}
use cobol_java_transformatio.Runs.Stage.Order.{rank, is_valid_transition-rank, running_rank}
use cobol_java_transformatio.Runs.Model.{RunRecord, Store}
use cobol_java_transformatio.Runs.Table.{select}
use cobol_java_transformatio.Runs.Table.Laws.{IsKeyed, IsKeyed-append, IsKeyed-update}
use cobol_java_transformatio.Runs.Store.{
  written_by_update, decide, set_generated_seal, set_run_generated, set_run_discovery, reset,
  interrupt, mark_interrupted_runs,
}
use cobol_java_transformatio.Runs.Store.Outcome.{
  add_run-ok, update_run-ok, update_bound-ok, set_run_approval-ok, begin_revalidation-ok,
}
use cobol_java_transformatio.Runs.Step.{
  Step, Reach, here, next, added, updated, decided, sealed, generated, discovered, revalidated,
  restarted,
}
use cobol_java_transformatio.Runs.Attempt.{
  Attempt, Move, stay, advance, settle, restart, crash, view, Step-Move,
}

-- The ids stay distinct under every operation.
pub Step-IsKeyed : {s t : Store} → Step s t → IsKeyed s.runs → IsKeyed t.runs
unfolding set_generated_seal set_run_generated set_run_discovery mark_interrupted_runs decide reset
    interrupt written_by_update
Step-IsKeyed {s} {t} (added r d e) h =
    let (free, done) = add_run-ok r s e in rw done (IsKeyed-append s.runs _ h free)
Step-IsKeyed {s} {t} (updated r e) h =
    rw (update_run-ok r s e).4 (IsKeyed-update _ _ (λ r. refl) s.runs h)
Step-IsKeyed {s} {t} (decided k state approver reason g now e) h =
    rw (set_run_approval-ok k state approver reason g now s h e).2
      (IsKeyed-update _ _ (λ r. refl) s.runs h)
Step-IsKeyed {s} {t} (sealed k seal g e) h =
    rw (update_bound-ok k g _ s h e).3 (IsKeyed-update _ _ (λ r. refl) s.runs h)
Step-IsKeyed {s} {t} (generated k path entrypoint g e) h =
    rw (update_bound-ok k g _ s h e).3 (IsKeyed-update _ _ (λ r. refl) s.runs h)
Step-IsKeyed {s} {t} (discovered k snapshot e) h =
    rw (update_bound-ok k none _ s h e).3 (IsKeyed-update _ _ (λ r. refl) s.runs h)
Step-IsKeyed {s} {t} (revalidated k contract now e) h =
    rw (begin_revalidation-ok k contract now s e).3 (IsKeyed-update _ _ (λ r. refl) s.runs h)
Step-IsKeyed {s} {t} (restarted now e) h = rw (sym e) (IsKeyed-update _ _ (λ r. refl) s.runs h)

pub Reach-IsKeyed : {s t : Store} → Reach s t → IsKeyed s.runs → IsKeyed t.runs
Reach-IsKeyed here h = h
Reach-IsKeyed (next r st) h = Step-IsKeyed st (Reach-IsKeyed r h)

-- A later attempt, or the same one at the same stage or further.
abbrev pub Later : Attempt → Attempt → Type 0
Later a b =
    (a.generation < b.generation)
    ⊎ ((a.generation ≡ b.generation) × ((a.stage ≡ b.stage) ⊎ (rank a.stage < rank b.stage)))

Move-Later : (a b : Attempt) → Move a b → Later a b
unfolding rank
Move-Later a b (stay e) = inr (ground arith, inl (ground arith))
Move-Later a b (advance s v e) =
    inr (ground arith, ground (arith, is_valid_transition-rank a.stage s))
Move-Later a b (settle d i e) = inr (ground arith, inl (ground arith))
Move-Later a b (restart v e) = inl (ground arith)
Move-Later a b (crash v e) = inr (ground arith, inr (ground (arith, running_rank a.stage v)))

Later-trans : (a b c : Attempt) → Later a b → Later b c → Later a c
Later-trans a b c (inl p) (inl q) = inl (omega arith)
Later-trans a b c (inl p) (inr q) = inl (omega (arith, q.0))
Later-trans a b c (inr p) (inl q) = inl (omega (arith, p.0))
Later-trans a b c (inr p) (inr q) = inr (ground arith, ground arith)

-- In any history of the store a run stays in the table, its validation attempts only count up, and
-- within one attempt its stage is the same or further in the pipeline's order: no run goes back, and
-- a run that has ended stays as it ended unless a new attempt begins.
pub Reach-Later :
    {s t : Store}
    → Reach s t
    → IsKeyed s.runs
    → (k : String) (r : RunRecord) → select k s.runs ≡ some r
    → (r' : RunRecord) × (select k t.runs ≡ some r') × Later (view r) (view r')
Reach-Later here h k r found = (r, found, inr (refl, inl refl))
Reach-Later (next past st) h k r found =
    let (m, found', sooner) = Reach-Later past h k r found in
    let (r', found'', move) = Step-Move st (Reach-IsKeyed past h) k m found' in
    (
      r',
      found'',
      Later-trans (view r) (view m) (view r') sooner (Move-Later (view m) (view r') move),
    )
