-- ===== src/Runs/Attempt.antt =====
-- What api/store.py promises of one run, less its documents: attempts follow one another, an
-- attempt gets further until it ends, and a decision belongs to one attempt.
pub mod History
pub mod Stale
pub mod Audit
pub mod Restart
use cobol_java_transformatio.Common.{
  ℕ, suc, ◌+◌, ◌<◌, ◌≤◌, String, ◌≡◌, refl, sym, ◌∙◌, ap, inl, inr, ◌⊎◌, Bool, true, false, not,
  Option, none, some, List, arith, text_eq, text_eq_iff, text_eq_refl, Bool-cases, Option-cases, ok,
  if◌then◌else◌, [], ◌∷◌, ◌++◌,
}
use cobol_java_transformatio.Runs.Stage.{
  RunStage, created, failed, is_terminal, is_valid_transition,
}
use cobol_java_transformatio.Runs.Model.{RunRecord, Store}
use cobol_java_transformatio.Runs.Table.{select, matches, update}
use cobol_java_transformatio.Runs.Table.Laws.{
  IsKeyed, KeepsId, select-update, updated, select-append, select-id,
}
use cobol_java_transformatio.Runs.Store.{
  add_run, update_run, written_by_update, update_bound, decide, set_generated_seal,
  set_run_generated, set_run_discovery, reset, interrupt, is_running, mark_interrupted_runs,
}
use cobol_java_transformatio.Runs.Store.Outcome.{
  add_run-ok, update_run-ok, update_bound-ok, set_run_approval-ok, begin_revalidation-ok,
  IsDecision,
}
use cobol_java_transformatio.Runs.Step.{
  Step, updated as written, added, decided, sealed, generated, discovered, revalidated, restarted,
}
use cobol_java_transformatio.Runs.Step

pub record Attempt : Type 0 where
  pub generation : ℕ
  pub stage : RunStage
  pub decision : String

abbrev pub view : RunRecord → Attempt
view r = record {
  generation = r.validation_generation;
  stage = r.stage;
  decision = r.approval_state;
}

pub data Move (a : Attempt) (b : Attempt) : Type 0 where
  stay : b ≡ a → Move a b
  advance :
      (s : RunStage) → is_valid_transition a.stage s ≡ true → b ≡ record a { stage = s } → Move a b
  settle : (d : String) → IsDecision d → b ≡ record a { decision = d } → Move a b
  restart :
      is_terminal a.stage ≡ true
      → b ≡ record { generation = a.generation + 1; stage = created; decision = "PENDING" }
      → Move a b
  crash : is_terminal a.stage ≡ false → b ≡ record a { stage = failed } → Move a b

-- The run `k` is still there, and made one move.
abbrev pub Moved : String → RunRecord → Store → Type 0
Moved k r t = (r' : RunRecord) × (select k t.runs ≡ some r') × Move (view r) (view r')

-- An UPDATE of any rows, each of which makes a move.
by_update :
    (p : RunRecord → Bool) (f : RunRecord → RunRecord)
    → KeepsId f
    → (k : String) (s t : Store) (r : RunRecord) → select k s.runs ≡ some r
    → t.runs ≡ update p f s.runs
    → (p r ≡ true → Move (view r) (view (f r)))
    → Moved k r t
by_update p f keeps k s t r found e move = elim (Bool-cases (p r)) [
  | inl h ↦ (f r, ground (arith, select-update p f keeps k s.runs), move h)
  | inr h ↦ (r, ground (arith, select-update p f keeps k s.runs), stay refl)
]

-- A write of columns that the abstract view leaves out.
by_bound :
    (k j : String) (g : Option ℕ) (f : RunRecord → RunRecord) (s : Store) {t : Store}
    (r : RunRecord)
    → IsKeyed s.runs
    → select k s.runs ≡ some r
    → KeepsId f
    → view (f r) ≡ view r
    → update_bound j g f s ≡ ok t
    → Moved k r t
by_bound k j g f s {t} r h found keeps same e =
    let done = update_bound-ok j g f s h e in
    by_update (matches j g) f keeps k s t r found (ap (λ (u : Store). u.runs) done.3)
      (λ _. stay same)

by_write :
    (k : String) (new r row : RunRecord) (s : Store)
    → select k s.runs ≡ some r
    → select new.id s.runs ≡ some row
    → new.validation_generation ≡ row.validation_generation
    → is_valid_transition row.stage new.stage ≡ true
    → matches new.id none r ≡ true
    → Move (view r) (view (written_by_update new r))
unfolding matches written_by_update
by_write k new r row s found found' gen valid h =
    let same : row ≡ r = ground (
      arith,
      text_eq_iff r.id new.id,
      select-id k s.runs found,
      ap (λ (j : String). select j s.runs)
          (sym (select-id k s.runs found) ∙ (text_eq_iff r.id new.id).0 h),
    ) in
    advance new.stage (ground arith) (ground arith)

by_insert :
    (k : String) (r x : RunRecord) (s t : Store)
    → select k s.runs ≡ some r
    → t.runs ≡ s.runs ++ x ∷ []
    → Moved k r t
by_insert k r x s t found e = (r, ground (arith, select-append k s.runs x), stay refl)

by_decision :
    (state approver : String) (reason : Option String) (now : String) (r : RunRecord)
    → IsDecision state
    → Move (view r) (view (decide state approver reason now r))
unfolding decide
by_decision state approver reason now r d = settle state d refl

by_reset :
    (k : String) (contract : Option String) (s : Store) (r row : RunRecord)
    → select k s.runs ≡ some row
    → is_terminal row.stage ≡ true
    → (j : String) → select j s.runs ≡ some r
    → matches k none r ≡ true
    → Move (view r) (view (reset contract r))
unfolding reset matches
by_reset k contract s r row found ended j found' h =
    let same : j ≡ k = sym (select-id j s.runs found') ∙ (text_eq_iff r.id k).0 h in
    restart (ground (arith, ap (λ (i : String). select i s.runs) same)) refl

-- Refinement: whatever operation of the store succeeds, each of its runs stays or makes one move of
-- the abstract lifecycle.
pub Step-Move :
    {s t : Store}
    → Step s t
    → IsKeyed s.runs
    → (k : String) (r : RunRecord) → select k s.runs ≡ some r
    → Moved k r t
unfolding set_generated_seal set_run_generated set_run_discovery mark_interrupted_runs decide reset
    interrupt written_by_update
Step-Move {s} {t} (added new d e) h k r found =
    by_insert k r _ s t found (ap (λ (u : Store). u.runs) (add_run-ok new s e).1)
Step-Move {s} {t} (written new e) h k r found =
    let (row, found', gen, valid, done) = update_run-ok new s e in
    by_update (matches new.id none) (written_by_update new) (λ r. refl) k s t r found
      (ap (λ (u : Store). u.runs) done) (by_write k new r row s found found' gen valid)
Step-Move {s} {t} (decided j state approver reason g now e) h k r found =
    let (d, row, done) = set_run_approval-ok j state approver reason g now s h e in
    by_update (matches j g) (decide state approver reason now) (λ r. refl) k s t r found
      (ap (λ (u : Store). u.runs) done) (λ _. by_decision state approver reason now r d)
Step-Move {s} {t} (sealed j seal g e) h k r found = by_bound k j g _ s r h found (λ r. refl) refl e
Step-Move {s} {t} (generated j path entrypoint g e) h k r found =
    by_bound k j g _ s r h found (λ r. refl) refl e
Step-Move {s} {t} (discovered j snapshot e) h k r found =
    by_bound k j none _ s r h found (λ r. refl) refl e
Step-Move {s} {t} (revalidated j contract now e) h k r found =
    let (row, found', ended, done) = begin_revalidation-ok j contract now s e in
    by_update (matches j none) (reset contract) (λ r. refl) k s t r found
      (ap (λ (u : Store). u.runs) done) (by_reset j contract s r row found' ended k found)
Step-Move {s} {t} (restarted now e) h k r found =
    by_update is_running (interrupt now) (λ r. refl) k s t r found
      (ap (λ (u : Store). u.runs) (sym e)) (λ running. crash (ground arith) refl)
