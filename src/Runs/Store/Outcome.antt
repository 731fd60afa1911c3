-- ===== src/Runs/Store/Outcome.antt =====
-- When each operation of the store succeeds, and the store that it then leaves.
use cobol_java_transformatio.Common.{
  ℕ, String, ◌≡◌, inl, inr, ◌⊎◌, true, false, not, ◌||◌, Option, none, some, [], ◌∷◌, ◌++◌, arith,
  text_eq, text_eq_iff, Bool-cases, Option-cases, if◌then◌else◌, ok, err, raise_if, >>=-ok,
}
use cobol_java_transformatio.Runs.Stage.{is_terminal, is_valid_transition, last_stage_anchor}
use cobol_java_transformatio.Runs.Model.{
  RunRecord, given, Store, not_found, reset_by_newer_attempt, invalid_decision,
}
use cobol_java_transformatio.Runs.Table.{select, matches, update}
use cobol_java_transformatio.Runs.Table.Laws.{IsKeyed, rowcount-select}
use cobol_java_transformatio.Runs.Store.{
  get_run, require, add_run, update_run, written_by_update, update_bound, set_run_approval, decide,
  begin_revalidation, reset, reset_events,
}

pub add_run-ok :
    (r : RunRecord) (s : Store) {t : Store}
    → add_run r s ≡ ok t
    → (select r.id s.runs ≡ none)
      × (t ≡ record s {
        runs = s.runs ++ record r { last_stage = last_stage_anchor r.stage r.last_stage } ∷ [];
      })
unfolding add_run get_run
add_run-ok r s h = ground arith

pub update_run-ok :
    (new : RunRecord) (s : Store) {t : Store}
    → update_run new false s ≡ ok t
    → (row : RunRecord) × (select new.id s.runs ≡ some row)
      × (new.validation_generation ≡ row.validation_generation)
      × (is_valid_transition row.stage new.stage ≡ true)
      × (t ≡ record s { runs = update (matches new.id none) (written_by_update new) s.runs })
unfolding update_run require get_run
update_run-ok new s h = elim (Option-cases (select new.id s.runs)) [
  | inl e ↦ absurd (ground arith)
  | inr (row, e) ↦ (row, e, ground arith, ground arith, ground arith)
]

-- A write that may be bound to an attempt: unknown runs, then other attempts, are refused.
pub update_bound_lem :
    (k : String) (g : Option ℕ) (f : RunRecord → RunRecord) (s : Store)
    → IsKeyed s.runs
    → update_bound k g f s ≡ elim (select k s.runs) [
      | none ↦ err (not_found k)
      | some r ↦
          if matches k g r
          then ok (record s { runs = update (matches k g) f s.runs })
          else err (reset_by_newer_attempt k)
    ]
unfolding update_bound get_run
update_bound_lem k g f s h = ground (arith, rowcount-select k g s.runs h)

pub update_bound-ok :
    (k : String) (g : Option ℕ) (f : RunRecord → RunRecord) (s : Store) {t : Store}
    → IsKeyed s.runs
    → update_bound k g f s ≡ ok t
    → (r : RunRecord) × (select k s.runs ≡ some r)
      × (matches k g r ≡ true)
      × (t ≡ record s { runs = update (matches k g) f s.runs })
update_bound-ok k g f s h e = elim (Option-cases (select k s.runs)) [
  | inl n ↦ ground (arith, update_bound_lem k g f s h)
  | inr (r, q) ↦
      (r, q, ground (arith, update_bound_lem k g f s h), ground (arith, update_bound_lem k g f s h))
]

-- A decision is one of the two texts.
abbrev pub IsDecision : String → Type 0
IsDecision d = (d ≡ "APPROVED") ⊎ (d ≡ "REJECTED")

decided : (d : String) → (text_eq d "APPROVED" || text_eq d "REJECTED") ≡ true → IsDecision d
decided d h = elim (Bool-cases (text_eq d "APPROVED")) [
  | inl e ↦ inl ((text_eq_iff d "APPROVED").0 e)
  | inr e ↦ inr ((text_eq_iff d "REJECTED").0 (rw e at h))
]

pub set_run_approval-ok :
    (k state approver : String) (reason : Option String) (g : Option ℕ) (now : String) (s : Store)
    {t : Store}
    → IsKeyed s.runs
    → set_run_approval k state approver reason g now s ≡ ok t
    → IsDecision state
      × ((r : RunRecord) × (select k s.runs ≡ some r) × (matches k g r ≡ true))
      × (t ≡ record {
        runs = update (matches k g) (decide state approver reason now) s.runs;
        approval_events =
            s.approval_events
            ++ record {
              run_id = k;
              state = state;
              approver = some approver;
              reason = given reason;
              recorded_at = now;
            }
              ∷ [];
      })
unfolding set_run_approval
set_run_approval-ok k state approver reason g now s h e =
    let first =
      >>=-ok
        (raise_if (not (text_eq state "APPROVED" || text_eq state "REJECTED"))
          (invalid_decision state))
        _ e in
    let (t, done, last) =
      >>=-ok (update_bound k g (decide state approver reason now) s) _ first.2 in
    let (r, found, fits, e') = update_bound-ok k g (decide state approver reason now) s h done in
    (decided state (ground arith), (r, found, fits), ground arith)

pub begin_revalidation-ok :
    (k : String) (contract : Option String) (now : String) (s : Store) {t : Store}
    → begin_revalidation k contract now s ≡ ok t
    → (row : RunRecord) × (select k s.runs ≡ some row)
      × (is_terminal row.stage ≡ true)
      × (t ≡ record {
        runs = update (matches k none) (reset contract) s.runs;
        approval_events = s.approval_events ++ reset_events row now;
      })
unfolding begin_revalidation require get_run
begin_revalidation-ok k contract now s h = elim (Option-cases (select k s.runs)) [
  | inl e ↦ absurd (ground arith)
  | inr (row, e) ↦ (row, e, ground arith, ground arith)
]
