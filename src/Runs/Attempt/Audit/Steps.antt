-- ===== src/Runs/Attempt/Audit/Steps.antt =====
-- The audit trail under each operation of api/store.py.
use cobol_java_transformatio.Common.{
  ◌+◌, String, ◌≡◌, refl, sym, ap, ◌∙◌, inl, inr, true, Option, none, some, [], ◌++◌, arith,
  text_eq, text_eq_iff, text_eq_refl, Bool-cases, append-nil,
}
use cobol_java_transformatio.Runs.Model.{
  RunRecord, ApprovalEvent, Store, given, revalidation_generation,
}
use cobol_java_transformatio.Runs.Table.{select, matches, update}
use cobol_java_transformatio.Runs.Table.Laws.{IsKeyed, select-id}
use cobol_java_transformatio.Runs.Store.{
  approval_history, written_by_update, decide, set_generated_seal, set_run_generated,
  set_run_discovery, reset, reset_events, interrupt, is_running, mark_interrupted_runs,
}
use cobol_java_transformatio.Runs.Store.Outcome.{
  add_run-ok, update_run-ok, update_bound-ok, set_run_approval-ok, begin_revalidation-ok,
  IsDecision,
}
use cobol_java_transformatio.Runs.Step.{
  Step, Reach, here, next, added, updated as written, decided, sealed, generated, discovered,
  revalidated, restarted, empty,
}
use cobol_java_transformatio.Runs.Attempt.History.{Reach-IsKeyed}
use cobol_java_transformatio.Runs.Attempt.Audit.{
  pending, recorded, replay, replay_known, decision_of, IsAccounted, by_update, by_insert, by_event,
}

decision_recorded :
    (k state approver : String) (reason : Option String) (now : String) (r : RunRecord)
    → IsDecision state
    → decision_of (decide state approver reason now r)
      ≡ recorded (decision_of r) record {
        run_id = k;
        state = state;
        approver = some approver;
        reason = given reason;
        recorded_at = now;
      }
unfolding decide
decision_recorded k state approver reason now r (inl e) = rw e (rw (text_eq_refl "APPROVED") refl)
decision_recorded k state approver reason now r (inr e) =
    rw e (ground (arith, text_eq_refl "REJECTED"))

-- Nobody has decided on a row whose state is PENDING.
undecided :
    (s : Store)
    → IsAccounted s
    → (k : String) (r : RunRecord) → select k s.runs ≡ some r
    → text_eq r.approval_state "PENDING" ≡ true
    → decision_of r ≡ pending
unfolding text_eq
undecided s sound k r found e = elim (replay_known pending (approval_history k s) (inl refl)) [
  | inl p ↦ sound.known k r found ∙ p
  | inr (inl p) ↦ absurd (
      ground (
        arith,
        sound.known k r found,
        (text_eq_iff r.approval_state "PENDING").0 e,
        text_eq_iff "PENDING" "APPROVED",
      ))
  | inr (inr p) ↦ absurd (
      ground (
        arith,
        sound.known k r found,
        (text_eq_iff r.approval_state "PENDING").0 e,
        text_eq_iff "PENDING" "REJECTED",
      ))
]

abbrev reset_event : RunRecord → String → ApprovalEvent
reset_event row now = record {
  run_id = row.id;
  state = "RESET";
  approver = none;
  reason = revalidation_generation (row.validation_generation + 1);
  recorded_at = now;
}

reset-IsAccounted :
    (s t : Store)
    → IsAccounted s
    → (k : String) (contract : Option String) (now : String) (row : RunRecord)
    → select k s.runs ≡ some row
    → t ≡ record {
      runs = update (matches k none) (reset contract) s.runs;
      approval_events = s.approval_events ++ reset_events row now;
    }
    → IsAccounted t
unfolding reset_events reset matches text_eq
reset-IsAccounted s t sound k contract now row found e =
    elim (Bool-cases (text_eq row.approval_state "PENDING")) [
      | inl h ↦
          by_update s t sound (matches k none) (reset contract) (λ r. refl)
            (λ j r q c. sym (
              undecided s sound j r q (
                ground (
                  arith,
                  select-id j s.runs q,
                  text_eq_iff r.id k,
                  ap (λ (i : String). select i s.runs)
                      (sym (select-id j s.runs q) ∙ (text_eq_iff r.id k).0 c),
                ))))
            (ap (λ (u : Store). u.runs) e)
            (ap (λ (u : Store). u.approval_events) e ∙ rw h (append-nil s.approval_events))
      | inr h ↦
          by_event s t sound k none (reset contract) row (reset_event row now) (λ r. refl) found
            ((text_eq_iff row.id k).1 (select-id k s.runs found)) refl (select-id k s.runs found)
            (ap (λ (u : Store). u.runs) e) (ap (λ (u : Store). u.approval_events) e ∙ rw h refl)
    ]

pub Step-IsAccounted : {s t : Store} → Step s t → IsKeyed s.runs → IsAccounted s → IsAccounted t
unfolding set_generated_seal set_run_generated set_run_discovery mark_interrupted_runs interrupt
    written_by_update decide
Step-IsAccounted {s} {t} (added r d e) h sound =
    let done = (add_run-ok r s e).1 in
    by_insert s t sound _ (ground (arith, d.state, d.approver, d.decided_at))
      (ap (λ (u : Store). u.runs) done) (ap (λ (u : Store). u.approval_events) done)
Step-IsAccounted {s} {t} (written r e) h sound =
    let done = (update_run-ok r s e).4 in
    by_update s t sound _ _ (λ r. refl) (λ k r q c. refl) (ap (λ (u : Store). u.runs) done)
      (ap (λ (u : Store). u.approval_events) done)
Step-IsAccounted {s} {t} (decided k state approver reason g now e) h sound =
    let (d, (r, found, fits), done) = set_run_approval-ok k state approver reason g now s h e in
    by_event s t sound k g (decide state approver reason now) r _ (λ r. refl) found fits
      (decision_recorded k state approver reason now r d) refl (ap (λ (u : Store). u.runs) done)
      (ap (λ (u : Store). u.approval_events) done)
Step-IsAccounted {s} {t} (sealed k seal g e) h sound =
    let done = (update_bound-ok k g _ s h e).3 in
    by_update s t sound _ _ (λ r. refl) (λ k r q c. refl) (ap (λ (u : Store). u.runs) done)
      (ap (λ (u : Store). u.approval_events) done)
Step-IsAccounted {s} {t} (generated k path entrypoint g e) h sound =
    let done = (update_bound-ok k g _ s h e).3 in
    by_update s t sound _ _ (λ r. refl) (λ k r q c. refl) (ap (λ (u : Store). u.runs) done)
      (ap (λ (u : Store). u.approval_events) done)
Step-IsAccounted {s} {t} (discovered k snapshot e) h sound =
    let done = (update_bound-ok k none _ s h e).3 in
    by_update s t sound _ _ (λ r. refl) (λ k r q c. refl) (ap (λ (u : Store). u.runs) done)
      (ap (λ (u : Store). u.approval_events) done)
Step-IsAccounted {s} {t} (revalidated k contract now e) h sound =
    let (row, found, ended, done) = begin_revalidation-ok k contract now s e in
    reset-IsAccounted s t sound k contract now row found done
Step-IsAccounted {s} {t} (restarted now e) h sound =
    by_update s t sound is_running (interrupt now) (λ r. refl) (λ k r q c. refl)
      (ap (λ (u : Store). u.runs) (sym e)) (ap (λ (u : Store). u.approval_events) (sym e))

Reach-IsAccounted : {s t : Store} → Reach s t → IsKeyed s.runs → IsAccounted s → IsAccounted t
Reach-IsAccounted here h sound = sound
Reach-IsAccounted (next past st) h sound =
    Step-IsAccounted st (Reach-IsKeyed past h) (Reach-IsAccounted past h sound)

empty-IsAccounted : IsAccounted empty
unfolding select approval_history
empty-IsAccounted = record { known = λ k r h. cc; unknown = λ k h. refl }

-- Whatever operations a store has seen since it was empty, the approval columns of each run (state,
-- approver and time) are what its audit trail, read from the oldest event, says: the last decision,
-- or PENDING where there was none or where a later revalidation took it back. A key that no run has
-- has no event.
pub Reach-approval_history :
    {s : Store}
    → Reach empty s
    → ((k : String) (r : RunRecord)
        → select k s.runs ≡ some r
        → decision_of r ≡ replay pending (approval_history k s))
      × ((k : String) → select k s.runs ≡ none → approval_history k s ≡ [])
Reach-approval_history past =
    let sound = Reach-IsAccounted past tt empty-IsAccounted in (sound.known, sound.unknown)
