-- ===== src/Runs/Attempt/Audit.antt =====
-- The approval columns of a run against the audit trail `approval_events` of api/store.py.
pub mod Steps
use cobol_java_transformatio.Common.{
  ℕ, ◌+◌, suc, String, ◌≡◌, refl, sym, ap, subst, ◌∙◌, inl, inr, ◌⊎◌, Bool, true, false, ◌||◌,
  Option, none, some, List, [], ◌∷◌, ◌++◌, arith, text_eq, text_eq_iff, text_eq_refl, Option-cases,
  Bool-cases, if◌then◌else◌, filter, ok, append-nil,
}
use cobol_java_transformatio.Runs.Stage.{is_terminal}
use cobol_java_transformatio.Runs.Model.{
  RunRecord, ApprovalEvent, Store, given, revalidation_generation,
}
use cobol_java_transformatio.Runs.Table.{select, matches, update}
use cobol_java_transformatio.Runs.Table.Laws.{
  IsKeyed, KeepsId, select-update, select-append, select-id, updated,
}
use cobol_java_transformatio.Runs.Store.{
  approval_history, written_by_update, decide, set_generated_seal, set_run_generated,
  set_run_discovery, reset, reset_events, interrupt, is_running, mark_interrupted_runs,
}
use cobol_java_transformatio.Runs.Store.Outcome.{
  add_run-ok, update_run-ok, update_bound-ok, set_run_approval-ok, begin_revalidation-ok,
  IsDecision,
}
use cobol_java_transformatio.Runs.Step.{
  Step, Reach, here, next, IsUndecided, added, updated as written, decided, sealed, generated,
  discovered, revalidated, restarted, empty,
}
use cobol_java_transformatio.Runs.Attempt.History.{Step-IsKeyed, Reach-IsKeyed}

-- Who decided what, and when.
pub record Decision : Type 0 where
  pub state : String
  pub approver : Option String
  pub decided_at : Option String

abbrev pub pending : Decision
pending = record { state = "PENDING"; approver = none; decided_at = none }

-- What an audit trail says of the present decision: an event that is no decision takes it back.
abbrev pub recorded : Decision → ApprovalEvent → Decision
recorded d e =
    if text_eq e.state "APPROVED" || text_eq e.state "REJECTED"
    then record { state = e.state; approver = e.approver; decided_at = some e.recorded_at }
    else pending

unfoldable pub replay : Decision → List ApprovalEvent → Decision
replay d [] = d
replay d (e ∷ events) = replay (recorded d e) events

abbrev pub decision_of : RunRecord → Decision
decision_of r = record {
  state = r.approval_state;
  approver = r.approval_approver;
  decided_at = r.approval_decided_at;
}

replay-append :
    (d : Decision) (events : List ApprovalEvent) (e : ApprovalEvent)
    → replay d (events ++ e ∷ []) ≡ recorded (replay d events) e
unfolding replay
replay-append d [] e = refl
replay-append d (x ∷ events) e = replay-append (recorded d x) events e

pub replay_known :
    (d : Decision) (events : List ApprovalEvent)
    → (d ≡ pending) ⊎ IsDecision d.state
    → (replay d events ≡ pending) ⊎ IsDecision (replay d events).state
unfolding replay
replay_known d [] h = h
replay_known d (e ∷ events) h =
    replay_known (recorded d e) events
      (ground (arith, text_eq_iff e.state "APPROVED", text_eq_iff e.state "REJECTED"))

pub filter-append {ℓ} :
    {A : Type ℓ} (p : A → Bool) (xs : List A) (x : A)
    → filter p (xs ++ x ∷ []) ≡ (if p x then filter p xs ++ x ∷ [] else filter p xs)
filter-append p [] x = refl
filter-append p (y ∷ xs) x = ground (arith, filter-append p xs x)

-- Each run's approval columns are what its audit trail says, and a key that no run has has none.
pub record IsAccounted (s : Store) : Type 0 where
  pub known :
      (k : String) (r : RunRecord)
      → select k s.runs ≡ some r
      → decision_of r ≡ replay pending (approval_history k s)
  pub unknown : (k : String) → select k s.runs ≡ none → approval_history k s ≡ []

-- The trail of one run when an event is added.
own_event :
    (k : String) (events : List ApprovalEvent) (e : ApprovalEvent)
    → e.run_id ≡ k
    → filter (λ x. text_eq x.run_id k) (events ++ e ∷ [])
      ≡ filter (λ x. text_eq x.run_id k) events ++ e ∷ []
own_event k events e own =
    filter-append (λ x. text_eq x.run_id k) events e ∙ rw own (rw (text_eq_refl k) refl)

other_event :
    (j k : String) (events : List ApprovalEvent) (e : ApprovalEvent)
    → e.run_id ≡ k
    → text_eq k j ≡ false
    → filter (λ x. text_eq x.run_id j) (events ++ e ∷ []) ≡ filter (λ x. text_eq x.run_id j) events
other_event j k events e own n =
    filter-append (λ x. text_eq x.run_id j) events e ∙ rw own (rw n refl)

other_row :
    (k j : String) (g : Option ℕ) (rows : List RunRecord) {r : RunRecord}
    → select j rows ≡ some r
    → text_eq k j ≡ false
    → matches k g r ≡ false
unfolding matches
other_row k j none rows {r} e n =
    ground (arith, select-id j rows e, text_eq_iff r.id k, text_eq_iff k j)
other_row k j (some m) rows {r} e n =
    ground (arith, select-id j rows e, text_eq_iff r.id k, text_eq_iff k j)

module _ (s : Store) (t : Store) (sound : IsAccounted s) where
  -- An UPDATE that leaves decisions alone, with no event.
  pub by_update :
      (p : RunRecord → Bool) (f : RunRecord → RunRecord)
      → KeepsId f
      → ((k : String) (r : RunRecord)
          → select k s.runs ≡ some r
          → p r ≡ true
          → decision_of (f r) ≡ decision_of r)
      → t.runs ≡ update p f s.runs
      → t.approval_events ≡ s.approval_events
      → IsAccounted t
  unfolding approval_history
  by_update p f keeps same e v = record {
    known = λ k r' h. elim (Option-cases (select k s.runs)) [
      | inl n ↦ absurd (ground (arith, select-update p f keeps k s.runs))
      | inr (r, q) ↦ elim (Bool-cases (p r)) [
        | inl c ↦ ground (arith, select-update p f keeps k s.runs, same k r q c, sound.known k r q)
        | inr c ↦ ground (arith, select-update p f keeps k s.runs, sound.known k r q)
      ]
    ];
    unknown = λ k h. elim (Option-cases (select k s.runs)) [
      | inl n ↦ ground (arith, sound.unknown k n)
      | inr (r, q) ↦ absurd (ground (arith, select-update p f keeps k s.runs))
    ];
  }

  pub by_insert :
      (x : RunRecord)
      → decision_of x ≡ pending
      → t.runs ≡ s.runs ++ x ∷ []
      → t.approval_events ≡ s.approval_events
      → IsAccounted t
  unfolding approval_history replay
  by_insert x new e v = record {
    known = λ k r' h. elim (Option-cases (select k s.runs)) [
      | inl n ↦ ground (
        arith,
        select-append k s.runs x,
        sound.unknown k n,
        ap (replay pending) (sound.unknown k n),
      )
      | inr (r, q) ↦ ground (arith, select-append k s.runs x, sound.known k r q)
    ];
    unknown = λ k h. elim (Option-cases (select k s.runs)) [
      | inl n ↦ ground (arith, sound.unknown k n)
      | inr (r, q) ↦ absurd (ground (arith, select-append k s.runs x))
    ];
  }

  event_row :
      (k : String) (g : Option ℕ) (f : RunRecord → RunRecord) (r : RunRecord) (e : ApprovalEvent)
      → KeepsId f
      → select k s.runs ≡ some r
      → matches k g r ≡ true
      → decision_of (f r) ≡ recorded (decision_of r) e
      → e.run_id ≡ k
      → t.runs ≡ update (matches k g) f s.runs
      → t.approval_events ≡ s.approval_events ++ e ∷ []
      → (r' : RunRecord) → select k t.runs ≡ some r'
      → decision_of r' ≡ replay pending (approval_history k t)
  unfolding approval_history
  event_row k g f r e keeps found fits new own rows v r' h =
      let there : f r ≡ r' = ground (arith, select-update (matches k g) f keeps k s.runs) in
      rw (sym there) (
        new
        ∙ ap (λ (d : Decision). recorded d e) (sound.known k r found)
        ∙ sym (replay-append pending (approval_history k s) e)
        ∙ ap (replay pending)
            (sym (ap (filter (λ x. text_eq x.run_id k)) v ∙ own_event k s.approval_events e own)))

  -- A write of one run with the event that records it.
  pub by_event :
      (k : String) (g : Option ℕ) (f : RunRecord → RunRecord) (r : RunRecord) (e : ApprovalEvent)
      → KeepsId f
      → select k s.runs ≡ some r
      → matches k g r ≡ true
      → decision_of (f r) ≡ recorded (decision_of r) e
      → e.run_id ≡ k
      → t.runs ≡ update (matches k g) f s.runs
      → t.approval_events ≡ s.approval_events ++ e ∷ []
      → IsAccounted t
  unfolding approval_history
  by_event k g f r e keeps found fits new own rows v = record {
    known = λ j r' h. elim (Bool-cases (text_eq k j)) [
      | inl same ↦
          subst (λ i. decision_of r' ≡ replay pending (approval_history i t))
            ((text_eq_iff k j).0 same)
            (event_row k g f r e keeps found fits new own rows v r'
              (ap (λ (i : String). select i t.runs) ((text_eq_iff k j).0 same) ∙ h))
      | inr n ↦ elim (Option-cases (select j s.runs)) [
        | inl q ↦ absurd (ground (arith, select-update (matches k g) f keeps j s.runs))
        | inr (x, q) ↦ ground (
          arith,
          select-update (matches k g) f keeps j s.runs,
          sound.known j x q,
          other_row k j g s.runs q n,
          other_event j k s.approval_events e own n,
        )
      ]
    ];
    unknown = λ j h. elim (Bool-cases (text_eq k j)) [
      | inl same ↦ absurd (
          ground (
            arith,
            select-update (matches k g) f keeps k s.runs,
            ap (λ (i : String). select i t.runs) ((text_eq_iff k j).0 same),
          ))
      | inr n ↦ elim (Option-cases (select j s.runs)) [
        | inl q ↦ ground (arith, sound.unknown j q, other_event j k s.approval_events e own n)
        | inr (x, q) ↦ absurd (ground (arith, select-update (matches k g) f keeps j s.runs))
      ]
    ];
  }
