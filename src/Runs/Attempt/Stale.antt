-- ===== src/Runs/Attempt/Stale.antt =====
-- Writes to api/store.py from a worker that belongs to an earlier attempt.
use cobol_java_transformatio.Common.{
  ℕ, ◌+◌, ◌<◌, String, ◌≡◌, refl, ap, inl, inr, Bool, Option, none, some, arith, text_eq,
  text_eq_iff, ok, err,
}
use cobol_java_transformatio.Runs.Model.{RunRecord, Store, reset_by_newer_attempt}
use cobol_java_transformatio.Runs.Table.{select, matches}
use cobol_java_transformatio.Runs.Table.Laws.{IsKeyed, select-update, select-id}
use cobol_java_transformatio.Runs.Store.{
  require, get_run, update_run, update_bound, set_run_approval, set_generated_seal,
  set_run_generated, begin_revalidation, reset,
}
use cobol_java_transformatio.Runs.Store.Outcome.{
  update_bound_lem, begin_revalidation-ok, IsDecision,
}
use cobol_java_transformatio.Runs.Step.{Reach, revalidated}
use cobol_java_transformatio.Runs.Attempt.History.{Reach-Later, Reach-IsKeyed, Step-IsKeyed}

-- Every write of the attempt `g` of the run `k` is refused with a conflict.
pub record IsRefused (k : String) (g : ℕ) (s : Store) : Type 0 where
  pub update :
      (new : RunRecord) (allow_reset : Bool)
      → new.id ≡ k
      → new.validation_generation ≡ g
      → update_run new allow_reset s ≡ err (reset_by_newer_attempt k)
  pub approval :
      (state approver : String) (reason : Option String) (now : String)
      → IsDecision state
      → set_run_approval k state approver reason (some g) now s ≡ err (reset_by_newer_attempt k)
  pub seal : (seal : String) → set_generated_seal k seal (some g) s ≡ err (reset_by_newer_attempt k)
  pub generated :
      (path entrypoint : Option String)
      → set_run_generated k path entrypoint (some g) s ≡ err (reset_by_newer_attempt k)

module _ (k : String) (g : ℕ) (s : Store) (r : RunRecord) (keyed : IsKeyed s.runs)
    (found : select k s.runs ≡ some r) (old : g < r.validation_generation) where
  bound : (f : RunRecord → RunRecord) → update_bound k (some g) f s ≡ err (reset_by_newer_attempt k)
  unfolding matches
  bound f = ground (arith, update_bound_lem k (some g) f s keyed)

  stale_update :
      (new : RunRecord) (allow_reset : Bool)
      → new.id ≡ k
      → new.validation_generation ≡ g
      → update_run new allow_reset s ≡ err (reset_by_newer_attempt k)
  unfolding update_run require get_run
  stale_update new allow_reset i e = ground (arith, ap (λ (j : String). select j s.runs) i)

  refused : IsRefused k g s
  unfolding set_run_approval set_generated_seal set_run_generated text_eq
  refused = record {
    update = stale_update;
    approval = λ state approver reason now. elim [
      | inl e ↦ rw e (rw (bound _) refl)
      | inr e ↦ rw e (rw (bound _) refl)
    ];
    seal = λ seal. bound _;
    generated = λ path entrypoint. bound _;
  }

restarted :
    (k : String) (contract : Option String) (now : String) (s : Store) {t : Store}
    → begin_revalidation k contract now s ≡ ok t
    → (r : RunRecord) → select k s.runs ≡ some r
    → (r' : RunRecord) × (select k t.runs ≡ some r')
      × (r'.validation_generation ≡ r.validation_generation + 1)
unfolding matches reset
restarted k contract now s e r found =
    let (row, found', ended, done) = begin_revalidation-ok k contract now s e in
    let own = (text_eq_iff r.id k).1 (select-id k s.runs found) in
    (
      reset contract r,
      ground (arith, select-update (matches k none) (reset contract) (λ r. refl) k s.runs, own),
      refl,
    )

-- After a revalidation has reset a run, and for ever after, every write that a worker of an earlier
-- attempt makes under its own generation is refused as a conflict: its progress, a decision that was
-- made on its results, its seal and its bundle. So no approval of one attempt lands on a later one.
pub begin_revalidation-IsRefused :
    {s t u v : Store}
    → Reach s t
    → IsKeyed s.runs
    → (k : String) (contract : Option String) (now : String)
    → begin_revalidation k contract now t ≡ ok u
    → Reach u v
    → (r : RunRecord) → select k s.runs ≡ some r
    → IsRefused k r.validation_generation v
begin_revalidation-IsRefused {s} {t} {u} {v} before keyed k contract now e after r found =
    let (a, found_a, sooner) = Reach-Later before keyed k r found in
    let keyed_t = Reach-IsKeyed before keyed in
    let step = revalidated k contract now e in
    let (b, found_b, gen) = restarted k contract now t e a found_a in
    let keyed_u = Step-IsKeyed step keyed_t in
    let (c, found_c, later) = Reach-Later after keyed_u k b found_b in
    refused k r.validation_generation v c (Reach-IsKeyed after keyed_u) found_c
      (ground (arith, sooner, later))
