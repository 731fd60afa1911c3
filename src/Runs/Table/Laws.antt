-- ===== src/Runs/Table/Laws.antt =====
-- Rows found after an UPDATE or an INSERT, in a table whose ids are distinct.
use cobol_java_transformatio.Common.{
  ℕ, suc, String, ◌≡◌, refl, ap, subst, inl, inr, Bool, false, Option, none, some, List, [], ◌∷◌,
  ◌++◌, arith, text_eq, text_eq_iff, Bool-cases, if◌then◌else◌,
}
use cobol_java_transformatio.Runs.Model.{RunRecord}
use cobol_java_transformatio.Runs.Table.{select, matches, update, rowcount}

-- `id` is the primary key.
abbrev pub IsKeyed : List RunRecord → Type 0
IsKeyed [] = Unit
IsKeyed (r ∷ rows) = (select r.id rows ≡ none) × IsKeyed rows

-- An assignment that leaves the key alone.
abbrev pub KeepsId : (RunRecord → RunRecord) → Type 0
KeepsId f = (r : RunRecord) → (f r).id ≡ r.id

-- What such an UPDATE makes of the row that was found.
abbrev pub updated :
    (RunRecord → Bool) → (RunRecord → RunRecord) → Option RunRecord → Option RunRecord
updated p f none = none
updated p f (some r) = some (if p r then f r else r)

pub select-update :
    (p : RunRecord → Bool) (f : RunRecord → RunRecord)
    → KeepsId f
    → (k : String) (rows : List RunRecord)
    → select k (update p f rows) ≡ updated p f (select k rows)
unfolding select update
select-update p f keeps k [] = refl
select-update p f keeps k (r ∷ rows) = ground (arith, select-update p f keeps k rows, keeps r)

pub select-id :
    (k : String) (rows : List RunRecord) {r : RunRecord} → select k rows ≡ some r → r.id ≡ k
unfolding select
select-id k [] e = cc
select-id k (x ∷ rows) {r} e = elim (Bool-cases (text_eq x.id k)) [
  | inl h ↦ ground (arith, text_eq_iff x.id k)
  | inr h ↦ select-id k rows (rw h at e)
]

pub select-append :
    (k : String) (rows : List RunRecord) (r : RunRecord)
    → select k (rows ++ r ∷ [])
      ≡ elim (select k rows) [ none ↦ if text_eq r.id k then some r else none | some x ↦ some x ]
unfolding select
select-append k [] r = refl
select-append k (x ∷ rows) r = ground (arith, select-append k rows r)

pub IsKeyed-update :
    (p : RunRecord → Bool) (f : RunRecord → RunRecord)
    → KeepsId f
    → (rows : List RunRecord) → IsKeyed rows
    → IsKeyed (update p f rows)
unfolding update
IsKeyed-update p f keeps [] h = tt
IsKeyed-update p f keeps (r ∷ rows) h =
    (ground (arith, select-update p f keeps r.id rows, keeps r), IsKeyed-update p f keeps rows h.1)

pub IsKeyed-append :
    (rows : List RunRecord) (r : RunRecord)
    → IsKeyed rows
    → select r.id rows ≡ none
    → IsKeyed (rows ++ r ∷ [])
unfolding select
IsKeyed-append [] r h e = (refl, tt)
IsKeyed-append (x ∷ rows) r h e = (
  ground (arith, select-append x.id rows r, text_eq_iff x.id r.id, text_eq_iff r.id x.id),
  IsKeyed-append rows r h.1 (ground arith),
)

no_row :
    (k : String) (g : Option ℕ) (rows : List RunRecord)
    → select k rows ≡ none
    → rowcount (matches k g) rows ≡ 0
unfolding rowcount matches select
no_row k g [] e = refl
no_row k none (r ∷ rows) e = ground (arith, no_row k none rows)
no_row k (some n) (r ∷ rows) e = ground (arith, no_row k (some n) rows)

other_id :
    (k : String) (g : Option ℕ) (r : RunRecord) → text_eq r.id k ≡ false → matches k g r ≡ false
unfolding matches
other_id k none r e = e
other_id k (some n) r e = rw e refl

-- One row at most is counted, the one that is found.
pub rowcount-select :
    (k : String) (g : Option ℕ) (rows : List RunRecord)
    → IsKeyed rows
    → rowcount (matches k g) rows
      ≡ elim (select k rows) [ none ↦ 0 | some r ↦ if matches k g r then 1 else 0 ]
unfolding rowcount select
rowcount-select k g [] h = refl
rowcount-select k g (r ∷ rows) h = elim (Bool-cases (text_eq r.id k)) [
  | inl e ↦ rw e (
      ap (λ (n : ℕ). if matches k g r then suc n else n)
        (no_row k g rows (subst (λ j. select j rows ≡ none) ((text_eq_iff r.id k).0 e) h.0)))
  | inr e ↦ rw e (rw (other_id k g r e) (rowcount-select k g rows h.1))
]
