-- ===== src/Runs/Table.antt =====
-- What the SQL statements of api/store.py do to the table `runs`, whose key is the id.
pub mod Laws
use cobol_java_transformatio.Common.{
  ℕ, suc, String, Bool, true, ◌&&◌, Option, none, some, List, [], ◌∷◌, text_eq, ◌==◌, if◌then◌else◌,
}
use cobol_java_transformatio.Runs.Model.{RunRecord}

-- `SELECT * FROM runs WHERE id = ?`
unfoldable pub select : String → List RunRecord → Option RunRecord
select k [] = none
select k (r ∷ rows) = let rest = select k rows in if text_eq r.id k then some r else rest

-- `WHERE id = ?`, with `AND validation_generation = ?` for a generation that is given
unfoldable pub matches : String → Option ℕ → RunRecord → Bool
matches k none r = text_eq r.id k
matches k (some g) r = text_eq r.id k && r.validation_generation == g

-- `UPDATE runs SET ... WHERE ...`
unfoldable pub update :
    (RunRecord → Bool) → (RunRecord → RunRecord) → List RunRecord → List RunRecord
update p f [] = []
update p f (r ∷ rows) = (if p r then f r else r) ∷ update p f rows

-- `cursor.rowcount` of that statement
unfoldable pub rowcount : (RunRecord → Bool) → List RunRecord → ℕ
rowcount p [] = 0
rowcount p (r ∷ rows) = let rest = rowcount p rows in if p r then suc rest else rest
