-- ===== src/Comparators/Policy/Lines.antt =====
-- Lines and their order under the ordering policy.
use mathlib.Core.List.{Perm, Permᴰ}
use mathlib.Core.List.Perm
use cobol_java_transformatio.Common.{ℕ, ◌≡◌, refl, ◌∙◌, List, [], ◌∷◌, arith, Bool-cases, inl, inr}
use cobol_java_transformatio.Common.Bytes.{
  Bytes, bytes_le, bytes_le-total, bytes_le_antisymm, bytes_le_trans,
}
use cobol_java_transformatio.Comparators.Policy.{splitlines, onto_first, insert, sorted, concat}

onto_first-concat : (c : ℕ) (ls : List Bytes) → concat (onto_first c ls) ≡ c ∷ concat ls
unfolding concat
onto_first-concat c [] = refl
onto_first-concat c (l ∷ ls) = refl

-- Splitting into lines and joining them gives the content back.
pub concat-splitlines : (s : Bytes) → concat (splitlines s) ≡ s
unfolding splitlines concat
concat-splitlines [] = refl
concat-splitlines (c ∷ s) = ground (arith, concat-splitlines s, onto_first-concat c (splitlines s))

insert-Perm : (l : Bytes) (ls : List Bytes) → Perm (insert l ls) (l ∷ ls)
unfolding insert
insert-Perm l [] = Perm.refl (l ∷ [])
insert-Perm l (k ∷ ks) = elim (Bool-cases (bytes_le l k)) [
  | inl e ↦ rw e (Perm.refl (l ∷ k ∷ ks))
  | inr e ↦ rw e (Perm.trans (Perm.cons k (insert-Perm l ks)) (Perm.swap l k ks))
]

pub sorted-Perm : (ls : List Bytes) → Perm (sorted ls) ls
unfolding sorted
sorted-Perm [] = Perm.refl []
sorted-Perm (l ∷ ls) = Perm.trans (insert-Perm l (sorted ls)) (Perm.cons l (sorted-Perm ls))

-- Two lines go in in either order: where both fit in front, they are equal or ordered.
insert_comm : (l k : Bytes) (ls : List Bytes) → insert l (insert k ls) ≡ insert k (insert l ls)
unfolding insert
insert_comm l k [] = ground (arith, bytes_le-total l k, bytes_le_antisymm l k)
insert_comm l k (x ∷ ls) = ground (
  arith,
  insert_comm l k ls,
  bytes_le-total l k,
  bytes_le-total k l,
  bytes_le-total l x,
  bytes_le-total k x,
  bytes_le_antisymm l k,
  bytes_le_trans l k x,
  bytes_le_trans k l x,
  bytes_le_trans l x k,
  bytes_le_trans k x l,
)

pub sorted-Permᴰ : {ls ks : List Bytes} → Permᴰ ls ks → sorted ls ≡ sorted ks
unfolding sorted
sorted-Permᴰ Permᴰ.nil = refl
sorted-Permᴰ (Permᴰ.cons e p) = cc (e, sorted-Permᴰ p)
sorted-Permᴰ (Permᴰ.swap {a} {b} {l = l} e f) = cc (insert_comm a b (sorted l), e, f)
sorted-Permᴰ (Permᴰ.trans p q) = sorted-Permᴰ p ∙ sorted-Permᴰ q
