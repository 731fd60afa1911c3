-- ===== src/Comparators/IndexedRecords/Tree.antt =====
-- The B-tree that an image holds, as a tree: what engine/comparators/indexed_records.py promises to
-- read in key order.
pub mod Refine
use cobol_java_transformatio.Common.{
  ℕ, ◌≡◌, false, List, [], ◌∷◌, ◌++◌, Result, ok, refl, arith, ◌↔◌, append_assoc, append-nil, sym,
  ◌∙◌, ap, subst,
}
use cobol_java_transformatio.Common.Bytes.{Bytes}
use cobol_java_transformatio.Comparators.IndexedRecords.{among}
use cobol_java_transformatio.Comparators.IndexedRecords.Page.{inner, leaf, read_page}

-- Each node has its page number; a leaf has the live records of its page.
mutual
  pub data Tree : Type 0 where
    leaf_page : ℕ → List Bytes → Tree
    inner_page : ℕ → Forest → Tree

  pub data Forest : Type 0 where
    no_trees : Forest
    trees : Tree → Forest → Forest

abbrev pub root_of : Tree → ℕ
root_of (leaf_page n records) = n
root_of (inner_page n ts) = n

unfoldable pub roots : Forest → List ℕ
roots no_trees = []
roots (trees t ts) = root_of t ∷ roots ts

-- From left to right: the records, and the pages in the order of the visits.
unfoldable mutual
  pub flatten : Tree → List Bytes
  flatten (leaf_page n records) = records
  flatten (inner_page n ts) = flatten_all ts

  pub flatten_all : Forest → List Bytes
  flatten_all no_trees = []
  flatten_all (trees t ts) = flatten t ++ flatten_all ts

unfoldable mutual
  pub numbers : Tree → List ℕ
  numbers (leaf_page n records) = n ∷ []
  numbers (inner_page n ts) = n ∷ numbers_of ts

  pub numbers_of : Forest → List ℕ
  numbers_of no_trees = []
  numbers_of (trees t ts) = numbers t ++ numbers_of ts

-- The pages of the image are those of the tree.
unfoldable mutual
  pub Holds : Bytes → ℕ → Tree → Type 0
  Holds image size (leaf_page n records) = read_page image size n ≡ ok (leaf records)
  Holds image size (inner_page n ts) =
      (read_page image size n ≡ ok (inner (roots ts))) × HoldsAll image size ts

  pub HoldsAll : Bytes → ℕ → Forest → Type 0
  HoldsAll image size no_trees = Unit
  HoldsAll image size (trees t ts) = Holds image size t × HoldsAll image size ts

-- The numbers differ from one another and from those seen before.
abbrev pub Distinct : List ℕ → List ℕ → Type 0
Distinct seen [] = Unit
Distinct seen (n ∷ ns) = (among n seen ≡ false) × Distinct (seen ++ n ∷ []) ns

pub Distinct-append :
    (seen ns ms : List ℕ) → Distinct seen (ns ++ ms) ↔ (Distinct seen ns × Distinct (seen ++ ns) ms)
Distinct-append seen [] ms = rw append-nil (λ h. (tt, h), λ h. h.1)
Distinct-append seen (n ∷ ns) ms =
    let rest = Distinct-append (seen ++ n ∷ []) ns ms in
    let same : (seen ++ n ∷ []) ++ ns ≡ seen ++ n ∷ ns = append_assoc seen (n ∷ []) ns in
    (
      λ h. ((h.0, (rest.0 h.1).0), subst (λ l. Distinct l ms) same (rest.0 h.1).1),
      λ h. (h.0.0, rest.1 (h.0.1, subst (λ l. Distinct l ms) (sym same) h.1)),
    )
