-- ===== src/Comparators/IndexedRecords/Tree/Refine.antt =====
-- The walk over an image's pages against the tree that the image holds.
use cobol_java_transformatio.Common.{
  ℕ, zero, suc, ◌/◌, ◌<◌, ◌≡◌, refl, ◌↔◌, false, List, [], ◌∷◌, ◌++◌, Result, ok, arith,
  append_assoc, append-nil, sym, ◌∙◌, ap, subst, length, >>=-ok, >>=-ok_intro,
}
use cobol_java_transformatio.Common.Bytes.{Bytes}
use cobol_java_transformatio.Comparators.IndexedRecords.{
  Failure, Walk, among, page, certified_page_size, u32, visit, walk, bdb_btree_records,
}
use cobol_java_transformatio.Comparators.IndexedRecords.Page.{
  Page, inner, leaf, read_page, run, Finish, entered, visit-ok, visit-ok_intro,
}
use cobol_java_transformatio.Comparators.IndexedRecords.Termination.{
  unseen, unseen-append, unseen-le, page-lt, walk-Ends,
}
use cobol_java_transformatio.Comparators.IndexedRecords.Tree.{
  Tree, Forest, leaf_page, inner_page, no_trees, trees, root_of, roots, flatten, flatten_all,
  numbers, numbers_of, Holds, HoldsAll, Distinct, Distinct-append,
}

-- What a walk over a tree, and over trees, adds.
abbrev after : Walk → List ℕ → List Bytes → Walk
after w ns rs = record { seen = w.seen ++ ns; records = w.records ++ rs }

after_twice :
    (w : Walk) (ns ms : List ℕ) (rs qs : List Bytes)
    → after (after w ns rs) ms qs ≡ after w (ns ++ ms) (rs ++ qs)
after_twice w ns ms rs qs = ground (arith, append_assoc w.seen ns ms, append_assoc w.records rs qs)

after-entered :
    (n : ℕ) (w : Walk) (ns : List ℕ) (rs : List Bytes)
    → after (entered n w) ns rs ≡ after w (n ∷ ns) rs
after-entered n w ns rs = ground (arith, append_assoc w.seen (n ∷ []) ns)

module _ (image : Bytes) (size : ℕ) where
  record Grown (n : ℕ) (w : Walk) (w' : Walk) : Type 0 where
    tree : Tree
    rooted : root_of tree ≡ n
    holds : Holds image size tree
    distinct : Distinct w.seen (numbers tree)
    grown : w' ≡ after w (numbers tree) (flatten tree)

  record GrownAll (ns : List ℕ) (w : Walk) (w' : Walk) : Type 0 where
    forest : Forest
    rooted : roots forest ≡ ns
    holds : HoldsAll image size forest
    distinct : Distinct w.seen (numbers_of forest)
    grown : w' ≡ after w (numbers_of forest) (flatten_all forest)

  abbrev IsSound : (ℕ → Walk → Result Failure Walk) → Type 0
  IsSound go = (n : ℕ) (w : Walk) (w' : Walk) → go n w ≡ ok w' → Grown n w w'

  run_sound :
      (go : ℕ → Walk → Result Failure Walk)
      → IsSound go
      → (ns : List ℕ) (w : Walk) (w' : Walk) → run go ns w ≡ ok w'
      → GrownAll ns w w'
  unfolding run roots HoldsAll numbers_of flatten_all
  run_sound go sound [] w w' e = record {
    forest = no_trees;
    rooted = refl;
    holds = tt;
    distinct = tt;
    grown = ground (arith, append-nil w.seen, append-nil w.records);
  }
  run_sound go sound (n ∷ ns) w w' e =
      let (w1, q, e1) = >>=-ok (go n w) _ e in
      let first = sound n w w1 q in
      let rest = run_sound go sound ns w1 w' e1 in
      record {
        forest = trees first.tree rest.forest;
        rooted = ground (arith, first.rooted, rest.rooted);
        holds = (first.holds, rest.holds);
        distinct = (Distinct-append w.seen (numbers first.tree) (numbers_of rest.forest)).1 (
          first.distinct,
          subst (λ (x : Walk). Distinct x.seen (numbers_of rest.forest)) first.grown rest.distinct,
        );
        grown =
            rest.grown
            ∙ ap (λ (x : Walk). after x (numbers_of rest.forest) (flatten_all rest.forest))
                first.grown
            ∙ after_twice w (numbers first.tree) (numbers_of rest.forest) (flatten first.tree)
                (flatten_all rest.forest);
      }

  finish :
      (go : ℕ → Walk → Result Failure Walk)
      → IsSound go
      → (n : ℕ) (w : Walk) (w' : Walk) (p : Page) → among n w.seen ≡ false
      → read_page image size n ≡ ok p
      → Finish go p (entered n w) w'
      → Grown n w w'
  unfolding Holds numbers flatten
  finish go sound n w w' (leaf found) new read done = record {
    tree = leaf_page n found;
    rooted = refl;
    holds = read;
    distinct = (new, tt);
    grown = done;
  }
  finish go sound n w w' (inner children) new read done =
      let rest = run_sound go sound children (entered n w) w' done in
      record {
        tree = inner_page n rest.forest;
        rooted = refl;
        holds = (
          subst (λ cs. read_page image size n ≡ ok (inner cs)) (sym rest.rooted) read,
          rest.holds,
        );
        distinct = (new, rest.distinct);
        grown = ground (arith, rest.grown, append_assoc w.seen (n ∷ []) (numbers_of rest.forest));
      }

  visit-IsSound : (go : ℕ → Walk → Result Failure Walk) → IsSound go → IsSound (visit go image size)
  visit-IsSound go sound n w w' e =
      let (new, (p, read, done)) = visit-ok go image size n w e in
      finish go sound n w w' p new read done

  walk-IsSound : (fuel : ℕ) → IsSound (walk image size fuel)
  unfolding walk
  walk-IsSound zero = λ n w w' e. absurd (ground arith)
  walk-IsSound (suc fuel) = visit-IsSound (walk image size fuel) (walk-IsSound fuel)

  read_page-lt : (n : ℕ) {p : Page} → read_page image size n ≡ ok p → n < length image / size
  unfolding read_page
  read_page-lt n e = let (content, q, e1) = >>=-ok (page image size n) _ e in page-lt image size n q

  abbrev left : Walk → ℕ
  left w = unseen (length image / size) w.seen

  enter :
      (n : ℕ) (w : Walk) {p : Page} (fuel : ℕ)
      → read_page image size n ≡ ok p
      → among n w.seen ≡ false
      → left w < suc fuel
      → left (entered n w) < fuel
  enter n w fuel read new h =
      omega (arith, unseen-append (length image / size) w.seen n (read_page-lt n read) new)

  mutual
    unfolding walk run Holds HoldsAll numbers numbers_of flatten flatten_all roots

    walk_complete :
        (t : Tree) (fuel : ℕ) (w : Walk)
        → Holds image size t
        → Distinct w.seen (numbers t)
        → left w < fuel
        → walk image size fuel (root_of t) w ≡ ok (after w (numbers t) (flatten t))
    walk_complete (leaf_page n found) zero w h d l = absurd (omega arith)
    walk_complete (leaf_page n found) (suc fuel) w h d l =
        visit-ok_intro (walk image size fuel) image size n w {p = leaf found} d.0 h refl
    walk_complete (inner_page n ts) zero w h d l = absurd (omega arith)
    walk_complete (inner_page n ts) (suc fuel) w h d l =
        visit-ok_intro (walk image size fuel) image size n w {p = inner (roots ts)} d.0 h.0 (
          run_complete ts fuel (entered n w) h.1 d.1 (enter n w fuel h.0 d.0 l)
          ∙ ap (λ (x : Walk). ok x) (after-entered n w (numbers_of ts) (flatten_all ts)))

    run_complete :
        (ts : Forest) (fuel : ℕ) (w : Walk)
        → HoldsAll image size ts
        → Distinct w.seen (numbers_of ts)
        → left w < fuel
        → run (walk image size fuel) (roots ts) w ≡ ok (after w (numbers_of ts) (flatten_all ts))
    run_complete no_trees fuel w h d l =
        ap (λ (x : Walk). ok x) (ground (arith, append-nil w.seen, append-nil w.records))
    run_complete (trees t ts) fuel w h d l =
        let (d1, d2) = (Distinct-append w.seen (numbers t) (numbers_of ts)).0 d in
        let first = walk_complete t fuel w h.0 d1 l in
        let more = (walk-Ends image size fuel).sees (root_of t) w first in
        >>=-ok_intro (walk image size fuel (root_of t) w) _ first (
          run_complete ts fuel (after w (numbers t) (flatten t)) h.1 d2 (omega (arith, more))
          ∙ ap (λ (x : Walk). ok x)
              (after_twice w (numbers t) (numbers_of ts) (flatten t) (flatten_all ts)))

-- The image holds this tree: its metadata page is certified, names the root, every node is a page
-- that can be read, and no page has two places in the tree.
pub record IsImageOf (image : Bytes) (t : Tree) : Type 0 where
  pub size : ℕ
  pub certified : certified_page_size image ≡ ok size
  pub rooted : u32 image 88 ≡ ok (root_of t)
  pub holds : Holds image size t
  pub distinct : Distinct [] (numbers t)

-- Reading an image succeeds exactly where the image holds a B-tree, and the answer is then the
-- records of the tree's leaves from left to right, each of them once.
pub bdb_btree_records-flatten :
    (image : Bytes) (rs : List Bytes)
    → (bdb_btree_records image ≡ ok rs) ↔ ((t : Tree) × IsImageOf image t × (rs ≡ flatten t))
unfolding bdb_btree_records
bdb_btree_records-flatten image rs = (
  λ e.
      let (size, a, e1) = >>=-ok (certified_page_size image) _ e in
      let (root, b, e2) = >>=-ok (u32 image 88) _ e1 in
      let (w, c, e3) =
        >>=-ok (walk image size (suc (length image / size)) root record { seen = []; records = [] })
          _ e2 in
      let g = walk-IsSound image size (suc (length image / size)) root _ w c in
      (
        g.tree,
        record {
          size = size;
          certified = a;
          rooted = b ∙ ap (λ (n : ℕ). ok n) (sym g.rooted);
          holds = g.holds;
          distinct = g.distinct;
        },
        ground (arith, g.grown),
      ),
  λ (t, i, e). >>=-ok_intro (certified_page_size image) _ i.certified (
      >>=-ok_intro (u32 image 88) _ i.rooted (
        >>=-ok_intro
          (walk image i.size (suc (length image / i.size)) (root_of t)
            record { seen = []; records = [] })
          _
          (walk_complete image i.size t (suc (length image / i.size))
            record { seen = []; records = [] } i.holds i.distinct
            (omega (arith, unseen-le (length image / i.size) [])))
          (ap (λ (l : List Bytes). ok l) (sym e)))),
)
