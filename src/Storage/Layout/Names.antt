-- ===== src/Storage/Layout/Names.antt =====
-- The names of the leaves of a layout are those of different fields.
use cobol_java_transformatio.Common.{
  ◌+◌, ◌≤◌, ◌≡◌, refl, ap, sym, subst, inl, inr, ◌⊎◌, none, some, List, [], ◌∷◌, ◌++◌, map, arith,
  ◌==◌, Bool-cases, Result, ok, raise_if, >>=-ok, Any,
}
use cobol_java_transformatio.Common.Bytes.{Bytes, bytes_eq, bytes_eq_iff, codes}
use cobol_java_transformatio.Storage.Item.{
  Description, DataItem, item, Items, no_items, items, children_of, upper, item_and_below,
  iter_data_items, is_group, upper_name,
}
use cobol_java_transformatio.Storage.Layout.{
  GroupLeaf, Problem, Layouting, count, visit_leaf, check_clauses, visit, visit_all,
}
use cobol_java_transformatio.Storage.Layout.Packed.{visit_named-ok, visit_filler-ok}

abbrev pub leaf_names : List GroupLeaf → List Bytes
leaf_names [] = []
leaf_names (l ∷ leaves) = elim (l.name) [
  | none ↦ leaf_names leaves
  | some n ↦ upper n ∷ leaf_names leaves
]

pub count-append : (k : Bytes) (xs ys : List Bytes) → count k (xs ++ ys) ≡ count k xs + count k ys
count-append k [] ys = omega arith
count-append k (x ∷ xs) ys = ground (arith, count-append k xs ys)

leaf_names-append :
    (leaves : List GroupLeaf) (l : GroupLeaf)
    → leaf_names (leaves ++ l ∷ []) ≡ leaf_names leaves ++ leaf_names (l ∷ [])
leaf_names-append [] l = refl
leaf_names-append (x ∷ leaves) l = ground (arith, leaf_names-append leaves l)

names-append :
    (xs ys : List DataItem) → map upper_name (xs ++ ys) ≡ map upper_name xs ++ map upper_name ys
names-append [] ys = refl
names-append (x ∷ xs) ys = ap (◌∷◌ (upper_name x)) (names-append xs ys)

abbrev pub names_of : Items → List Bytes
names_of is = map upper_name (iter_data_items is)

stored_same :
    (l : Layouting) {l' : Layouting} → ◌≡◌ {A = Result Problem Layouting} (ok l) (ok l') → l' ≡ l
stored_same l e = ground arith

Any-append : {A : Type 0} (P : A → Type 0) (xs ys : List A) → Any P (xs ++ ys) → Any P xs ⊎ Any P ys
Any-append P [] ys m = inr m
Any-append P (x ∷ xs) ys (inl h) = inl (inl h)
Any-append P (x ∷ xs) ys (inr m) = elim (Any-append P xs ys m) [
  | inl h ↦ inl (inr h)
  | inr h ↦ inr h
]

module _ (names : List Bytes) (redefined : List Bytes) (k : Bytes) where
  visit_leaf-count :
      (d : Description) (l : Layouting) {l' : Layouting}
      → visit_leaf names d l ≡ ok l'
      → count k (leaf_names l'.leaves) ≤ count k (leaf_names l.leaves) + count k (upper d.name ∷ [])
  unfolding visit_leaf
  visit_leaf-count d l {l'} e =
      let (u, a, e1) = >>=-ok (raise_if (d.pic_length == 0) _) _ e in
      elim (Bool-cases (bytes_eq (upper d.name) (codes "FILLER"))) [
        | inl f ↦
            let (c, h, e2) = visit_filler-ok names d l (rw f at e1) in
            rw e2 (
              rw (leaf_names-append l.leaves _)
                (rw (count-append k (leaf_names l.leaves) []) (omega arith)))
        | inr f ↦
            let (unique, (b, small, e2)) = visit_named-ok names d l (rw f at e1) in
            rw e2 (
              rw (leaf_names-append l.leaves _)
                (rw (count-append k (leaf_names l.leaves) (upper d.name ∷ [])) (omega arith)))
      ]

  mutual
    unfolding visit visit_all item_and_below iter_data_items upper_name

    pub visit-count :
        (i : DataItem) (l : Layouting) {l' : Layouting}
        → visit names redefined i l ≡ ok l'
        → count k (leaf_names l'.leaves)
          ≤ count k (leaf_names l.leaves) + count k (map upper_name (item_and_below i))
    visit-count (item d children) l {l'} e =
        let split =
          count-append k (upper d.name ∷ []) (map upper_name (iter_data_items children)) in
        elim (Bool-cases (d.level == 88)) [
          | inl condition ↦ rw (stored_same l (rw condition at e)) (omega arith)
          | inr stored ↦
              let (u, a, e1) = >>=-ok (check_clauses redefined d) _ (rw stored at e) in
              elim (Bool-cases (is_group (item d children))) [
                | inl g ↦ omega (arith, split, visit_all-count children l (rw g at e1))
                | inr g ↦ omega (arith, split, visit_leaf-count d l (rw g at e1))
              ]
        ]

    pub visit_all-count :
        (is : Items) (l : Layouting) {l' : Layouting}
        → visit_all names redefined is l ≡ ok l'
        → count k (leaf_names l'.leaves)
          ≤ count k (leaf_names l.leaves) + count k (map upper_name (iter_data_items is))
    visit_all-count no_items l {l'} e = rw (stored_same l e) (omega arith)
    visit_all-count (items i rest) l {l'} e =
        let (m, a, e1) = >>=-ok (visit names redefined i l) _ e in
        rw (names-append (item_and_below i) (iter_data_items rest)) (
          rw
            (count-append k (map upper_name (item_and_below i))
              (map upper_name (iter_data_items rest)))
            (omega (arith, visit-count i l a, visit_all-count rest m e1)))

-- The names below an item are among those of the items it stands in.
below-count-le :
    (k : Bytes) (d : Description) (children : Items)
    → count k (names_of children) ≤ count k (map upper_name (item_and_below (item d children)))
unfolding item_and_below
below-count-le k d children = omega (
  arith,
  count-append k (upper_name (item d children) ∷ []) (map upper_name (iter_data_items children)),
)

mutual
  unfolding item_and_below iter_data_items

  pub item-count-le :
      (k : Bytes) (i x : DataItem)
      → Any (λ y. x ≡ y) (item_and_below i)
      → count k (names_of (children_of x)) ≤ count k (map upper_name (item_and_below i))
  item-count-le k (item d children) x (inl e) =
      subst
        (λ (y : DataItem).
          count k (names_of (children_of y))
          ≤ count k (map upper_name (item_and_below (item d children))))
        (sym e) (below-count-le k d children)
  item-count-le k (item d children) x (inr m) =
      omega (arith, below-count-le k d children, items-count-le k children x m)

  pub items-count-le :
      (k : Bytes) (is : Items) (x : DataItem)
      → Any (λ y. x ≡ y) (iter_data_items is)
      → count k (names_of (children_of x)) ≤ count k (map upper_name (iter_data_items is))
  items-count-le k no_items x m = absurd m
  items-count-le k (items i rest) x m =
      rw (names-append (item_and_below i) (iter_data_items rest)) (
        rw
          (count-append k (map upper_name (item_and_below i))
            (map upper_name (iter_data_items rest)))
          (elim (Any-append (λ y. x ≡ y) (item_and_below i) (iter_data_items rest) m) [
            | inl h ↦ omega (arith, item-count-le k i x h)
            | inr h ↦ omega (arith, items-count-le k rest x h)
          ]))

-- No name stands twice.
abbrev pub AreDistinct : List Bytes → Type 0
AreDistinct [] = Unit
AreDistinct (x ∷ xs) = (count x xs ≡ 0) × AreDistinct xs

-- Names none of which is counted twice.
pub distinct_of_count :
    (xs : List Bytes) → ((k : Bytes) → Any (λ x. k ≡ x) xs → count k xs ≤ 1) → AreDistinct xs
distinct_of_count [] h = tt
distinct_of_count (x ∷ xs) h = (
  ground (arith, h x (inl refl), bytes_eq_iff x x),
  distinct_of_count xs (λ k m. ground (arith, h k (inr m))),
)
