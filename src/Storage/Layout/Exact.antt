-- ===== src/Storage/Layout/Exact.antt =====
-- What every layout that `group_layout` of engine/transformation/group_storage.py gives has.
use cobol_java_transformatio.Common.{
  ℕ, ◌+◌, ◌≡◌, ◌≢◌, refl, subst, inl, inr, Bool, some, List, [], ◌∷◌, arith, filter, is_empty,
  Bool-cases, Option-cases, ok, raise_if, >>=-ok, raise_if-ok, All, Any, any, Any-filter, Any-map,
  ◌||◌,
}
use cobol_java_transformatio.Common.Bytes.{Bytes, bytes_eq}
use cobol_java_transformatio.Storage.Item.{
  DataItem, Items, about, children_of, only, iter_data_items, is_group, upper_name, find_item,
  is_set, is_set_number,
}
use cobol_java_transformatio.Storage.Layout.{
  GroupLeaf, GroupLayout, Layouting, count, visit_all, layout_of, group_layout, total,
  redefined_names,
}
use cobol_java_transformatio.Storage.Layout.Packed.{Packed, IsCertified, visit_all-IsSound}
use cobol_java_transformatio.Storage.Layout.Names.{
  leaf_names, names_of, visit_all-count, items-count-le, AreDistinct, distinct_of_count,
}

pub record IsLayout (program : Items) (layout : GroupLayout) : Type 0 where
  pub packed : Packed 0 layout.leaves (total layout.leaves)
  pub certified : All (IsCertified (names_of program)) layout.leaves
  pub distinct : AreDistinct (leaf_names layout.leaves)
  pub inhabited : layout.leaves ≢ []

Packed-total :
    (start : ℕ) (leaves : List GroupLeaf) (end : ℕ)
    → Packed start leaves end
    → end ≡ start + total leaves
unfolding total
Packed-total start [] end h = omega (arith, h)
Packed-total start (l ∷ leaves) end h = omega (arith, Packed-total (start + l.width) leaves end h.2)

certified_once :
    (names : List Bytes) (leaves : List GroupLeaf)
    → All (IsCertified names) leaves
    → (k : Bytes) → Any (λ x. k ≡ x) (leaf_names leaves)
    → count k names ≡ 1
certified_once names [] h k m = absurd m
certified_once names (l ∷ leaves) h k m = elim (Option-cases (l.name)) [
  | inl e ↦ certified_once names leaves h.1 k (rw e at m)
  | inr (n, e) ↦ elim (rw e at m) [
    | inl same ↦ rw same ((h.0.field n e).0)
    | inr rest ↦ certified_once names leaves h.1 k rest
  ]
]

only_member : {A : Type 0} (ys : List A) {x : A} → only ys ≡ some x → Any (λ y. x ≡ y) ys
only_member [] e = cc
only_member (y ∷ []) e = inl (ground arith)
only_member (y ∷ z ∷ ys) e = cc

only-filter :
    {A : Type 0} (p : A → Bool) (xs : List A) {x : A}
    → only (filter p xs) ≡ some x
    → Any (λ y. x ≡ y) xs
only-filter p xs {x} e =
    Any-map (λ y h. h.1) xs ((Any-filter (λ y. x ≡ y) p xs).0 (only_member (filter p xs) e))

layout_of-IsLayout :
    (program : Items) (group : DataItem) {layout : GroupLayout}
    → Any (λ y. group ≡ y) (iter_data_items program)
    → layout_of program group ≡ ok layout
    → IsLayout program layout
unfolding layout_of
layout_of-IsLayout program group {layout} within e =
    let names = names_of program in
    let redefined = redefined_names (iter_data_items program) in
    let (u1, a1, e1) =
      >>=-ok
        (raise_if (is_set (about group).redefines || any (bytes_eq (upper_name group)) redefined) _)
        _ e in
    let (u2, a2, e2) =
      >>=-ok (raise_if (is_set_number (about group).occurs || is_set (about group).usage) _) _ e1 in
    let start : Layouting = record { leaves = []; offset = 0 } in
    let (l, a3, e3) = >>=-ok (visit_all names redefined (children_of group) start) _ e2 in
    let (u4, a4, e4) = >>=-ok (raise_if (is_empty l.leaves) _) _ e3 in
    let sound =
      visit_all-IsSound names redefined (children_of group) start a3
        record { packed = refl; certified = tt } in
    let same : layout.leaves ≡ l.leaves = ground arith in
    record {
      packed = rw same (
          subst (λ n. Packed 0 l.leaves n)
            (omega (arith, Packed-total 0 l.leaves l.offset sound.packed)) sound.packed);
      certified = rw same sound.certified;
      distinct = rw same (
          distinct_of_count (leaf_names l.leaves) (λ k m. omega (
            arith,
            visit_all-count names redefined k (children_of group) start a3,
            items-count-le k program group within,
            certified_once names l.leaves sound.certified k m,
          )));
      inhabited = λ h. absurd (ground (arith, raise_if-ok _ _ a4));
    }

pub group_layout-IsLayout :
    (program : Items) (name : Bytes) {layout : GroupLayout}
    → group_layout program name ≡ ok layout
    → IsLayout program layout
unfolding group_layout find_item
group_layout-IsLayout program name {layout} e = elim (Option-cases (find_item program name)) [
  | inl n ↦ absurd (ground arith)
  | inr (group, found) ↦ elim (Bool-cases (is_group group)) [
    | inr n ↦ absurd (ground arith)
    | inl g ↦
        layout_of-IsLayout program group (only-filter _ (iter_data_items program) found)
          (ground arith)
  ]
]
