-- ===== src/Storage/Move/Exact.antt =====
-- What a MOVE into a group does to the fields, against the storage of the group.
use cobol_java_transformatio.Common.{
  ℕ, ◌-◌, ◌≤◌, ◌<◌, ◌≡◌, refl, ap, sym, ◌∙◌, subst, inl, inr, true, false, not, ◌&&◌, some, List,
  [], ◌∷◌, ◌++◌, map, arith, any, ◌==◌, length, Bool-cases, Option-cases, All, Result, ok, err,
  raise_if, >>=-ok, raise_if-ok,
}
use cobol_java_transformatio.Common.Bytes.{Bytes, bytes_eq, bytes_eq_iff, take, drop}
use cobol_java_transformatio.Storage.Item.{
  upper, DataItem, Items, about, strip, is_group, is_alphanumeric, find_item,
}
use cobol_java_transformatio.Storage.Figurative.{parse_figurative_constant}
use cobol_java_transformatio.Storage.Figurative.Width.{figurative_to_width-length}
use cobol_java_transformatio.Storage.Layout.{
  GroupLeaf, GroupLayout, Problem, total, writable, fit, count, group_layout, printable,
  printable_fill, is_quoted, but_last,
}
use cobol_java_transformatio.Storage.Layout.Packed.{IsCertified, fit-length}
use cobol_java_transformatio.Storage.Layout.Names.{leaf_names, names_of}
use cobol_java_transformatio.Storage.Layout.Exact.{IsLayout, group_layout-IsLayout}
use cobol_java_transformatio.Storage.Move.{
  MoveProblem, base, is_qualified, trimmed, lift, overlap, Source, literal, variable, view, segment,
  field_of, group_view_expression, item_source, constant_source, source_of, Assignment, assignment,
  move_into_group, Fields, characters_of, source_text, run, zero_fill,
}
use cobol_java_transformatio.Storage.Move.Run.{
  Agree, IsText, leaf_names-cons, texts, run-other, run-view,
}

printable_fill-length :
    (t : Bytes) (width : ℕ) {c : Bytes} → printable_fill t width ≡ some c → length c ≡ width
unfolding printable_fill
printable_fill-length t width {c} e = elim (Option-cases (parse_figurative_constant t)) [
  | inl n ↦ absurd (ground arith)
  | inr ((kind, fill), p) ↦ elim (Bool-cases (printable kind)) [
    | inl q ↦ figurative_to_width-length kind fill width (ground arith)
    | inr q ↦ absurd (ground arith)
  ]
]

constant_source-length :
    (source : Bytes) (width : ℕ) {c : Bytes}
    → constant_source source width ≡ some c
    → length c ≡ width
unfolding constant_source
constant_source-length source width {c} e = elim (Bool-cases (is_quoted (strip source))) [
  | inl q ↦ ground (arith, fit-length width (but_last (drop 1 (strip source))))
  | inr q ↦ printable_fill-length (strip source) width (rw q at e)
]

any-count : (x : Bytes) (ys : List Bytes) → any (bytes_eq x) ys ≡ false → count x ys ≡ 0
any-count x [] e = refl
any-count x (y ∷ ys) e = ground (arith, any-count x ys, bytes_eq_iff x y, bytes_eq_iff y x)

lift-ok : {A : Type 0} (r : Result Problem A) {a : A} → lift r ≡ ok a → r ≡ ok a
lift-ok (ok a) e = ground arith
lift-ok (err p) e = cc

module _ (width : ℕ) (names : List Bytes) (g : Fields) (before : Fields)
    (same : Agree names g before) where
  apart_head :
      (l : GroupLeaf) (leaves : List GroupLeaf) (n : Bytes)
      → l.name ≡ some n
      → overlap (leaf_names (l ∷ leaves)) names ≡ false
      → (any (bytes_eq (upper n)) names ≡ false) × (overlap (leaf_names leaves) names ≡ false)
  unfolding overlap
  apart_head l leaves n e o = ground arith

  -- A group none of whose fields is among the names.
  view-stable :
      (all_names : List Bytes) (leaves : List GroupLeaf)
      → All (IsCertified all_names) leaves
      → overlap (leaf_names leaves) names ≡ false
      → characters_of (map segment leaves) g ≡ characters_of (map segment leaves) before
  unfolding characters_of overlap segment
  view-stable all_names [] h o = refl
  view-stable all_names (l ∷ leaves) h o = elim (Option-cases (l.name)) [
    | inl e ↦
        let (c, is_constant, len) = h.0.filler e in
        rw is_constant (ap (λ (t : Bytes). c ++ t) (view-stable all_names leaves h.1 (rw e at o)))
    | inr (n, e) ↦
        let apart = apart_head l leaves n e o in
        let own = same (upper n) (any-count (upper n) names apart.0) in
        let rest = view-stable all_names leaves h.1 apart.1 in
        rw ((h.0.field n e).1) (
          rw e (elim (Bool-cases (l.numeric)) [
            | inl q ↦
                rw q (rw own (ap (λ (t : Bytes). zero_fill l.width (before (upper n)) ++ t) rest))
            | inr q ↦ rw q (rw own (ap (λ (t : Bytes). fit l.width (before (upper n)) ++ t) rest))
          ]))
  ]

  variable-stable :
      (k : Bytes)
      → any (bytes_eq k) names ≡ false
      → source_text width (variable k) g ≡ source_text width (variable k) before
  unfolding source_text
  variable-stable k e = ap (fit width) (same k (any-count k names e))

  item_source-stable :
      (program : Items) (source target : Bytes) (layout : GroupLayout) (i : DataItem)
      {from : Source}
      → leaf_names layout.leaves ≡ names
      → item_source program source target layout i ≡ ok from
      → (source_text width from g ≡ source_text width from before)
        × (length (source_text width from before) ≡ width)
  unfolding item_source source_text
  item_source-stable program source target layout i {from} n e = elim (Bool-cases (is_group i)) [
    | inl q ↦
        let (l, a, e1) = >>=-ok (lift (group_layout program (base source))) _ (rw q at e) in
        let (u, b, e2) =
          >>=-ok (raise_if (overlap (leaf_names l.leaves) (leaf_names layout.leaves)) _) _ e1 in
        let sound =
          group_layout-IsLayout program (base source)
            (lift-ok (group_layout program (base source)) a) in
        let is_view : from ≡ view (group_view_expression l) = ground arith in
        let apart : overlap (leaf_names l.leaves) names ≡ false =
          subst (λ (ns : List Bytes). overlap (leaf_names l.leaves) ns ≡ false) n
            (raise_if-ok _ _ b) in
        rw is_view (
          ap (fit width) (view-stable (names_of program) l.leaves sound.certified apart),
          fit-length width (characters_of (group_view_expression l) before),
        )
    | inr q ↦
        elim (Bool-cases (
          is_alphanumeric (about i)
          && not ((about i).pic_length == 0)
          && not (any (bytes_eq (base source)) (leaf_names layout.leaves)))) [
            | inl r ↦
                let is_variable : from ≡ variable (base source) = ground arith in
                let apart : any (bytes_eq (base source)) (leaf_names layout.leaves) ≡ false =
                  ground arith in
                rw is_variable (
                  variable-stable (base source) (
                      subst (λ (ns : List Bytes). any (bytes_eq (base source)) ns ≡ false) n apart),
                  fit-length width (before (base source)),
                )
            | inr r ↦ absurd (ground arith)
          ]
  ]

  source_of-stable :
      (program : Items) (source target : Bytes) (layout : GroupLayout) {from : Source}
      → leaf_names layout.leaves ≡ names
      → total layout.leaves ≡ width
      → source_of program source target layout ≡ ok from
      → (source_text width from g ≡ source_text width from before)
        × (length (source_text width from before) ≡ width)
  unfolding source_of source_text
  source_of-stable program source target layout {from} n w e =
      elim (Option-cases (constant_source source (total layout.leaves))) [
        | inr (c, q) ↦
            let is_literal : from ≡ literal c = ground arith in
            rw is_literal (refl, constant_source-length source (total layout.leaves) q ∙ w)
        | inl q ↦ elim (Bool-cases (is_qualified (trimmed source))) [
          | inl r ↦ absurd (ground arith)
          | inr r ↦ elim (Option-cases (find_item program (base source))) [
            | inl f ↦ absurd (ground arith)
            | inr (i, f) ↦
                item_source-stable program source target layout i {from = from} n (ground arith)
          ]
        ]
      ]

counted_leaves :
    (leaves : List GroupLeaf)
    → All IsText leaves
    → (names : List Bytes) → ((k : Bytes) → count k (leaf_names leaves) ≤ count k names)
    → All (λ l. 0 < count (field_of l) names) leaves
counted_leaves [] t names h = tt
counted_leaves (l ∷ leaves) t names h = (
  ground (
    arith,
    h (field_of l),
    ap (count (field_of l)) (leaf_names-cons l leaves t.0),
    bytes_eq_iff (field_of l) (field_of l),
  ),
  counted_leaves leaves t.1 names
      (λ k. ground (arith, h k, ap (count k) (leaf_names-cons l leaves t.0))),
)

take_all : (s : Bytes) → take (length s) s ≡ s
take_all [] = refl
take_all (c ∷ s) = ap (◌∷◌ c) (take_all s)

shortened : (w l : ℕ) → l ≡ w → w - 0 ≡ l
shortened w l e = omega (arith, e)

answers :
    (n m : ℕ) (xs ys : List Assignment)
    → ◌≡◌ {A = Result MoveProblem (ℕ × List Assignment)} (ok (n, xs)) (ok (m, ys))
    → (n ≡ m) × (xs ≡ ys)
answers n m xs ys e = (cc, cc)

moved :
    (program : Items) (source target : Bytes) (layout : GroupLayout) (from : Source)
    → IsLayout program layout
    → writable layout.leaves ≡ true
    → source_of program source target layout ≡ ok from
    → (fields : Fields)
    → (characters_of
          (group_view_expression layout)
          (run (total layout.leaves) (map (assignment from) layout.leaves) fields)
        ≡ source_text (total layout.leaves) from fields)
      × ((k : Bytes)
          → count k (leaf_names layout.leaves) ≡ 0
          → run (total layout.leaves) (map (assignment from) layout.leaves) fields k ≡ fields k)
moved program source target layout from sound w chosen fields =
    let width = total layout.leaves in
    let names = leaf_names layout.leaves in
    let whole : Bytes = source_text width from fields in
    let is_text = texts (names_of program) layout.leaves sound.certified w in
    let long =
      (source_of-stable width names fields fields (λ k z. refl) program source target layout
        {from = from} refl refl chosen).1 in
    let seen =
      run-view width from names fields whole
        (λ g a.
          (source_of-stable width names g fields a program source target layout {from = from} refl
            refl chosen).0)
        layout.leaves 0 width fields is_text sound.distinct sound.packed (omega (arith, long))
        (counted_leaves layout.leaves is_text names (λ k. omega arith)) (λ k z. refl) in
    (
      seen ∙ ap (λ (n : ℕ). take n whole) (shortened width (length whole) long) ∙ take_all whole,
      λ k z. run-other width from layout.leaves fields k is_text z,
    )

-- A MOVE that is lowered as a move into a group does what the group's storage does: read as one
-- text afterwards, the group holds the source's characters from before the move, padded or cut to the
-- group's length, although the assignments run one after another and each reads the source again.
-- Every other field keeps its characters.
pub move_into_group-view :
    (program : Items) (source target : Bytes) {width : ℕ} {assignments : List Assignment}
    → move_into_group program source target ≡ ok (width, assignments)
    → (fields : Fields)
    → (layout : GroupLayout) × (from : Source) × (group_layout program (base target) ≡ ok layout)
      × (source_of program source target layout ≡ ok from)
      × (characters_of (group_view_expression layout) (run width assignments fields)
          ≡ source_text width from fields)
      × ((k : Bytes)
          → count k (leaf_names layout.leaves) ≡ 0
          → run width assignments fields k ≡ fields k)
unfolding move_into_group
move_into_group-view program source target {width} {assignments} e fields =
    let (u1, a1, e1) = >>=-ok (raise_if (is_qualified (trimmed target)) _) _ e in
    let (layout, a2, e2) = >>=-ok (lift (group_layout program (base target))) _ e1 in
    let (u3, a3, e3) = >>=-ok (raise_if (not (writable layout.leaves)) _) _ e2 in
    let (from, a4, e4) = >>=-ok (source_of program source target layout) _ e3 in
    let found = lift-ok (group_layout program (base target)) a2 in
    let done =
      moved program source target layout from (group_layout-IsLayout program (base target) found)
        (ground (arith, raise_if-ok _ _ a3)) a4 fields in
    let (w, l) = answers _ _ _ _ e4 in
    (layout, from, found, a4, rw (sym w) (rw (sym l) done.0), rw (sym w) (rw (sym l) done.1))
