-- ===== src/Storage/Move/Run.antt =====
-- The assignments that a MOVE into a group becomes, run one after another.
use cobol_java_transformatio.Common.{
  ℕ, zero, suc, ◌+◌, ◌-◌, ◌≤◌, ◌<◌, ◌≡◌, refl, ap, sym, ◌∙◌, subst, inl, inr, true, false, none,
  some, List, [], ◌∷◌, ◌++◌, map, arith, length, Bool-cases, Option-cases, All,
}
use cobol_java_transformatio.Common.Bytes.{
  Bytes, bytes_eq, bytes_eq_iff, take, drop, drop-drop, length-drop,
}
use cobol_java_transformatio.Storage.Figurative.Width.{length-take}
use cobol_java_transformatio.Storage.Layout.{GroupLeaf, writable, is_named, fit, count}
use cobol_java_transformatio.Storage.Layout.Packed.{Packed, IsCertified}
use cobol_java_transformatio.Storage.Layout.Names.{leaf_names, AreDistinct}
use cobol_java_transformatio.Storage.Move.{
  text, Source, segment, field_of, assignment, Fields, store, characters_of, source_text, run,
}

-- The same outside some fields.
abbrev pub Agree : List Bytes → Fields → Fields → Type 0
Agree names f g = (k : Bytes) → count k names ≡ 0 → f k ≡ g k

-- A leaf that is a text field of its own.
pub record IsText (l : GroupLeaf) : Type 0 where
  pub named : (n : Bytes) × (l.name ≡ some n)
  pub not_numeric : l.numeric ≡ false
  pub no_constant : l.constant ≡ none

writable_head :
    (l : GroupLeaf) (leaves : List GroupLeaf)
    → writable (l ∷ leaves) ≡ true
    → (is_named l ≡ true) × (l.numeric ≡ false) × (writable leaves ≡ true)
unfolding writable
writable_head l leaves h = ground arith

IsText-of :
    (names : List Bytes) (l : GroupLeaf)
    → IsCertified names l
    → is_named l ≡ true
    → l.numeric ≡ false
    → IsText l
IsText-of names l c a b = elim (Option-cases (l.name)) [
  | inl e ↦ absurd (ground arith)
  | inr (n, e) ↦ record { named = (n, e); not_numeric = b; no_constant = (c.field n e).1 }
]

pub texts :
    (names : List Bytes) (leaves : List GroupLeaf)
    → All (IsCertified names) leaves
    → writable leaves ≡ true
    → All IsText leaves
texts names [] h w = tt
texts names (l ∷ leaves) h w =
    let (a, b, c) = writable_head l leaves w in
    (IsText-of names l h.0 a b, texts names leaves h.1 c)

pub leaf_names-cons :
    (l : GroupLeaf) (leaves : List GroupLeaf)
    → IsText l
    → leaf_names (l ∷ leaves) ≡ field_of l ∷ leaf_names leaves
leaf_names-cons l leaves t = ground (arith, t.named.1)

pub fit_exact : (s : Bytes) → fit (length s) s ≡ s
unfolding fit
fit_exact [] = refl
fit_exact (c ∷ s) = ap (◌∷◌ c) (fit_exact s)

take_nil : (n : ℕ) → take n (let e : Bytes = [] in e) ≡ []
take_nil zero = refl
take_nil (suc n) = refl

Packed-le : (start : ℕ) (leaves : List GroupLeaf) (end : ℕ) → Packed start leaves end → start ≤ end
Packed-le start [] end h = omega (arith, h)
Packed-le start (l ∷ leaves) end h = omega (arith, Packed-le (start + l.width) leaves end h.2)

take_split : (n m : ℕ) (s : Bytes) → take n s ++ take m (drop n s) ≡ take (n + m) s
take_split zero m s = let e : m ≡ 0 + m = omega arith in ap (λ (k : ℕ). take k s) e
take_split (suc n) m [] = take_nil m ∙ sym (take_nil (suc n + m))
take_split (suc n) m (c ∷ s) =
    let e : suc (n + m) ≡ suc n + m = omega arith in
    ap (◌∷◌ c) (take_split n m s) ∙ ap (λ (k : ℕ). take k (c ∷ s)) e

segment_text : (l : GroupLeaf) → IsText l → segment l ≡ text l.width (field_of l)
unfolding segment
segment_text l t = ground (arith, t.no_constant, t.not_numeric)

slice-length : (start n : ℕ) (s : Bytes) → start + n ≤ length s → length (take n (drop start s)) ≡ n
slice-length start n s h = length-take n (drop start s) (omega (arith, length-drop start s))

fit_slice :
    (start n : ℕ) (s : Bytes)
    → start + n ≤ length s
    → fit n (take n (drop start s)) ≡ take n (drop start s)
fit_slice start n s h =
    let e = slice-length start n s h in
    ap (λ (k : ℕ). fit k (take n (drop start s))) (sym e) ∙ fit_exact (take n (drop start s))

stored_there : (k v : Bytes) (fields : Fields) → store k v fields k ≡ v
unfolding store
stored_there k v fields = ground (arith, bytes_eq_iff k k)

joined :
    (start n m k : ℕ) (s : Bytes)
    → n + m ≡ k
    → take n (drop start s) ++ take m (drop (start + n) s) ≡ take k (drop start s)
joined start n m k s e =
    ap (λ (t : Bytes). take n (drop start s) ++ take m t) (sym (drop-drop n start s))
    ∙ take_split n m (drop start s)
    ∙ ap (λ (j : ℕ). take j (drop start s)) e

module _ (width : ℕ) (source : Source) where
  -- Fields that are no leaf keep their characters.
  pub run-other :
      (leaves : List GroupLeaf) (fields : Fields) (k : Bytes)
      → All IsText leaves
      → count k (leaf_names leaves) ≡ 0
      → run width (map (assignment source) leaves) fields k ≡ fields k
  unfolding run store
  run-other [] fields k h c = refl
  run-other (l ∷ leaves) fields k h c =
      let c' = subst (λ (names : List Bytes). count k names ≡ 0) (leaf_names-cons l leaves h.0) c in
      run-other leaves _ k h.1 (ground arith)
      ∙ ground (arith, bytes_eq_iff k (field_of l), bytes_eq_iff (field_of l) k)

  part_of :
      (l : GroupLeaf) (g : Fields) (whole : Bytes)
      → source_text width source g ≡ whole
      → take ((l.offset + l.width) - l.offset) (drop l.offset (source_text width source g))
        ≡ take l.width (drop l.offset whole)
  part_of l g whole e =
      ap (λ (k : ℕ). take k (drop l.offset (source_text width source g))) (omega arith)
      ∙ ap (λ (t : Bytes). take l.width (drop l.offset t)) e

  module _ (names : List Bytes) (before : Fields) (whole : Bytes)
      (stable : (g : Fields) → Agree names g before → source_text width source g ≡ whole) where
    store-Agree :
        (l : GroupLeaf)
        → 0 < count (field_of l) names
        → (v : Bytes) (g : Fields) → Agree names g before
        → Agree names (store (field_of l) v g) before
    unfolding store
    store-Agree l c v g a k z = elim (Bool-cases (bytes_eq k (field_of l))) [
      | inl e ↦
          absurd
            (ground (arith, ap (λ (j : Bytes). count j names) ((bytes_eq_iff k (field_of l)).0 e)))
      | inr e ↦ rw e (a k z)
    ]

    -- Read back, the leaves hold the source's characters.
    pub run-view :
        (leaves : List GroupLeaf) (start end : ℕ) (fields : Fields)
        → All IsText leaves
        → AreDistinct (leaf_names leaves)
        → Packed start leaves end
        → end ≤ length whole
        → All (λ l. 0 < count (field_of l) names) leaves
        → Agree names fields before
        → characters_of (map segment leaves) (run width (map (assignment source) leaves) fields)
          ≡ take (end - start) (drop start whole)
    unfolding run characters_of store
    run-view [] start end fields t d p h c a =
        let e : 0 ≡ end - start = omega (arith, p) in ap (λ (n : ℕ). take n (drop start whole)) e
    run-view (l ∷ leaves) start end fields t d p h c a =
        let part : Bytes = take l.width (drop start whole) in
        let whole_now =
          part_of l fields whole (stable fields a)
          ∙ ap (λ (o : ℕ). take l.width (drop o whole)) p.0 in
        let fields' : Fields =
          store (field_of l)
            (take ((l.offset + l.width) - l.offset)
              (drop l.offset (source_text width source fields)))
            fields in
        let d' = subst AreDistinct (leaf_names-cons l leaves t.0) d in
        let le = Packed-le (start + l.width) leaves end p.2 in
        let mine : run width (map (assignment source) leaves) fields' (field_of l) ≡ part =
          run-other leaves fields' (field_of l) t.1 d'.0
          ∙ stored_there (field_of l) _ fields
          ∙ whole_now in
        let rest =
          run-view leaves (start + l.width) end fields' t.1 d'.1 p.2 h c.1
            (store-Agree l c.0 _ fields a) in
        rw (segment_text l t.0) (
          rw mine (
            rw (fit_slice start l.width whole (omega arith)) (
              ap (λ (r : Bytes). part ++ r) rest
              ∙ joined start l.width (end - (start + l.width)) (end - start) whole (omega arith))))
