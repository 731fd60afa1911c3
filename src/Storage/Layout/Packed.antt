-- ===== src/Storage/Layout/Packed.antt =====
-- The leaves of a layout of engine/transformation/group_storage.py: their places and their names.
use cobol_java_transformatio.Common.{
  ℕ, zero, suc, ◌+◌, ◌≤◌, ◌<◌, ◌≡◌, refl, ap, subst, inl, inr, Bool, true, false, not, ◌&&◌, Option,
  none, some, List, [], ◌∷◌, ◌++◌, arith, ◌==◌, leb, Bool-cases, Option-cases, length, ok, raise_if,
  >>=-ok, raise_if-ok, All,
}
use cobol_java_transformatio.Common.Bytes.{Bytes, bytes_eq, codes}
use cobol_java_transformatio.Storage.Item.{
  strip, Description, DataItem, item, Items, no_items, items, upper, is_alphanumeric, is_numeric,
  is_group,
}
use cobol_java_transformatio.Storage.Layout.{
  fit, value_text, GroupLeaf, filler_constant, Layouting, add_leaf, count, visit_filler,
  visit_named, visit_leaf, check_clauses, visit, visit_all,
}

-- Each leaf has a width, and begins where the one before ends.
abbrev pub Packed : ℕ → List GroupLeaf → ℕ → Type 0
Packed start [] end = start ≡ end
Packed start (l ∷ leaves) end =
    (l.offset ≡ start) × (0 < l.width) × Packed (start + l.width) leaves end

Packed-append :
    (start : ℕ) (leaves : List GroupLeaf) (end : ℕ) (l : GroupLeaf)
    → Packed start leaves end
    → l.offset ≡ end
    → 0 < l.width
    → Packed start (leaves ++ l ∷ []) (end + l.width)
Packed-append start [] end l h e w = (ground arith, w, ground arith)
Packed-append start (x ∷ leaves) end l h e w =
    (h.0, h.1, Packed-append (start + x.width) leaves end l h.2 e w)

-- The characters of a leaf are its own: a constant of its width, or a field that the program
-- declares once, of text or of at most 18 digits.
pub record IsCertified (names : List Bytes) (l : GroupLeaf) : Type 0 where
  pub field : (n : Bytes) → l.name ≡ some n → (count (upper n) names ≡ 1) × (l.constant ≡ none)
  pub filler : l.name ≡ none → (c : Bytes) × (l.constant ≡ some c) × (length c ≡ l.width)
  pub digits : l.numeric ≡ true → (l.width ≤ 18) × ((n : Bytes) × (l.name ≡ some n))

pub record IsSound (names : List Bytes) (l : Layouting) : Type 0 where
  pub packed : Packed 0 l.leaves l.offset
  pub certified : All (IsCertified names) l.leaves

All-append {ℓ κ} :
    {A : Type ℓ} (P : A → Type κ) (xs : List A) (x : A) → All P xs → P x → All P (xs ++ x ∷ [])
All-append P [] x h p = (p, tt)
All-append P (y ∷ xs) x h p = (h.0, All-append P xs x h.1 p)

pub fit-length : (n : ℕ) (text : Bytes) → length (fit n text) ≡ n
unfolding fit
fit-length zero text = refl
fit-length (suc n) [] = ap suc (fit-length n [])
fit-length (suc n) (c ∷ text) = ap suc (fit-length n text)

filler_constant-length :
    (d : Description) {c : Bytes} → filler_constant d ≡ some c → length c ≡ d.pic_length
unfolding filler_constant
filler_constant-length d {c} e = elim (Option-cases (d.value)) [
  | inl n ↦ ground (arith, fit-length d.pic_length [])
  | inr (v, h) ↦ elim (Option-cases (value_text (strip v) d.pic_length)) [
    | inl n ↦ absurd (ground arith)
    | inr (t, q) ↦ ground (arith, fit-length d.pic_length t)
  ]
]

module _ (names : List Bytes) where
  grow :
      (name : Option Bytes) (width : ℕ) (numeric : Bool) (constant : Option Bytes) (l : Layouting)
      → IsSound names l
      → 0 < width
      → IsCertified names record {
        name = name;
        offset = l.offset;
        width = width;
        numeric = numeric;
        constant = constant;
      }
      → IsSound names (add_leaf name width numeric constant l)
  grow name width numeric constant l s w c = record {
    packed = Packed-append 0 l.leaves l.offset _ s.packed refl w;
    certified = All-append (IsCertified names) l.leaves _ s.certified c;
  }

  pub visit_named-ok :
      (d : Description) (l : Layouting) {l' : Layouting}
      → visit_named names d l ≡ ok l'
      → (count (upper d.name) names ≡ 1)
        × ((b : Bool) × (b ≡ true → d.pic_length ≤ 18)
            × (l' ≡ add_leaf (some d.name) d.pic_length b none l))
  unfolding visit_named
  visit_named-ok d l {l'} e = elim (Bool-cases (count (upper d.name) names == 1)) [
    | inr n ↦ absurd (ground arith)
    | inl u ↦ elim (Bool-cases (is_alphanumeric d)) [
      | inl a ↦ (ground arith, (false, λ h. absurd (cc), ground arith))
      | inr a ↦
          elim (Bool-cases
            (is_numeric d && not d.signed && d.decimal_places == 0 && leb d.pic_length 18)) [
              | inl c ↦ (ground arith, (true, λ h. ground arith, ground arith))
              | inr c ↦ absurd (ground arith)
            ]
    ]
  ]

  pub visit_filler-ok :
      (d : Description) (l : Layouting) {l' : Layouting}
      → visit_filler d l ≡ ok l'
      → (c : Bytes) × (filler_constant d ≡ some c)
        × (l' ≡ add_leaf none d.pic_length false (some c) l)
  unfolding visit_filler
  visit_filler-ok d l {l'} e = elim (Option-cases (filler_constant d)) [
    | inl n ↦ absurd (ground arith)
    | inr (c, h) ↦ (c, h, ground arith)
  ]

  visit_leaf-IsSound :
      (d : Description) (l : Layouting) {l' : Layouting}
      → visit_leaf names d l ≡ ok l'
      → IsSound names l
      → IsSound names l'
  unfolding visit_leaf
  visit_leaf-IsSound d l {l'} e s =
      let (u, a, e1) = >>=-ok (raise_if (d.pic_length == 0) _) _ e in
      let wide : 0 < d.pic_length = ground (arith, raise_if-ok _ _ a) in
      elim (Bool-cases (bytes_eq (upper d.name) (codes "FILLER"))) [
        | inl f ↦
            let (c, h, e2) = visit_filler-ok d l (rw f at e1) in
            rw e2 (
              grow none d.pic_length false (some c) l s wide record {
                field = λ n q. absurd (ground arith);
                filler = λ q. (c, refl, filler_constant-length d h);
                digits = λ q. absurd (ground arith);
              })
        | inr f ↦
            let (unique, (b, small, e2)) = visit_named-ok d l (rw f at e1) in
            rw e2 (
              grow (some d.name) d.pic_length b none l s wide record {
                field = λ n q. (ground (arith, ap (λ (x : Option Bytes). x) q), refl);
                filler = λ q. absurd (ground arith);
                digits = λ q. (small q, (d.name, refl));
              })
      ]

module _ (names : List Bytes) (redefined : List Bytes) where
  mutual
    unfolding visit visit_all

    pub visit-IsSound :
        (i : DataItem) (l : Layouting) {l' : Layouting}
        → visit names redefined i l ≡ ok l'
        → IsSound names l
        → IsSound names l'
    visit-IsSound (item d children) l {l'} e s = elim (Bool-cases (d.level == 88)) [
      | inl condition ↦ subst (IsSound names) (ground arith) s
      | inr stored ↦
          let (u, a, e1) = >>=-ok (check_clauses redefined d) _ (rw stored at e) in
          elim (Bool-cases (is_group (item d children))) [
            | inl g ↦ visit_all-IsSound children l (rw g at e1) s
            | inr g ↦ visit_leaf-IsSound names d l (rw g at e1) s
          ]
    ]

    pub visit_all-IsSound :
        (is : Items) (l : Layouting) {l' : Layouting}
        → visit_all names redefined is l ≡ ok l'
        → IsSound names l
        → IsSound names l'
    visit_all-IsSound no_items l {l'} e s = subst (IsSound names) (ground arith) s
    visit_all-IsSound (items i rest) l {l'} e s =
        let (m, a, e1) = >>=-ok (visit names redefined i l) _ e in
        visit_all-IsSound rest m e1 (visit-IsSound i l a s)
