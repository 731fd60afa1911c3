-- ===== src/Comparators/IndexedRecords/Page.antt =====
-- What one page of a B-tree says, apart from the walk: the model's own description.
use cobol_java_transformatio.Common.{
  ℕ, ◌%◌, ◌+◌, ◌≡◌, refl, ap, sym, subst, false, inl, inr, List, [], ◌∷◌, ◌++◌, arith,
  if◌then◌else◌, ◌==◌, length, Bool-cases, Result, ok, err, ◌>>=◌, ◌>>◌, >>=-ok, >>=-ok_intro,
  raise_if, raise_if-ok,
}
use cobol_java_transformatio.Common.Bytes.{Bytes}
use cobol_java_transformatio.Comparators.IndexedRecords.{
  Failure, unreadable, unknown_page_type, unpaired_key, Walk, among, byte_at, u32, page, items,
  leaf_records, each_child, visit_leaf, visit_inner, visit_page, visit,
}

pub data Page : Type 0 where
  inner : List ℕ → Page
  leaf : List Bytes → Page

-- The child pages that the items of an internal page name.
unfoldable pub read_children : Bytes → List ℕ → Result Failure (List ℕ)
read_children content [] = ok []
read_children content (offset ∷ offsets) = do
  child ← u32 content (offset + 4)
  rest ← read_children content offsets
  ok (child ∷ rest)

unfoldable pub read_inner : ℕ → Bytes → Result Failure Page
read_inner page_size content = do
  offsets ← items page_size content
  children ← read_children content offsets
  ok (inner children)

unfoldable pub read_leaf : ℕ → Bytes → ℕ → Result Failure Page
read_leaf page_size content number = do
  offsets ← items page_size content
  raise_if (length offsets % 2 == 1) (unreadable (unpaired_key number))
  found ← leaf_records page_size content offsets
  ok (leaf found)

unfoldable pub read_content : ℕ → Bytes → ℕ → Result Failure Page
read_content page_size content number = do
  kind ← byte_at content 25
  if kind == 3
      then read_inner page_size content
      else if kind == 5
      then read_leaf page_size content number
      else err (unreadable (unknown_page_type number kind))

unfoldable pub read_page : Bytes → ℕ → ℕ → Result Failure Page
read_page image page_size number = do
  content ← page image page_size number
  read_content page_size content number

-- Visits one after another.
unfoldable pub run : (ℕ → Walk → Result Failure Walk) → List ℕ → Walk → Result Failure Walk
run go [] w = ok w
run go (child ∷ children) w = do w' ← go child w; run go children w'

abbrev pub entered : ℕ → Walk → Walk
entered number w = record w { seen = w.seen ++ number ∷ [] }

-- What a visit makes of a page.
abbrev pub Finish : (ℕ → Walk → Result Failure Walk) → Page → Walk → Walk → Type 0
Finish go (inner children) w w' = run go children w ≡ ok w'
Finish go (leaf found) w w' = w' ≡ record w { records = w.records ++ found }

each_child-ok :
    (go : ℕ → Walk → Result Failure Walk) (content : Bytes) (offsets : List ℕ) (w : Walk)
    {w' : Walk}
    → each_child go content offsets w ≡ ok w'
    → (children : List ℕ) × (read_children content offsets ≡ ok children)
      × (run go children w ≡ ok w')
unfolding each_child read_children run
each_child-ok go content [] w e = ([], refl, e)
each_child-ok go content (offset ∷ offsets) w e =
    let (child, p, e1) = >>=-ok (u32 content (offset + 4)) _ e in
    let (w1, q, e2) = >>=-ok (go child w) _ e1 in
    let (children, r, e3) = each_child-ok go content offsets w1 e2 in
    (child ∷ children, rw p (rw r refl), rw q e3)

each_child-ok_intro :
    (go : ℕ → Walk → Result Failure Walk) (content : Bytes) (offsets : List ℕ) (w : Walk)
    {w' : Walk} {children : List ℕ}
    → read_children content offsets ≡ ok children
    → run go children w ≡ ok w'
    → each_child go content offsets w ≡ ok w'
unfolding each_child read_children run
each_child-ok_intro go content [] w e h = ground arith
each_child-ok_intro go content (offset ∷ offsets) w {w'} {children} e h =
    let (child, p, e1) = >>=-ok (u32 content (offset + 4)) _ e in
    let (rest, q, e2) = >>=-ok (read_children content offsets) _ e1 in
    let same : children ≡ child ∷ rest = ground arith in
    let (w1, r, e3) = >>=-ok (go child w) _ (subst (λ cs. run go cs w ≡ ok w') same h) in
    >>=-ok_intro (u32 content (offset + 4)) _ p
      (>>=-ok_intro (go child w) _ r (each_child-ok_intro go content offsets w1 q e3))

module _ (go : ℕ → Walk → Result Failure Walk) (size : ℕ) (content : Bytes) (number : ℕ) (w : Walk)
    {w' : Walk} where
  inner-ok :
      visit_inner go size content w ≡ ok w'
      → (p : Page) × (read_inner size content ≡ ok p) × Finish go p w w'
  unfolding visit_inner read_inner
  inner-ok e =
      let (offsets, a, e1) = >>=-ok (items size content) _ e in
      let (children, b, c) = each_child-ok go content offsets w e1 in
      (inner children, rw a (rw b refl), c)

  leaf-ok :
      visit_leaf size content number w ≡ ok w'
      → (p : Page) × (read_leaf size content number ≡ ok p) × Finish go p w w'
  unfolding visit_leaf read_leaf
  leaf-ok e =
      let (offsets, a, e1) = >>=-ok (items size content) _ e in
      let (u, b, e2) = >>=-ok (raise_if (length offsets % 2 == 1) _) _ e1 in
      let (found, c, e3) = >>=-ok (leaf_records size content offsets) _ e2 in
      (leaf found, rw a (rw (raise_if-ok _ _ b) (rw c refl)), ground arith)

  inner-ok_intro :
      {p : Page}
      → read_inner size content ≡ ok p
      → Finish go p w w'
      → visit_inner go size content w ≡ ok w'
  unfolding visit_inner read_inner
  inner-ok_intro {p} e h =
      let (offsets, a, e1) = >>=-ok (items size content) _ e in
      let (children, b, e2) = >>=-ok (read_children content offsets) _ e1 in
      let same : p ≡ inner children = ground arith in
      rw a (each_child-ok_intro go content offsets w b (subst (λ x. Finish go x w w') same h))

  leaf-ok_intro :
      {p : Page}
      → read_leaf size content number ≡ ok p
      → Finish go p w w'
      → visit_leaf size content number w ≡ ok w'
  unfolding visit_leaf read_leaf
  leaf-ok_intro {p} e h =
      let (offsets, a, e1) = >>=-ok (items size content) _ e in
      let (u, b, e2) = >>=-ok (raise_if (length offsets % 2 == 1) _) _ e1 in
      let (found, c, e3) = >>=-ok (leaf_records size content offsets) _ e2 in
      let same : p ≡ leaf found = ground arith in
      let done : w' ≡ record w { records = w.records ++ found } =
        subst (λ x. Finish go x w w') same h in
      rw a (rw (raise_if-ok _ _ b) (rw c (ap (λ (x : Walk). ok x) (sym done))))

  page-ok :
      visit_page go size content number w ≡ ok w'
      → (p : Page) × (read_content size content number ≡ ok p) × Finish go p w w'
  unfolding visit_page read_content
  page-ok e =
      let (kind, a, e1) = >>=-ok (byte_at content 25) _ e in
      elim (Bool-cases (kind == 3)) [
        | inl is_inner ↦
            let (p, b, c) = inner-ok (rw is_inner at e1) in (p, rw a (rw is_inner b), c)
        | inr no_inner ↦ elim (Bool-cases (kind == 5)) [
          | inl is_leaf ↦
              let (p, b, c) = leaf-ok (rw (no_inner, is_leaf) at e1) in
              (p, rw a (rw no_inner (rw is_leaf b)), c)
          | inr no_leaf ↦ absurd (ground arith)
        ]
      ]

  page-ok_intro :
      {p : Page}
      → read_content size content number ≡ ok p
      → Finish go p w w'
      → visit_page go size content number w ≡ ok w'
  unfolding visit_page read_content
  page-ok_intro {p} e h =
      let (kind, a, e1) = >>=-ok (byte_at content 25) _ e in
      elim (Bool-cases (kind == 3)) [
        | inl is_inner ↦ rw a (rw is_inner (inner-ok_intro {p = p} (rw is_inner at e1) h))
        | inr no_inner ↦ elim (Bool-cases (kind == 5)) [
          | inl is_leaf ↦
              rw a
                (rw no_inner (rw is_leaf (leaf-ok_intro {p = p} (rw (no_inner, is_leaf) at e1) h)))
          | inr no_leaf ↦ absurd (ground arith)
        ]
      ]

-- A visit succeeds exactly where the page is new and can be read, and what it then does.
pub visit-ok :
    (go : ℕ → Walk → Result Failure Walk) (image : Bytes) (size number : ℕ) (w : Walk) {w' : Walk}
    → visit go image size number w ≡ ok w'
    → (among number w.seen ≡ false)
      × ((p : Page) × (read_page image size number ≡ ok p) × Finish go p (entered number w) w')
unfolding visit read_page
visit-ok go image size number w e =
    let (u, new, e1) = >>=-ok (raise_if (among number w.seen) _) _ e in
    let (content, a, e2) = >>=-ok (page image size number) _ e1 in
    let (p, b, c) = page-ok go size content number (entered number w) e2 in
    (raise_if-ok _ _ new, (p, rw a b, c))

pub visit-ok_intro :
    (go : ℕ → Walk → Result Failure Walk) (image : Bytes) (size number : ℕ) (w : Walk) {w' : Walk}
    {p : Page}
    → among number w.seen ≡ false
    → read_page image size number ≡ ok p
    → Finish go p (entered number w) w'
    → visit go image size number w ≡ ok w'
unfolding visit read_page
visit-ok_intro go image size number w {w'} {p} new e h =
    let (content, a, e1) = >>=-ok (page image size number) _ e in
    rw new (rw a (page-ok_intro go size content number (entered number w) {p = p} e1 h))
