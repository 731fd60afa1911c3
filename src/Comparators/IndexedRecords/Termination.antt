-- ===== src/Comparators/IndexedRecords/Termination.antt =====
-- The recursion of `walk` in engine/comparators/indexed_records.py: each call sees another page of the
-- file.
use cobol_java_transformatio.Common.{
  ℕ, zero, suc, ◌/◌, ◌≤◌, ◌<◌, ◌≡◌, ◌≢◌, ap, inl, inr, false, not, ◌&&◌, ◌||◌, List, [], ◌∷◌, ◌++◌,
  arith, if◌then◌else◌, ◌==◌, ==_iff, ltb, length, Bool-cases, Result, ok, err, raise_if, >>=-ok,
  raise_if-ok,
}
use cobol_java_transformatio.Common.Bytes.{Bytes}
use cobol_java_transformatio.Comparators.IndexedRecords.{
  Failure, out_of_fuel, u32, page, Walk, among, each_child, visit_leaf, visit_inner, visit_page,
  visit, walk, bdb_btree_records,
}
use cobol_java_transformatio.Comparators.IndexedRecords.Page.{
  Page, inner, leaf, run, Finish, entered, visit-ok,
}
use cobol_java_transformatio.Comparators.IndexedRecords.Errors.{
  Stops, >>=-Stops, ok-Stops, guarded, little_endian-Stops, byte_at-Stops, items-Stops,
  leaf_records-Stops, page-Stops, certified_page_size-Stops,
}

-- How many of the numbers below `n` are not in a list.
unfoldable pub unseen : ℕ → List ℕ → ℕ
unseen zero seen = 0
unseen (suc n) seen = let rest = unseen n seen in if among n seen then rest else suc rest

among-append : (m : ℕ) (seen : List ℕ) (n : ℕ) → among m (seen ++ n ∷ []) ≡ (among m seen || n == m)
unfolding among
among-append m [] n = ground arith
among-append m (x ∷ seen) n = ground (arith, among-append m seen n)

pub unseen-append-le : (k : ℕ) (seen : List ℕ) (n : ℕ) → unseen k (seen ++ n ∷ []) ≤ unseen k seen
unfolding unseen
unseen-append-le zero seen n = omega arith
unseen-append-le (suc k) seen n = ground (arith, unseen-append-le k seen n, among-append k seen n)

-- Each new number below the bound counts.
pub unseen-append :
    (k : ℕ) (seen : List ℕ) (n : ℕ)
    → n < k
    → among n seen ≡ false
    → unseen k (seen ++ n ∷ []) < unseen k seen
unfolding unseen
unseen-append zero seen n h e = absurd (omega arith)
unseen-append (suc k) seen n h e = elim (Bool-cases (n == k)) [
  | inl same ↦ ground (
    arith,
    unseen-append-le k seen n,
    among-append k seen n,
    ap (λ (j : ℕ). among j seen) ((==_iff n k).0 same),
  )
  | inr other ↦ ground (arith, unseen-append k seen n, among-append k seen n)
]

-- A walk from here needs no more fuel than this, and forgets no page.
pub record Ends (pages : ℕ) (go : ℕ → Walk → Result Failure Walk) (budget : ℕ) : Type 0 where
  pub stops : (n : ℕ) (w : Walk) → unseen pages w.seen < budget → Stops (go n w)
  pub sees :
      (n : ℕ) (w : Walk) {w' : Walk} → go n w ≡ ok w' → unseen pages w'.seen ≤ unseen pages w.seen

module _ (pages : ℕ) (go : ℕ → Walk → Result Failure Walk) (budget : ℕ)
    (ends : Ends pages go budget) where
  each_child-Stops :
      (content : Bytes) (offsets : List ℕ) (w : Walk)
      → unseen pages w.seen < budget
      → Stops (each_child go content offsets w)
  unfolding each_child u32
  each_child-Stops content [] w h = ok-Stops w
  each_child-Stops content (offset ∷ offsets) w h =
      >>=-Stops _ _ (little_endian-Stops 4 _) (λ child e.
        >>=-Stops _ _ (ends.stops child w h)
          (λ w' e'. each_child-Stops content offsets w' (omega (arith, ends.sees child w e'))))

  run-sees :
      (children : List ℕ) (w : Walk) {w' : Walk}
      → run go children w ≡ ok w'
      → unseen pages w'.seen ≤ unseen pages w.seen
  unfolding run
  run-sees [] w e = ground arith
  run-sees (child ∷ children) w e =
      let (w1, q, e1) = >>=-ok (go child w) _ e in
      omega (arith, ends.sees child w q, run-sees children w1 e1)

  Finish-sees :
      (p : Page) (w w' : Walk) → Finish go p w w' → unseen pages w'.seen ≤ unseen pages w.seen
  Finish-sees (inner children) w w' h = run-sees children w h
  Finish-sees (leaf found) w w' h = ground arith

  visit_page-Stops :
      (size : ℕ) (content : Bytes) (n : ℕ) (w : Walk)
      → unseen pages w.seen < budget
      → Stops (visit_page go size content n w)
  unfolding visit_page visit_inner visit_leaf
  visit_page-Stops size content n w h = >>=-Stops _ _ (byte_at-Stops content 25) (λ kind e.
      elim (Bool-cases (kind == 3)) [
        | inl is_inner ↦ rw is_inner (
            >>=-Stops _ _ (items-Stops size content)
              (λ offsets e'. each_child-Stops content offsets w h))
        | inr no_inner ↦ elim (Bool-cases (kind == 5)) [
          | inl is_leaf ↦ rw no_inner (
              rw is_leaf (
                >>=-Stops _ _ (items-Stops size content) (λ offsets e'. guarded _ _ _ (
                  >>=-Stops _ _ (leaf_records-Stops size content offsets)
                    (λ found e''. ok-Stops _)))))
          | inr no_leaf ↦ rw no_inner (rw no_leaf (λ q. absurd (ground arith)))
        ]
      ])

-- A page that can be read is a page of the file.
pub page-lt :
    (image : Bytes) (size n : ℕ) {content : Bytes}
    → page image size n ≡ ok content
    → n < length image / size
unfolding page
page-lt image size n e =
    let (u, inside, rest) =
      >>=-ok (raise_if (not (ltb 0 n && ltb n (length image / size))) _) _ e in
    ground (arith, raise_if-ok _ _ inside)

module _ (image : Bytes) (size : ℕ) where
  visit-Ends :
      (go : ℕ → Walk → Result Failure Walk) (budget : ℕ)
      → Ends (length image / size) go budget
      → Ends (length image / size) (visit go image size) (suc budget)
  unfolding visit
  visit-Ends go budget ends = record {
    stops = λ n w h. elim (Bool-cases (among n w.seen)) [
      | inl old ↦ rw old (λ q. absurd (ground arith))
      | inr new ↦ rw new (
          >>=-Stops _ _ (page-Stops image size n) (λ content e.
            visit_page-Stops (length image / size) go budget ends size content n (entered n w) (
              omega (
                arith,
                unseen-append (length image / size) w.seen n (page-lt image size n e) new,
              ))))
    ];
    sees = λ n w {w'} e.
        let (new, (p, read, done)) = visit-ok go image size n w e in
        omega (
          arith,
          Finish-sees (length image / size) go budget ends p (entered n w) w' done,
          unseen-append-le (length image / size) w.seen n,
        );
  }

  pub walk-Ends : (fuel : ℕ) → Ends (length image / size) (walk image size fuel) fuel
  unfolding walk
  walk-Ends zero = record {
    stops = λ n w h. absurd (omega arith);
    sees = λ n w e. absurd (ground arith);
  }
  walk-Ends (suc fuel) = visit-Ends (walk image size fuel) fuel (walk-Ends fuel)

pub unseen-le : (n : ℕ) (seen : List ℕ) → unseen n seen ≤ n
unfolding unseen
unseen-le zero seen = omega arith
unseen-le (suc n) seen = ground (arith, unseen-le n seen)

-- The walk over the pages of an image always ends: it never calls itself more often, one call
-- inside another, than the file has pages, and once more, whatever bytes the image holds. Reading an
-- image so gives its records or one of the exceptions of the code.
pub bdb_btree_records-Stops : (image : Bytes) → bdb_btree_records image ≢ err out_of_fuel
unfolding bdb_btree_records u32
bdb_btree_records-Stops image = >>=-Stops _ _ (certified_page_size-Stops image) (λ size e.
    >>=-Stops _ _ (little_endian-Stops 4 _) (λ root e'.
      >>=-Stops _ _
        ((walk-Ends image size (suc (length image / size))).stops root
          record { seen = []; records = [] } (omega (arith, unseen-le (length image / size) [])))
        (λ w e''. ok-Stops _)))
