-- ===== src/Comparators/RelativeRecords/Slots.antt =====
-- RELATIVE files as lists of slots, and the images that GnuCOBOL writes of them.
use cobol_java_transformatio.Common.{
  ℕ, zero, suc, ◌+◌, ◌*◌, ◌/◌, ◌%◌, ◌≤◌, ◌<◌, ◌≡◌, refl, ap, inl, inr, List, [], ◌∷◌, ◌++◌, arith,
  length, ◌==◌, ==_iff, if◌then◌else◌, Bool-cases, ok, Any,
}
use native.Mathlib.Nat.{div-add-mod'}
use cobol_java_transformatio.Common.Bytes.{Bytes, take, drop, length-drop}
use cobol_java_transformatio.Comparators.IndexedRecords.{little_endian}
use cobol_java_transformatio.Comparators.RelativeRecords.{
  read_sizes, is_layout, Layout, layout_of_length, layouts_from,
}

-- A slot holds a record, or the bytes of one that was deleted or never written.
pub data Slot : Type 0 where
  live empty : Bytes → Slot

abbrev pub area : Slot → Bytes
area (live b) = b
area (empty b) = b

abbrev pub size_of : Slot → ℕ
size_of (live b) = length b
size_of (empty b) = 0

-- `n` bytes of a number, the lowest first
unfoldable pub le_bytes : ℕ → ℕ → Bytes
le_bytes zero m = []
le_bytes (suc n) m = m % 256 ∷ le_bytes n (m / 256)

abbrev pub capacity : ℕ → ℕ
capacity zero = 1
capacity (suc n) = 256 * capacity n

-- The image: of each slot the size in eight bytes, and the record area.
unfoldable pub encode : List Slot → Bytes
encode [] = []
encode (s ∷ slots) = le_bytes 8 (size_of s) ++ area s ++ encode slots

-- The records of a file, with their relative record numbers.
unfoldable pub records_of : ℕ → List Slot → List (ℕ × Bytes)
records_of rrn [] = []
records_of rrn (live b ∷ slots) = (rrn, b) ∷ records_of (suc rrn) slots
records_of rrn (empty b ∷ slots) = records_of (suc rrn) slots

pub little_endian-le_bytes :
    (n m : ℕ) (rest : Bytes) → m < capacity n → little_endian n (le_bytes n m ++ rest) ≡ ok m
unfolding little_endian le_bytes
little_endian-le_bytes zero m rest h = let e : 0 ≡ m = omega (arith, h) in ap (λ (k : ℕ). ok k) e
little_endian-le_bytes (suc n) m rest h =
    rw (little_endian-le_bytes n (m / 256) rest (omega (arith, h)))
      (let e : m % 256 + 256 * (m / 256) ≡ m = omega arith in ap (λ (k : ℕ). ok k) e)

pub length-le_bytes : (n m : ℕ) → length (le_bytes n m) ≡ n
unfolding le_bytes
length-le_bytes zero m = refl
length-le_bytes (suc n) m = ap suc (length-le_bytes n (m / 256))

pub drop-append : (n : ℕ) (xs ys : Bytes) → length xs ≡ n → drop n (xs ++ ys) ≡ ys
drop-append zero [] ys h = refl
drop-append zero (x ∷ xs) ys h = absurd (omega (arith, h))
drop-append (suc n) [] ys h = absurd (omega (arith, h))
drop-append (suc n) (x ∷ xs) ys h = drop-append n xs ys (omega (arith, h))

pub take-append : (n : ℕ) (xs ys : Bytes) → length xs ≡ n → take n (xs ++ ys) ≡ xs
take-append zero [] ys h = refl
take-append zero (x ∷ xs) ys h = absurd (omega (arith, h))
take-append (suc n) [] ys h = absurd (omega (arith, h))
take-append (suc n) (x ∷ xs) ys h = ap (◌∷◌ x) (take-append n xs ys (omega (arith, h)))

in_front : (xs ys : List Layout) (x : Layout) → xs ≡ x ∷ [] → Any (λ y. x ≡ y) (xs ++ ys)
in_front xs ys x e = rw e (inl refl)

behind : (xs ys : List Layout) (x : Layout) → Any (λ y. x ≡ y) ys → Any (λ y. x ≡ y) (xs ++ ys)
behind [] ys x m = m
behind (z ∷ xs) ys x m = inr (behind xs ys x m)

little_endian-total : (n : ℕ) (b : Bytes) → n ≤ length b → (m : ℕ) × (little_endian n b ≡ ok m)
unfolding little_endian
little_endian-total zero b h = (0, refl)
little_endian-total (suc n) [] h = absurd (omega arith)
little_endian-total (suc n) (x ∷ b) h =
    let (m, e) = little_endian-total n b (omega arith) in (x + 256 * m, rw e refl)

-- Any number of whole slots can be read.
read_sizes-total :
    (n slot : ℕ) (image : Bytes)
    → 8 ≤ slot
    → n * slot ≤ length image
    → (sizes : List ℕ) × (read_sizes n slot image ≡ ok sizes)
unfolding read_sizes
read_sizes-total zero slot image h k = ([], refl)
read_sizes-total (suc n) slot image h k =
    let (size, e) = little_endian-total 8 image (grind arith) in
    let (sizes, f) =
      read_sizes-total n slot (drop slot image) h (grind (arith, length-drop slot image)) in
    (size ∷ sizes, rw e (rw f refl))

layout_of_length-total :
    (image : Bytes) (len : ℕ) → (ls : List Layout) × (layout_of_length image len ≡ ok ls)
unfolding layout_of_length
layout_of_length-total image len = elim (Bool-cases (length image % (8 + len) == 0)) [
  | inl whole ↦
      let (sizes, e) =
        read_sizes-total (length image / (8 + len)) (8 + len) image (omega arith)
          (grind (arith, div-add-mod' (length image) (8 + len))) in
      (if is_layout len sizes then (8 + len, sizes) ∷ [] else [], rw whole (rw e refl))
  | inr part ↦ ([], rw part refl)
]

-- Every length tried whose slots fit is among the layouts.
pub layouts_from-total :
    (image : Bytes) (n first : ℕ)
    → (ls : List Layout) × (layouts_from image n first ≡ ok ls)
      × ((len : ℕ) (x : Layout)
          → first ≤ len
          → len < first + n
          → layout_of_length image len ≡ ok (x ∷ [])
          → Any (λ y. x ≡ y) ls)
unfolding layouts_from
layouts_from-total image zero first = ([], refl, λ len x a b e. absurd (omega arith))
layouts_from-total image (suc n) first =
    let (found, e) = layout_of_length-total image first in
    let (rest, f, within) = layouts_from-total image n (suc first) in
    (
      found ++ rest,
      rw e (rw f refl),
      λ len x a b g. elim (Bool-cases (first == len)) [
        | inl same ↦
            in_front found rest x
              (ground (arith, ap (layout_of_length image) ((==_iff first len).0 same)))
        | inr other ↦ behind found rest x (within len x (ground arith) (omega arith) g)
      ],
    )
