-- ===== src/Comparators/IndexedRecords/OffsetTable.antt =====
-- A page whose table of item offsets is longer than the page, in
-- engine/comparators/indexed_records.py.
use cobol_java_transformatio.Common.{
  ℕ, zero, suc, ◌+◌, ◌*◌, ◌<◌, ◌≤◌, ◌≡◌, refl, ◌⊎◌, inl, inr, false, [], ◌∷◌, Result, ok, err,
  arith, length,
}
use native.Mathlib.Decide.{dec_lt}
use cobol_java_transformatio.Common.Bytes.{Bytes, drop, length-drop}
use cobol_java_transformatio.Comparators.IndexedRecords.{
  Failure, Walk, struct_error, little_endian, u16, byte_at, page, read_offsets, items, among, visit,
  visit_page, visit_inner, visit_leaf,
}

short : (b : Bytes) → length b < 2 → little_endian 2 b ≡ err struct_error
unfolding little_endian
short [] h = refl
short (x ∷ []) h = refl
short (x ∷ y ∷ b) h = absurd (omega arith)

long : (b : Bytes) → 2 ≤ length b → (n : ℕ) × (little_endian 2 b ≡ ok n)
unfolding little_endian
long [] h = absurd (omega arith)
long (x ∷ []) h = absurd (omega arith)
long (x ∷ y ∷ b) h = (x + 256 * (y + 256 * 0), refl)

read_offsets-struct_error :
    (content : Bytes) (n i : ℕ)
    → 26 + 2 * i ≤ length content
    → length content < 26 + 2 * (i + n)
    → read_offsets content n i ≡ err struct_error
unfolding read_offsets u16
read_offsets-struct_error content zero i h k = absurd (omega arith)
read_offsets-struct_error content (suc n) i h k = elim (dec_lt (length content) (28 + 2 * i)) [
  | yes l ↦
      rw (short (drop (26 + 2 * i) content) (omega (arith, length-drop (26 + 2 * i) content))) refl
  | no m ↦
      let (offset, e) =
        long (drop (26 + 2 * i) content) (omega (arith, length-drop (26 + 2 * i) content)) in
      rw e (rw (read_offsets-struct_error content n (suc i) (omega arith) (omega arith)) refl)
]

items-struct_error :
    (size : ℕ) (content : Bytes) {n : ℕ}
    → u16 content 20 ≡ ok n
    → 26 ≤ length content
    → length content < 26 + 2 * n
    → items size content ≡ err struct_error
unfolding items
items-struct_error size content {n} e h k =
    rw e (rw (read_offsets-struct_error content n 0 (omega arith) (omega arith)) refl)

-- An internal or leaf page that says it has more items than the offsets of which it has room for is
-- not refused as an unreadable image: unpacking the offsets raises `struct.error` first, before any
-- offset is checked.
pub visit-struct_error :
    (go : ℕ → Walk → Result Failure Walk) (image : Bytes) (size number : ℕ) (w : Walk)
    {content : Bytes} {kind n : ℕ}
    → among number w.seen ≡ false
    → page image size number ≡ ok content
    → byte_at content 25 ≡ ok kind
    → (kind ≡ 3) ⊎ (kind ≡ 5)
    → u16 content 20 ≡ ok n
    → 26 ≤ length content
    → length content < 26 + 2 * n
    → visit go image size number w ≡ err struct_error
unfolding visit visit_page visit_inner visit_leaf
visit-struct_error go image size number w {content} {kind} {n} new e k (inl a) c h l =
    rw new (rw e (rw k (rw a (rw (items-struct_error size content c h l) refl))))
visit-struct_error go image size number w {content} {kind} {n} new e k (inr a) c h l =
    rw new (rw e (rw k (rw a (rw (items-struct_error size content c h l) refl))))
