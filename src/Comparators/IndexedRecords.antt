-- ===== src/Comparators/IndexedRecords.antt =====
-- engine/comparators/indexed_records.py: the records of an INDEXED file, read from the pages of a
-- Berkeley DB B-tree. `walk` is given fuel for its recursion.
pub mod Page
pub mod Errors
pub mod Termination
pub mod Tree
pub mod OffsetTable
pub mod Canonical
use cobol_java_transformatio.Common.{
  ℕ, zero, suc, ◌+◌, ◌-◌, ◌*◌, ◌/◌, ◌%◌, Bool, true, false, not, ◌&&◌, ◌||◌, Option, none, some,
  List, [], ◌∷◌, ◌++◌, if◌then◌else◌, leb, ltb, ◌==◌, any, length, Result, ok, err, ◌>>=◌, ◌>>◌,
  raise_if,
}
use cobol_java_transformatio.Common.Bytes.{Bytes, take, drop}
use Prim.Native.Nat.{bit_and}

-- the texts of `UnreadableImage`
pub data Unreadable : Type 0 where
  not_a_btree encrypted offset_outside item_past_page : Unreadable
  version_not_certified bad_page_size no_metadata page_outside reached_twice unpaired_key :
      ℕ → Unreadable
  page_named unknown_page_type item_types : ℕ → ℕ → Unreadable

-- what reading an image can raise; `out_of_fuel` is the model's own
pub data Failure : Type 0 where
  unreadable : Unreadable → Failure
  struct_error index_error out_of_fuel : Failure

-- `struct.unpack_from` of a little-endian number of so many bytes
unfoldable pub little_endian : ℕ → Bytes → Result Failure ℕ
little_endian zero bytes = ok 0
little_endian (suc n) [] = err struct_error
little_endian (suc n) (b ∷ bytes) = do rest ← little_endian n bytes; ok (b + 256 * rest)

unfoldable pub u16 : Bytes → ℕ → Result Failure ℕ
u16 buf at = little_endian 2 (drop at buf)

unfoldable pub u32 : Bytes → ℕ → Result Failure ℕ
u32 buf at = little_endian 4 (drop at buf)

-- `buf[at]`
unfoldable pub byte_at : Bytes → ℕ → Result Failure ℕ
byte_at buf at = elim (drop at buf) [ [] ↦ err index_error | b ∷ rest ↦ ok b ]

-- `buf[start:stop]`
abbrev pub slice : Bytes → ℕ → ℕ → Bytes
slice buf start stop = take (stop - start) (drop start buf)

-- The checks on the metadata page; the answer is the page size.
unfoldable pub certified_page_size : Bytes → Result Failure ℕ
certified_page_size image = do
  raise_if (ltb (length image) 512) (unreadable not_a_btree)
  magic ← u32 image 12
  raise_if (not (magic == 340322)) (unreadable not_a_btree)
  version ← u32 image 16
  raise_if (not (version == 9)) (unreadable (version_not_certified version))
  page_size ← u32 image 20
  raise_if
      (ltb page_size 512
        || not (bit_and page_size (page_size - 1) == 0)
        || not (length image % page_size == 0))
      (unreadable (bad_page_size page_size))
  encryption ← byte_at image 24
  raise_if (not (encryption == 0)) (unreadable encrypted)
  kind ← byte_at image 25
  raise_if (not (kind == 9)) (unreadable (no_metadata kind))
  ok page_size

unfoldable pub page : Bytes → ℕ → ℕ → Result Failure Bytes
page image page_size number = do
  raise_if (not (ltb 0 number && ltb number (length image / page_size)))
      (unreadable (page_outside number))
  let content = slice image (number * page_size) ((number + 1) * page_size)
  named ← u32 content 8
  raise_if (not (named == number)) (unreadable (page_named number named))
  ok content

-- `[_u16(data, _HEADER + 2 * i) for i in range(i, i + n)]`
unfoldable pub read_offsets : Bytes → ℕ → ℕ → Result Failure (List ℕ)
read_offsets content zero i = ok []
read_offsets content (suc n) i = do
  offset ← u16 content (26 + 2 * i)
  rest ← read_offsets content n (suc i)
  ok (offset ∷ rest)

unfoldable pub items : ℕ → Bytes → Result Failure (List ℕ)
items page_size content = do
  entries ← u16 content 20
  offsets ← read_offsets content entries 0
  raise_if
      (any (λ offset. not (leb (26 + 2 * entries) offset && ltb offset (page_size - 3))) offsets)
      (unreadable offset_outside)
  ok offsets

-- an item that is not deleted: plain data, within the page
unfoldable pub plain_item : ℕ → Bytes → ℕ → ℕ → ℕ → Result Failure (List Bytes)
plain_item page_size content key_type data_type data_at = do
  raise_if (not (key_type == 1) || not (data_type == 1))
      (unreadable (item_types key_type data_type))
  len ← u16 content data_at
  raise_if (ltb page_size (data_at + 3 + len)) (unreadable item_past_page)
  ok (slice content (data_at + 3) (data_at + 3 + len) ∷ [])

-- `(key_type | data_type) & _DELETED`, of two bytes
unfoldable pub is_deleted : ℕ → ℕ → Bool
is_deleted key_type data_type = key_type / 128 % 2 == 1 || data_type / 128 % 2 == 1

-- the item of a leaf page for one key, and nothing for a deleted one
unfoldable pub leaf_item : ℕ → Bytes → ℕ → ℕ → Result Failure (List Bytes)
leaf_item page_size content key_at data_at = do
  key_type ← byte_at content (key_at + 2)
  data_type ← byte_at content (data_at + 2)
  if is_deleted key_type data_type
      then ok []
      else plain_item page_size content key_type data_type data_at

-- the loop over `zip(offsets[::2], offsets[1::2])`
unfoldable pub leaf_records : ℕ → Bytes → List ℕ → Result Failure (List Bytes)
leaf_records page_size content (key_at ∷ data_at ∷ offsets) = do
  record_ ← leaf_item page_size content key_at data_at
  rest ← leaf_records page_size content offsets
  ok (record_ ++ rest)
leaf_records page_size content _ = ok []

-- what `walk` changes: the pages seen, and the records found
pub record Walk : Type 0 where
  pub seen : List ℕ
  pub records : List Bytes

unfoldable pub among : ℕ → List ℕ → Bool
among n ns = any (λ m. m == n) ns

-- `for offset in items(data): walk(_u32(data, offset + 4))`
unfoldable pub each_child :
    (ℕ → Walk → Result Failure Walk) → Bytes → List ℕ → Walk → Result Failure Walk
each_child go content [] w = ok w
each_child go content (offset ∷ offsets) w = do
  child ← u32 content (offset + 4)
  w' ← go child w
  each_child go content offsets w'

unfoldable pub visit_leaf : ℕ → Bytes → ℕ → Walk → Result Failure Walk
visit_leaf page_size content number w = do
  offsets ← items page_size content
  raise_if (length offsets % 2 == 1) (unreadable (unpaired_key number))
  found ← leaf_records page_size content offsets
  ok (record w { records = w.records ++ found })

unfoldable pub visit_inner :
    (ℕ → Walk → Result Failure Walk) → ℕ → Bytes → Walk → Result Failure Walk
visit_inner go page_size content w = do
  offsets ← items page_size content
  each_child go content offsets w

unfoldable pub visit_page :
    (ℕ → Walk → Result Failure Walk) → ℕ → Bytes → ℕ → Walk → Result Failure Walk
visit_page go page_size content number w = do
  kind ← byte_at content 25
  if kind == 3
      then visit_inner go page_size content w
      else if kind == 5
      then visit_leaf page_size content number w
      else err (unreadable (unknown_page_type number kind))

unfoldable pub visit : (ℕ → Walk → Result Failure Walk) → Bytes → ℕ → ℕ → Walk → Result Failure Walk
visit go image page_size number w = do
  raise_if (among number w.seen) (unreadable (reached_twice number))
  content ← page image page_size number
  visit_page go page_size content number (record w { seen = w.seen ++ number ∷ [] })

unfoldable pub walk : Bytes → ℕ → ℕ → ℕ → Walk → Result Failure Walk
walk image page_size zero number w = err out_of_fuel
walk image page_size (suc fuel) number w =
    visit (walk image page_size fuel) image page_size number w

-- Fuel for one more call than the file has pages.
unfoldable pub bdb_btree_records : Bytes → Result Failure (List Bytes)
bdb_btree_records image = do
  page_size ← certified_page_size image
  root ← u32 image 88
  w ← walk image page_size (suc (length image / page_size)) root record { seen = []; records = [] }
  ok w.records
