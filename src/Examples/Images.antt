-- ===== src/Examples/Images.antt =====
-- A file of two pages with one record, and the theorems on reading it.
use cobol_java_transformatio.Common.{
  ℕ, zero, suc, ◌≡◌, ◌≢◌, ◌↔◌, ◌⊎◌, List, inl, inr, refl, [], ◌∷◌, ◌++◌, ok, err, arith,
}
use cobol_java_transformatio.Common.Bytes.{Bytes}
use cobol_java_transformatio.Comparators.IndexedRecords.{
  out_of_fuel, struct_error, little_endian, u16, u32, byte_at, certified_page_size, page,
  read_offsets, items, is_deleted, plain_item, leaf_item, leaf_records, Walk, among, visit_leaf,
  visit_inner, visit_page, visit, walk, bdb_btree_records,
}
use cobol_java_transformatio.Comparators.IndexedRecords.Termination.{bdb_btree_records-Stops}
use cobol_java_transformatio.Comparators.IndexedRecords.Tree.{Tree, flatten}
use cobol_java_transformatio.Comparators.IndexedRecords.Tree.Refine.{
  IsImageOf, bdb_btree_records-flatten,
}
use cobol_java_transformatio.Comparators.IndexedRecords.OffsetTable.{visit-struct_error}
use cobol_java_transformatio.Comparators.IndexedRecords.Canonical.{canonical_records_injective}
use cobol_java_transformatio.Comparators.RelativeRecords.{
  several_layouts, gnucobol_relative_records, read_sizes, all_sizes, is_layout, layout_of_length,
  layouts_from, live_slots, by_layout,
}
use cobol_java_transformatio.Comparators.RelativeRecords.Slots.{
  Slot, live, empty, le_bytes, encode, records_of,
}
use cobol_java_transformatio.Comparators.RelativeRecords.Exact.{gnucobol_relative_records-encode}

abbrev zeros : ℕ → Bytes
zeros zero = []
zeros (suc n) = 0 ∷ zeros n

abbrev metadata : Bytes
metadata =
    zeros 12
    ++ 98
      ∷ 49
      ∷ 5
      ∷ 0
      ∷ 9
      ∷ 0
      ∷ 0
      ∷ 0
      ∷ 0
      ∷ 2
      ∷ 0
      ∷ 0
      ∷ 0
      ∷ 9
      ∷ (zeros 62 ++ 1 ∷ 0 ∷ 0 ∷ 0 ∷ zeros 420)

-- The leaf page, with its number of items as given.
abbrev leaf_of : ℕ → ℕ → Bytes
leaf_of low high =
    zeros 8
    ++ 1
      ∷ 0
      ∷ 0
      ∷ 0
      ∷ (zeros 8
          ++ low
            ∷ high
            ∷ 0
            ∷ 0
            ∷ 1
            ∷ 5
            ∷ 40
            ∷ 0
            ∷ 50
            ∷ 0
            ∷ (zeros 10 ++ 1 ∷ 0 ∷ 1 ∷ 75 ∷ (zeros 6 ++ 3 ∷ 0 ∷ 1 ∷ 75 ∷ 48 ∷ 49 ∷ zeros 456)))

abbrev image : Bytes
image = metadata ++ leaf_of 2 0

abbrev record_1 : Bytes
record_1 = 75 ∷ 48 ∷ 49 ∷ []

image_read : bdb_btree_records image ≡ ok (record_1 ∷ [])
unfolding bdb_btree_records certified_page_size u32 u16 little_endian byte_at page read_offsets
    items is_deleted plain_item leaf_item leaf_records among visit_leaf visit_inner visit_page visit
    walk
image_read = refl

bdb_btree_records-Stops_example : bdb_btree_records image ≢ err out_of_fuel
bdb_btree_records-Stops_example = bdb_btree_records-Stops image

bdb_btree_records-flatten_example :
    (bdb_btree_records image ≡ ok (record_1 ∷ []))
    ↔ ((t : Tree) × IsImageOf image t × ((record_1 ∷ []) ≡ flatten t))
bdb_btree_records-flatten_example = bdb_btree_records-flatten image (record_1 ∷ [])

abbrev broken : Bytes
broken = metadata ++ leaf_of 255 255

abbrev start : Walk
start = record { seen = []; records = [] }

visit-struct_error_example : visit (walk broken 512 2) broken 512 1 start ≡ err struct_error
unfolding page u32 u16 little_endian byte_at among
visit-struct_error_example =
    visit-struct_error (walk broken 512 2) broken 512 1 start {content = leaf_of 255 255} {kind = 5}
      {n = 65535} refl refl refl (inr refl) refl (omega arith) (omega arith)

canonical_records_injective_example : record_1 ∷ [] ≡ record_1 ∷ []
canonical_records_injective_example =
    canonical_records_injective (record_1 ∷ []) (record_1 ∷ [])
      ((omega arith, (omega arith, (omega arith, tt))), tt)
      ((omega arith, (omega arith, (omega arith, tt))), tt) refl

-- A RELATIVE file of three slots of two bytes, whose second record was deleted.
abbrev slots : List Slot
slots = live (65 ∷ 66 ∷ []) ∷ empty (67 ∷ 68 ∷ []) ∷ live (69 ∷ 70 ∷ []) ∷ []

slots_read :
    gnucobol_relative_records (encode slots) ≡ ok ((1, 65 ∷ 66 ∷ []) ∷ (3, 69 ∷ 70 ∷ []) ∷ [])
unfolding gnucobol_relative_records read_sizes all_sizes is_layout layout_of_length layouts_from
    live_slots by_layout encode le_bytes little_endian
slots_read = refl

gnucobol_relative_records-encode_example :
    (gnucobol_relative_records (encode slots) ≡ ok (records_of 1 slots))
    ⊎ (gnucobol_relative_records (encode slots) ≡ err several_layouts)
gnucobol_relative_records-encode_example =
    gnucobol_relative_records-encode 2 (omega arith) (omega arith) slots (refl, (refl, (refl, tt)))
      (inl tt)
