-- ===== src/Examples/Groups.antt =====
-- A small WORKING-STORAGE with one group, and the theorems at it.
use cobol_java_transformatio.Common.{ℕ, ◌≡◌, refl, false, none, some, [], ◌∷◌, List, ok, length}
use cobol_java_transformatio.Common.Bytes.{Bytes, codes, bytes_eq}
use cobol_java_transformatio.Numeric.Literal.{lstrip_by, rstrip_by}
use cobol_java_transformatio.Storage.Item.{
  PicType, DataItem, item, Items, no_items, items, item_and_below, iter_data_items,
  has_storage_below, is_group, upper_name, find_item,
}
use cobol_java_transformatio.Storage.Figurative.{
  all, canonical_figurative, ends_with, is_between, parse_all, parse_stripped,
  parse_figurative_constant, repeat, repeated_to, characters, figurative_to_width,
}
use cobol_java_transformatio.Storage.Figurative.Width.{figurative_to_width-length}
use cobol_java_transformatio.Storage.Layout.{
  GroupLayout, total, writable, printable_fill, visit_named, visit_leaf, check_clauses, visit,
  visit_all, redefined_names, layout_of, group_layout, count,
}
use cobol_java_transformatio.Storage.Layout.Names.{leaf_names}
use cobol_java_transformatio.Storage.Move.{
  before_parenthesis, base, Source, variable, group_view_expression, item_source, constant_source,
  source_of, Assignment, move_into_group, Fields, characters_of, source_text, run,
}
use cobol_java_transformatio.Storage.Move.Exact.{move_into_group-view}

abbrev text_item : Bytes → ℕ → ℕ → Items → DataItem
text_item name level width children =
    item
      (record {
        name = name;
        level = level;
        pic_type = PicType.alphanumeric;
        pic_length = width;
        decimal_places = 0;
        signed = false;
        value = none;
        occurs = none;
        occurs_depending_on = none;
        redefines = none;
        usage = none;
      })
      children

abbrev program : Items
program =
    items
      (text_item (codes "REC") 1 0 (
        items (text_item (codes "Key") 5 3 no_items)
          (items (text_item (codes "REST") 5 2 no_items) no_items)))
      (items (text_item (codes "SRC") 1 4 no_items) no_items)

abbrev layout : GroupLayout
layout = record {
  name = codes "REC";
  leaves =
      record { name = some (codes "Key"); offset = 0; width = 3; numeric = false; constant = none }
      ∷ record {
        name = some (codes "REST");
        offset = 3;
        width = 2;
        numeric = false;
        constant = none;
      }
      ∷ [];
}

abbrev assignments : List Assignment
assignments =
    record { target = codes "KEY"; source = variable (codes "SRC"); start = 0; stop = 3 }
    ∷ record { target = codes "REST"; source = variable (codes "SRC"); start = 3; stop = 5 }
    ∷ []

move : move_into_group program (codes "SRC") (codes "REC") ≡ ok (5, assignments)
unfolding move_into_group base before_parenthesis source_of constant_source item_source is_between
    ends_with printable_fill parse_figurative_constant parse_stripped canonical_figurative parse_all
    total writable group_layout find_item upper_name iter_data_items item_and_below lstrip_by
    rstrip_by bytes_eq is_group has_storage_below layout_of redefined_names visit_all visit
    check_clauses visit_leaf visit_named
move = refl

abbrev fields : Fields
fields k = codes "ABCD"

move_into_group-view_example :
    (layout : GroupLayout) × (from : Source) × (group_layout program (base (codes "REC"))
      ≡ ok layout)
    × (source_of program (codes "SRC") (codes "REC") layout ≡ ok from)
    × (characters_of (group_view_expression layout) (run 5 assignments fields)
        ≡ source_text 5 from fields)
    × ((k : Bytes) → count k (leaf_names layout.leaves) ≡ 0 → run 5 assignments fields k ≡ fields k)
move_into_group-view_example = move_into_group-view program (codes "SRC") (codes "REC") move fields

three_and_a_half : figurative_to_width all (some (codes "ABC")) 10 ≡ some (codes "ABCABCABCA")
unfolding figurative_to_width characters repeated_to repeat
three_and_a_half = refl

figurative_to_width-length_example : length (codes "ABCABCABCA") ≡ 10
figurative_to_width-length_example =
    figurative_to_width-length all (some (codes "ABC")) 10 three_and_a_half
