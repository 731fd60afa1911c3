-- ===== src/Examples/Overlays.antt =====
-- A date redefined by its parts, and the theorems on the plan of its views.
use cobol_java_transformatio.Common.{
  ℕ, ◌≡◌, refl, false, none, some, Option, List, [], ◌∷◌, map, All, ok, ◌+◌,
}
use cobol_java_transformatio.Common.Bytes.{Bytes, codes, bytes_eq, bytes_le}
use cobol_java_transformatio.Common.Dict.{put, get?, put_new}
use cobol_java_transformatio.Comparators.Policy.{insert}
use cobol_java_transformatio.Numeric.Literal.{lstrip_by, rstrip_by}
use cobol_java_transformatio.Storage.Item.{
  PicType, Description, DataItem, about, item, Items, no_items, items, upper_name, item_and_below,
}
use cobol_java_transformatio.Storage.Figurative.{
  canonical_figurative, ends_with, is_between, parse_stripped, parse_all, parse_figurative_constant,
  repeat,
}
use cobol_java_transformatio.Storage.Redefines.{
  RedefinesView, Member, is_condition_name, certified_member, group_members, is_digits, last_of,
  rjust, initial_bytes, name_items, items_by_name, sorted_keys, hide, children_width, check_digits,
  overlay, put_members, overlaid, redefine, plan_key, plan_keys, unsupported_bases, keep_certified,
  hide_problems, build_redefines_plan,
}
use cobol_java_transformatio.Storage.Redefines.Plan.{IsView, build_redefines_plan-IsView}
use cobol_java_transformatio.Storage.Redefines.Nested.{
  append_items, AreBehind, widths, IsMember, group_members-AreBehind,
}

abbrev number : Bytes → ℕ → Option Bytes → Option Bytes → Description
number name width value redefines = record {
  name = name;
  level = 5;
  pic_type = PicType.numeric;
  pic_length = width;
  decimal_places = 0;
  signed = false;
  value = value;
  occurs = none;
  occurs_depending_on = none;
  redefines = redefines;
  usage = none;
}

-- 01 D PIC 9(6) VALUE 202611.  01 P REDEFINES D. 05 Y PIC 9(4). 05 M PIC 9(2).
abbrev parts : Items
parts =
    items (item (number (codes "Y") 4 none none) no_items)
      (items (item (number (codes "M") 2 none none) no_items) no_items)

abbrev storage : Items
storage =
    items (item (number (codes "D") 6 (some (codes "202611")) none) no_items)
      (items (item (number (codes "P") 0 none (some (codes "D"))) parts) no_items)

abbrev summary : Bytes × RedefinesView → Bytes × ℕ × Bytes
summary (key, v) = (key, v.offset, v.initial)

storage_planned :
    map summary (build_redefines_plan storage).views
    ≡ (codes "D", 0, codes "202611")
      ∷ (codes "Y", 0, codes "2026")
      ∷ (codes "M", 4, codes "11")
      ∷ []
unfolding build_redefines_plan plan_keys plan_key redefine overlaid overlay certified_member
    group_members is_digits last_of rjust initial_bytes name_items items_by_name sorted_keys hide
    children_width check_digits put_members unsupported_bases keep_certified hide_problems put get?
    put_new insert upper_name item_and_below parse_figurative_constant parse_stripped
    canonical_figurative ends_with is_between parse_all repeat lstrip_by rstrip_by bytes_eq bytes_le
storage_planned = refl

build_redefines_plan-IsView_example :
    All
      (λ (e : Bytes × RedefinesView). IsView (items_by_name storage) e.1)
      (build_redefines_plan storage).views
build_redefines_plan-IsView_example = build_redefines_plan-IsView storage

-- 05 Y PIC 9(4). 05 M REDEFINES Y PIC 9(2).
abbrev nested : Items
nested =
    items (item (number (codes "Y") 4 none none) no_items)
      (items (item (number (codes "M") 2 none (some (codes "Y"))) no_items) no_items)

abbrev member : Bytes → ℕ → Option Bytes → ℕ → Member
member name width redefines offset = record {
  about = number name width none redefines;
  offset = offset;
}

abbrev nested_members : List Member
nested_members = member (codes "Y") 4 none 0 ∷ member (codes "M") 2 (some (codes "Y")) 4 ∷ []

nested_placed : group_members nested 0 ≡ ok nested_members
unfolding group_members certified_member upper_name bytes_eq
nested_placed = refl

group_members-AreBehind_example :
    AreBehind 0 nested_members
    × ((before : Items) (i : DataItem) (after : Items)
        → nested ≡ append_items before (items i after)
        → is_condition_name i ≡ false
        → bytes_eq (upper_name i) (codes "FILLER") ≡ false
        → IsMember (record { about = about i; offset = 0 + widths before }) nested_members)
group_members-AreBehind_example = group_members-AreBehind nested 0 nested_members nested_placed
