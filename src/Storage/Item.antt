-- ===== src/Storage/Item.antt =====
-- `DataItem` of engine/transformation/ir.py, and the searches of group_storage.py. Items form a tree:
-- no item object stands in two places.
use cobol_java_transformatio.Common.{
  ℕ, Bool, true, false, not, ◌&&◌, ◌||◌, Option, none, some, List, [], ◌∷◌, ◌++◌, map, filter,
  is_empty, ◌==◌,
}
use cobol_java_transformatio.Common.Bytes.{Bytes, bytes_eq}
use cobol_java_transformatio.Numeric.Literal.{upper_code, strip_by, is_white}

pub data PicType : Type 0 where
  alphanumeric numeric : PicType

-- the fields of a `DataItem` but its children
pub record Description : Type 0 where
  pub name : Bytes
  pub level : ℕ
  pub pic_type : PicType
  pub pic_length : ℕ
  pub decimal_places : ℕ
  pub signed : Bool
  pub value : Option Bytes
  pub occurs : Option ℕ
  pub occurs_depending_on : Option Bytes
  pub redefines : Option Bytes
  pub usage : Option Bytes

mutual
  pub data DataItem : Type 0 where
    item : Description → Items → DataItem

  pub data Items : Type 0 where
    no_items : Items
    items : DataItem → Items → Items

abbrev pub about : DataItem → Description
about (item d children) = d

abbrev pub children_of : DataItem → Items
children_of (item d children) = children

-- `s.upper()` and `s.strip()`
abbrev pub upper : Bytes → Bytes
upper s = map upper_code s

abbrev pub strip : Bytes → Bytes
strip s = strip_by is_white s

-- the truth values of an optional number and an optional text
abbrev pub is_set_number : Option ℕ → Bool
is_set_number none = false
is_set_number (some n) = not (n == 0)

abbrev pub is_set : Option Bytes → Bool
is_set none = false
is_set (some s) = not (is_empty s)

abbrev pub is_alphanumeric : Description → Bool
is_alphanumeric d = elim (d.pic_type) [ PicType.alphanumeric ↦ true | PicType.numeric ↦ false ]

abbrev pub is_numeric : Description → Bool
is_numeric d = elim (d.pic_type) [ PicType.alphanumeric ↦ false | PicType.numeric ↦ true ]

-- depth first, an item before its children
unfoldable mutual
  pub item_and_below : DataItem → List DataItem
  item_and_below (item d children) = item d children ∷ iter_data_items children

  pub iter_data_items : Items → List DataItem
  iter_data_items no_items = []
  iter_data_items (items i rest) = item_and_below i ++ iter_data_items rest

unfoldable pub has_storage_below : Items → Bool
has_storage_below no_items = false
has_storage_below (items i rest) = not ((about i).level == 88) || has_storage_below rest

unfoldable pub is_group : DataItem → Bool
is_group (item d children) = not (d.level == 88) && has_storage_below children

-- the only one of a list
abbrev pub only {ℓ} : {A : Type ℓ} → List A → Option A
only [] = none
only (x ∷ []) = some x
only (x ∷ y ∷ xs) = none

unfoldable pub upper_name : DataItem → Bytes
upper_name i = upper (about i).name

unfoldable pub find_item : Items → Bytes → Option DataItem
find_item all name =
    only (filter (λ i. bytes_eq (upper_name i) (upper (strip name))) (iter_data_items all))
