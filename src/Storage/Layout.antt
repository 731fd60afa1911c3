-- ===== src/Storage/Layout.antt =====
-- engine/transformation/group_storage.py: the layout of a group item over its elementary items. A
-- reason for which there is none is data, a constructor for each text.
pub mod Packed
pub mod Names
pub mod Exact
use cobol_java_transformatio.Common.{
  ℕ, zero, suc, ◌+◌, ◌-◌, Bool, true, false, not, ◌&&◌, ◌||◌, Option, none, some, List, [], ◌∷◌,
  ◌++◌, map, any, filter, is_empty, ◌==◌, if◌then◌else◌, length, leb, ltb, Result, ok, err, ◌>>=◌,
  ◌>>◌, raise_if,
}
use mathlib.Core.Option
use cobol_java_transformatio.Common.Bytes.{Bytes, bytes_eq, codes, take, drop}
use cobol_java_transformatio.Storage.Item.{
  PicType, Description, DataItem, item, Items, no_items, items, about, children_of, upper, strip,
  is_set_number, is_set, is_alphanumeric, is_numeric, iter_data_items, is_group, upper_name,
  find_item,
}
use cobol_java_transformatio.Storage.Figurative.{
  Kind, zero_constant, spaces, quotes, low_value, high_value, all, is_between,
  parse_figurative_constant, figurative_to_width,
}

pub record GroupLeaf : Type 0 where
  pub name : Option Bytes
  pub offset : ℕ
  pub width : ℕ
  pub numeric : Bool
  pub constant : Option Bytes

pub record GroupLayout : Type 0 where
  pub name : Bytes
  pub leaves : List GroupLeaf

-- `GroupLayout.length`
unfoldable pub total : List GroupLeaf → ℕ
total [] = 0
total (l ∷ leaves) = l.width + total leaves

abbrev pub is_named : GroupLeaf → Bool
is_named l = elim (l.name) [ none ↦ false | some n ↦ not (is_empty n) ]

unfoldable pub writable : List GroupLeaf → Bool
writable [] = true
writable (l ∷ leaves) = is_named l && not l.numeric && writable leaves

pub data Problem : Type 0 where
  not_a_group takes_part group_occurs_or_usage no_elementary_items : Bytes → Problem
  has_occurs redefines_part has_usage no_pic not_unique not_certified : Bytes → Problem
  filler_not_text : Problem
  filler_value : Option Bytes → Problem

-- `text[:n].ljust(n)`
unfoldable pub fit : ℕ → Bytes → Bytes
fit zero text = []
fit (suc n) [] = 32 ∷ fit n []
fit (suc n) (c ∷ text) = c ∷ fit n text

abbrev pub printable : Kind → Bool
printable spaces = true
printable zero_constant = true
printable quotes = true
printable all = true
printable low_value = false
printable high_value = false

unfoldable pub printable_fill : Bytes → ℕ → Option Bytes
printable_fill text width = elim (parse_figurative_constant text) [
  | none ↦ none
  | some (kind, fill) ↦ if printable kind then figurative_to_width kind fill width else none
]

-- the last character dropped: `raw[:-1]`
unfoldable pub but_last : Bytes → Bytes
but_last [] = []
but_last (c ∷ []) = []
but_last (c ∷ d ∷ s) = c ∷ but_last (d ∷ s)

abbrev pub is_quoted : Bytes → Bool
is_quoted raw = is_between 34 raw || is_between 39 raw

-- the text of a VALUE between quotes, or that of a figurative constant
unfoldable pub value_text : Bytes → ℕ → Option Bytes
value_text raw width =
    if is_quoted raw then some (but_last (drop 1 raw)) else printable_fill raw width

unfoldable pub filler_constant : Description → Option Bytes
filler_constant d = elim (d.value) [
  | none ↦ some (fit d.pic_length [])
  | some value ↦ Option.map (fit d.pic_length) (value_text (strip value) d.pic_length)
]

-- the leaves found so far, and the offset behind them
pub record Layouting : Type 0 where
  pub leaves : List GroupLeaf
  pub offset : ℕ

abbrev pub add_leaf : Option Bytes → ℕ → Bool → Option Bytes → Layouting → Layouting
add_leaf name width numeric constant l = record {
  leaves =
      l.leaves
      ++ record {
        name = name;
        offset = l.offset;
        width = width;
        numeric = numeric;
        constant = constant;
      }
        ∷ [];
  offset = l.offset + width;
}

abbrev pub count : Bytes → List Bytes → ℕ
count k [] = 0
count k (x ∷ xs) = let rest = count k xs in if bytes_eq x k then suc rest else rest

unfoldable pub visit_filler : Description → Layouting → Result Problem Layouting
visit_filler d l =
    if not (is_alphanumeric d) then err filler_not_text else elim (filler_constant d) [
      | none ↦ err (filler_value d.value)
      | some constant ↦ ok (add_leaf none d.pic_length false (some constant) l)
    ]

unfoldable pub visit_named : List Bytes → Description → Layouting → Result Problem Layouting
visit_named names d l =
    if not (count (upper d.name) names == 1)
    then err (not_unique d.name)
    else if is_alphanumeric d
    then ok (add_leaf (some d.name) d.pic_length false none l)
    else if is_numeric d && not d.signed && d.decimal_places == 0 && leb d.pic_length 18
    then ok (add_leaf (some d.name) d.pic_length true none l)
    else err (not_certified d.name)

unfoldable pub visit_leaf : List Bytes → Description → Layouting → Result Problem Layouting
visit_leaf names d l = do
  raise_if (d.pic_length == 0) (no_pic d.name)
  if bytes_eq (upper d.name) (codes "FILLER") then visit_filler d l else visit_named names d l

-- the clauses that no item of a layout may have
unfoldable pub check_clauses : List Bytes → Description → Result Problem (Unit {0})
check_clauses redefined d = do
  raise_if (is_set_number d.occurs || is_set d.occurs_depending_on) (has_occurs d.name)
  raise_if (is_set d.redefines || any (bytes_eq (upper d.name)) redefined) (redefines_part d.name)
  raise_if (is_set d.usage) (has_usage d.name)

unfoldable mutual
  pub visit : List Bytes → List Bytes → DataItem → Layouting → Result Problem Layouting
  visit names redefined (item d children) l =
      let below = visit_all names redefined children l in
      if d.level == 88
      then ok l
      else check_clauses redefined d
        >> (if is_group (item d children) then below else visit_leaf names d l)

  pub visit_all : List Bytes → List Bytes → Items → Layouting → Result Problem Layouting
  visit_all names redefined no_items l = ok l
  visit_all names redefined (items i rest) l = do
    l' ← visit names redefined i l
    visit_all names redefined rest l'

-- `{(i.redefines or "").upper() for i in ... if i.redefines}`
unfoldable pub redefined_names : List DataItem → List Bytes
redefined_names [] = []
redefined_names (i ∷ all_items) =
    let rest = redefined_names all_items in
    elim ((about i).redefines) [
      | none ↦ rest
      | some r ↦ if is_empty r then rest else upper r ∷ rest
    ]

unfoldable pub layout_of : Items → DataItem → Result Problem GroupLayout
layout_of program group = do
  let names = map upper_name (iter_data_items program)
  let redefined = redefined_names (iter_data_items program)
  raise_if (is_set (about group).redefines || any (bytes_eq (upper_name group)) redefined)
      (takes_part (about group).name)
  raise_if (is_set_number (about group).occurs || is_set (about group).usage)
      (group_occurs_or_usage (about group).name)
  l ← visit_all names redefined (children_of group) record { leaves = []; offset = 0 }
  raise_if (is_empty l.leaves) (no_elementary_items (about group).name)
  ok record { name = (about group).name; leaves = l.leaves }

unfoldable pub group_layout : Items → Bytes → Result Problem GroupLayout
group_layout program name = elim (find_item program name) [
  | none ↦ err (not_a_group name)
  | some group ↦ if is_group group then layout_of program group else err (not_a_group name)
]
