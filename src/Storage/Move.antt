-- ===== src/Storage/Move.antt =====
-- MOVE into a group: `group_move_problem` of engine/transformation/group_storage.py, and the Java
-- that `_group_view_expression` and `_group_move_statements` of cobol_to_java_mapping.py write for it.
-- A conversion of `String.format` stands with its argument, and a Java field goes by the upper-case
-- name of its COBOL item.
pub mod Run
pub mod Exact
use cobol_java_transformatio.Common.{
  ℕ, zero, suc, ◌+◌, ◌-◌, Bool, true, false, not, ◌&&◌, ◌||◌, Option, none, some, List, [], ◌∷◌,
  ◌++◌, map, any, is_empty, ◌==◌, if◌then◌else◌, length, Result, ok, err, ◌>>=◌, ◌>>◌, raise_if,
}
use cobol_java_transformatio.Common.Bytes.{Bytes, bytes_eq, take, drop}
use cobol_java_transformatio.Numeric.Literal.{rstrip_by}
use cobol_java_transformatio.Storage.Item.{
  DataItem, Items, about, upper, strip, is_alphanumeric, is_group, find_item,
}
use cobol_java_transformatio.Storage.Figurative.{repeat}
use cobol_java_transformatio.Storage.Layout.{
  GroupLeaf, GroupLayout, Problem, total, writable, fit, but_last, is_quoted, printable_fill,
  group_layout,
}
use cobol_java_transformatio.Storage.Layout.Names.{leaf_names}

-- `ref.split("(", 1)[0]`, and `"(" in ref`
unfoldable pub before_parenthesis : Bytes → Bytes
before_parenthesis [] = []
before_parenthesis (c ∷ s) = let rest = before_parenthesis s in if c == 40 then [] else c ∷ rest

abbrev pub is_qualified : Bytes → Bool
is_qualified s = any (λ c. c == 40) s

abbrev pub trimmed : Bytes → Bytes
trimmed ref = rstrip_by (λ c. c == 46) (strip ref)

-- `_base`
unfoldable pub base : Bytes → Bytes
base ref = upper (strip (before_parenthesis (trimmed ref)))

-- `group_move_problem`, the branch of a target that is a group
pub data MoveProblem : Type 0 where
  layout_problem : Problem → MoveProblem
  qualified_group needs_text_fields : Bytes → MoveProblem
  source_not_certified overlapping_groups : Bytes → Bytes → MoveProblem

abbrev pub lift : {A : Type 0} → Result Problem A → Result MoveProblem A
lift (ok a) = ok a
lift (err p) = err (layout_problem p)

-- `a & b` of two sets of names is not empty
unfoldable pub overlap : List Bytes → List Bytes → Bool
overlap [] ys = false
overlap (x ∷ xs) ys = any (bytes_eq x) ys || overlap xs ys

-- What is written: a text, the characters of a field, or those of a group.
pub data Segment : Type 0 where
  constant : Bytes → Segment
  digits text : ℕ → Bytes → Segment

pub data Source : Type 0 where
  literal : Bytes → Source
  variable : Bytes → Source
  view : List Segment → Source

-- the field of a leaf that is no FILLER
abbrev pub field_of : GroupLeaf → Bytes
field_of l = elim (l.name) [ none ↦ [] | some n ↦ upper n ]

-- `_group_view_expression`
unfoldable pub segment : GroupLeaf → Segment
segment l = elim (l.constant) [
  | some c ↦ constant c
  | none ↦ if l.numeric then digits l.width (field_of l) else text l.width (field_of l)
]

abbrev pub group_view_expression : GroupLayout → List Segment
group_view_expression layout = map segment layout.leaves

-- a source that is an item: a group with a layout apart from the target's, or a text field outside it
unfoldable pub item_source :
    Items → Bytes → Bytes → GroupLayout → DataItem → Result MoveProblem Source
item_source program source target layout i =
    if is_group i
    then (do
      source_layout ← lift (group_layout program (base source))
      raise_if (overlap (leaf_names source_layout.leaves) (leaf_names layout.leaves))
          (overlapping_groups (base source) target)
      ok (view (group_view_expression source_layout)))
    else if is_alphanumeric (about i)
        && not ((about i).pic_length == 0)
        && not (any (bytes_eq (base source)) (leaf_names layout.leaves))
    then ok (variable (base source))
    else err (source_not_certified source target)

-- the constant text of a source, over the width
unfoldable pub constant_source : Bytes → ℕ → Option Bytes
constant_source source width =
    if is_quoted (strip source)
    then some (fit width (but_last (drop 1 (strip source))))
    else printable_fill (strip source) width

-- the choice of the source, with the checks of `group_move_problem` on it
unfoldable pub source_of : Items → Bytes → Bytes → GroupLayout → Result MoveProblem Source
source_of program source target layout = elim (constant_source source (total layout.leaves)) [
  | some c ↦ ok (literal c)
  | none ↦
      if is_qualified (trimmed source)
      then err (source_not_certified source target)
      else elim (find_item program (base source)) [
        | none ↦ err (source_not_certified source target)
        | some i ↦ item_source program source target layout i
      ]
]

-- One assignment to the field of a leaf, of a part of the source's characters.
pub record Assignment : Type 0 where
  pub target : Bytes
  pub source : Source
  pub start : ℕ
  pub stop : ℕ

abbrev pub assignment : Source → GroupLeaf → Assignment
assignment s l = record {
  target = field_of l;
  source = s;
  start = l.offset;
  stop = l.offset + l.width;
}

-- `MOVE source TO target`, where the target is a group: the width to which the source is padded, and
-- the assignments in order.
unfoldable pub move_into_group : Items → Bytes → Bytes → Result MoveProblem (ℕ × List Assignment)
move_into_group program source target = do
  raise_if (is_qualified (trimmed target)) (qualified_group (base target))
  layout ← lift (group_layout program (base target))
  raise_if (not (writable layout.leaves)) (needs_text_fields (base target))
  from ← source_of program source target layout
  ok (total layout.leaves, map (assignment from) layout.leaves)

-- The Java fields by name: the characters of a text, the decimal digits of a number.
abbrev pub Fields : Type 0
Fields = Bytes → Bytes

unfoldable pub store : Bytes → Bytes → Fields → Fields
store k v fields j = if bytes_eq j k then v else fields j

-- `String.format` with `%0nd` of a number and `%-n.ns` of a text
abbrev pub zero_fill : ℕ → Bytes → Bytes
zero_fill n s = repeat (n - length s) (48 ∷ []) ++ s

unfoldable pub characters_of : List Segment → Fields → Bytes
characters_of [] fields = []
characters_of (constant c ∷ segments) fields = c ++ characters_of segments fields
characters_of (digits n k ∷ segments) fields =
    zero_fill n (fields k) ++ characters_of segments fields
characters_of (text n k ∷ segments) fields = fit n (fields k) ++ characters_of segments fields

-- what a source gives for the width, in the fields of the moment
unfoldable pub source_text : ℕ → Source → Fields → Bytes
source_text width (literal c) fields = c
source_text width (variable k) fields = fit width (fields k)
source_text width (view segments) fields = fit width (characters_of segments fields)

-- The assignments one after another, each of a `substring`.
unfoldable pub run : ℕ → List Assignment → Fields → Fields
run width [] fields = fields
run width (a ∷ assignments) fields = run width assignments (
    store a.target (take (a.stop - a.start) (drop a.start (source_text width a.source fields)))
      fields)
