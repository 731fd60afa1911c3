-- ===== src/Storage/Redefines.antt =====
-- engine/transformation/redefines.py: the views that REDEFINES clauses give over the bytes of one item.
-- A reason is data, a constructor for each text; a set of names is the list of its members.
pub mod Bytewise
pub mod Overlay
pub mod Plan
pub mod Nested
use cobol_java_transformatio.Common.{
  ℕ, zero, suc, ◌+◌, ◌-◌, Bool, true, false, not, ◌&&◌, ◌||◌, Option, none, some, List, [], ◌∷◌,
  ◌++◌, map, any, is_empty, ◌==◌, if◌then◌else◌, length, ltb, Result, ok, err, ◌>>=◌, ◌>>◌,
  raise_if,
}
use cobol_java_transformatio.Common.Bytes.{Bytes, bytes_eq, codes, take, drop}
use cobol_java_transformatio.Common.Dict.{put, get?, put_new}
use cobol_java_transformatio.Comparators.Policy.{insert}
use cobol_java_transformatio.Numeric.Literal.{is_digit, is_quote, strip_by}
use cobol_java_transformatio.Storage.Item.{
  PicType, Description, DataItem, item, Items, no_items, items, about, children_of, upper, strip,
  is_set, is_numeric, item_and_below, upper_name,
}
use cobol_java_transformatio.Storage.Figurative.{
  Kind, parse_figurative_constant, figurative_to_width, repeat,
}
use cobol_java_transformatio.Storage.Layout.{fit}

pub record RedefinesView : Type 0 where
  pub name : Bytes
  pub base : Bytes
  pub length : ℕ
  pub initial : Bytes
  pub offset : ℕ
  pub numeric : Bool

pub data Reason : Type 0 where
  is_a_group has_occurs has_usage signed_or_scaled no_pic_width : Bytes → Reason
  not_resolved chained wider_than_base base_not_digits view_not_digits sibling_not_certified :
      Bytes → Reason

pub record RedefinesPlan : Type 0 where
  pub views : List (Bytes × RedefinesView)
  pub problems : List (Bytes × Reason)
  pub hidden : List Bytes

abbrev pub has_children : Items → Bool
has_children no_items = false
has_children (items i rest) = true

abbrev pub is_given : Option ℕ → Bool
is_given none = false
is_given (some n) = true

-- `_is_certified_member`; the error is the reason
unfoldable pub certified_member : DataItem → Result Reason (Unit {0})
certified_member i = do
  let d = about i
  raise_if (has_children (children_of i)) (is_a_group d.name)
  raise_if (is_given d.occurs) (has_occurs d.name)
  raise_if (is_set d.usage) (has_usage d.name)
  raise_if (is_numeric d && (d.signed || not (d.decimal_places == 0))) (signed_or_scaled d.name)
  raise_if (d.pic_length == 0) (no_pic_width d.name)

abbrev pub is_condition_name : DataItem → Bool
is_condition_name i = (about i).level == 88

-- an item with its offset in the shared bytes
pub record Member : Type 0 where
  pub about : Description
  pub offset : ℕ

-- `_group_members`
unfoldable pub group_members : Items → ℕ → Result Reason (List Member)
group_members no_items offset = ok []
group_members (items i rest) offset =
    let skipped = group_members rest offset in
    let found =
      certified_member i
      >> (group_members rest (offset + (about i).pic_length) >>= λ ms. ok (
          if bytes_eq (upper_name i) (codes "FILLER")
          then ms
          else record { about = about i; offset = offset } ∷ ms)) in
    if is_condition_name i then skipped else found

-- `s.isdigit()`, `s[-n:]` for a positive n, and `s.rjust(n, "0")`
unfoldable pub is_digits : Bytes → Bool
is_digits s = not (is_empty s) && not (any (λ c. not (is_digit c)) s)

unfoldable pub last_of : ℕ → Bytes → Bytes
last_of n s = drop (length s - n) s

unfoldable pub rjust : ℕ → Bytes → Bytes
rjust n s = repeat (n - length s) (48 ∷ []) ++ s

-- the VALUE of a number, `item.value or "0"`
abbrev pub value_or_zero : Option Bytes → Bytes
value_or_zero none = codes "0"
value_or_zero (some v) = if is_empty v then codes "0" else v

abbrev pub plain_value : Bytes → Bytes
plain_value raw = elim (parse_figurative_constant raw) [
  | none ↦ raw
  | some (kind, fill) ↦ codes "0"
]

-- the text that a VALUE says, before it is padded or cut
unfoldable pub initial_text : Description → Bytes
initial_text d = elim (d.value) [
  | none ↦ []
  | some value ↦ if is_empty value then [] else elim (parse_figurative_constant value) [
    | none ↦ strip_by is_quote value
    | some (kind, fill) ↦ elim (figurative_to_width kind fill d.pic_length) [
      | none ↦ []
      | some filled ↦ filled
    ]
  ]
]

-- `_alphanumeric_initial`
unfoldable pub alphanumeric_initial : Description → Bytes
alphanumeric_initial d = fit d.pic_length (initial_text d)

-- `_initial_bytes`
unfoldable pub initial_bytes : Description → Option Bytes
initial_bytes d =
    let raw = plain_value (strip (value_or_zero d.value)) in
    if not (is_numeric d)
    then some (alphanumeric_initial d)
    else if not (is_digits raw)
    then none
    else some (rjust d.pic_length (last_of d.pic_length raw))

-- The nested `visit`: the first item of each upper-case name.
unfoldable mutual
  pub name_items : Items → List (Bytes × DataItem) → List (Bytes × DataItem)
  name_items no_items names = names
  name_items (items i rest) names = name_items rest (name_item i names)

  pub name_item : DataItem → List (Bytes × DataItem) → List (Bytes × DataItem)
  name_item (item d children) names =
      let below = name_items children (put_new (upper d.name) (item d children) names) in
      if d.level == 88 then names else below

-- `sorted(by_name)`
unfoldable pub sorted_keys : List (Bytes × DataItem) → List Bytes
sorted_keys [] = []
sorted_keys ((k, i) ∷ names) = insert k (sorted_keys names)

-- `hide`
unfoldable pub hide : DataItem → List Bytes → List Bytes
hide i hidden = hidden ++ map upper_name (item_and_below i)

abbrev pub members_of : DataItem → Result Reason (List Member)
members_of (item d no_items) =
    certified_member (item d no_items) >> ok (record { about = d; offset = 0 } ∷ [])
members_of (item d (items i rest)) = group_members (items i rest) 0

unfoldable pub children_width : Items → ℕ
children_width no_items = 0
children_width (items i rest) =
    if (about i).level == 88
    then children_width rest
    else (about i).pic_length + children_width rest

abbrev pub item_width : DataItem → ℕ
item_width (item d no_items) = d.pic_length
item_width (item d (items i rest)) = children_width (items i rest)

abbrev pub part_of : Bytes → Member → Bytes
part_of initial m = take m.about.pic_length (drop m.offset initial)

unfoldable pub check_digits : Bytes → List Member → Result Reason (Unit {0})
check_digits initial [] = ok tt
check_digits initial (m ∷ ms) =
    raise_if (is_numeric m.about && not (is_digits (part_of initial m)))
      (view_not_digits m.about.name)
    >> check_digits initial ms

abbrev pub initial_of : Description → Result Reason Bytes
initial_of d = elim (initial_bytes d) [
  | none ↦ err (base_not_digits d.name)
  | some initial ↦ ok initial
]

-- The initial bytes of the base and the members of the item over it, or a reason.
unfoldable pub overlay : DataItem → DataItem → Result Reason (Bytes × List Member)
overlay base i = do
  raise_if (is_set (about base).redefines) (chained (about i).name)
  certified_member base
  members ← members_of i
  raise_if (ltb (about base).pic_length (item_width i)) (wider_than_base (about i).name)
  initial ← initial_of (about base)
  check_digits initial members
  ok (initial, members)

abbrev pub base_view : Description → Bytes → RedefinesView
base_view d initial = record {
  name = d.name;
  base = d.name;
  length = d.pic_length;
  initial = initial;
  offset = 0;
  numeric = is_numeric d;
}

abbrev pub member_view : Description → Bytes → Member → RedefinesView
member_view d initial m = record {
  name = m.about.name;
  base = d.name;
  length = m.about.pic_length;
  initial = part_of initial m;
  offset = m.offset;
  numeric = is_numeric m.about;
}

unfoldable pub put_members :
    Description → Bytes → List Member → List (Bytes × RedefinesView) → List (Bytes × RedefinesView)
put_members d initial [] views = views
put_members d initial (m ∷ ms) views =
    put_members d initial ms (put (upper m.about.name) (member_view d initial m) views)

abbrev pub hide_group : Bytes → DataItem → List Bytes → List Bytes
hide_group key i hidden = if has_children (children_of i) then hidden ++ key ∷ [] else hidden

unfoldable pub overlaid :
    Bytes
    → Bytes
    → DataItem
    → DataItem
    → Result Reason (Bytes × List Member)
    → RedefinesPlan
    → RedefinesPlan
overlaid key base_key base i (err reason) p = record p {
  problems = put_new base_key reason (put key reason p.problems);
  hidden = hide i p.hidden;
}
overlaid key base_key base i (ok (initial, members)) p = record p {
  views =
      put_members (about base) initial members
        (put base_key (base_view (about base) initial) p.views);
  hidden = hide_group key i p.hidden;
}

-- the round of an item that redefines `base_key`
unfoldable pub redefine :
    List (Bytes × DataItem) → Bytes → DataItem → Bytes → RedefinesPlan → RedefinesPlan
redefine by_name key i base_key p = elim (get? base_key by_name) [
  | none ↦ record p {
    problems = put key (not_resolved (about i).name) p.problems;
    hidden = hide i p.hidden;
  }
  | some base ↦ overlaid key base_key base i (overlay base i) p
]

abbrev pub redefined_key : Option Bytes → Option Bytes
redefined_key none = none
redefined_key (some r) = if is_empty r then none else some (upper r)

abbrev pub key_redefined_by : Option DataItem → Option Bytes
key_redefined_by none = none
key_redefined_by (some i) = redefined_key (about i).redefines

unfoldable pub plan_key : List (Bytes × DataItem) → Bytes → RedefinesPlan → RedefinesPlan
plan_key by_name key p = elim (get? key by_name) [
  | none ↦ p
  | some i ↦ elim (redefined_key (about i).redefines) [
    | none ↦ p
    | some base_key ↦ redefine by_name key i base_key p
  ]
]

unfoldable pub plan_keys : List (Bytes × DataItem) → List Bytes → RedefinesPlan → RedefinesPlan
plan_keys by_name [] p = p
plan_keys by_name (key ∷ keys) p = plan_keys by_name keys (plan_key by_name key p)

-- the bases that an item with a problem redefines
unfoldable pub unsupported_bases : List (Bytes × DataItem) → List (Bytes × Reason) → List Bytes
unsupported_bases by_name [] = []
unsupported_bases by_name ((key, reason) ∷ problems) =
    let rest = unsupported_bases by_name problems in
    elim (key_redefined_by (get? key by_name)) [ none ↦ rest | some base_key ↦ base_key ∷ rest ]

abbrev pub is_unsupported : List Bytes → RedefinesView → Bool
is_unsupported bases v = any (λ b. bytes_eq b (upper v.base)) bases

-- A chain is kept whole or not at all.
unfoldable pub keep_certified :
    List Bytes → List (Bytes × RedefinesView) → RedefinesPlan → RedefinesPlan
keep_certified bases [] p = p
keep_certified bases ((key, v) ∷ views) p = keep_certified bases views (
    if is_unsupported bases v
    then record p { problems = put_new key (sibling_not_certified v.base) p.problems }
    else record p { views = put key v p.views })

unfoldable pub hide_problems :
    List (Bytes × DataItem) → List (Bytes × Reason) → List Bytes → List Bytes
hide_problems by_name [] hidden = hidden
hide_problems by_name ((key, reason) ∷ problems) hidden =
    hide_problems by_name problems
      (elim (get? key by_name) [ none ↦ hidden | some i ↦ hide i hidden ])

unfoldable pub items_by_name : Items → List (Bytes × DataItem)
items_by_name all = name_items all []

abbrev pub no_plan : RedefinesPlan
no_plan = record { views = []; problems = []; hidden = [] }

unfoldable pub build_redefines_plan : Items → RedefinesPlan
build_redefines_plan all =
    let by_name = items_by_name all in
    let p = plan_keys by_name (sorted_keys by_name) no_plan in
    let q =
      keep_certified (unsupported_bases by_name p.problems) p.views (record p { views = [] }) in
    record q { hidden = hide_problems by_name q.problems q.hidden }
