-- ===== src/Storage/Redefines/Nested.antt =====
-- A REDEFINES clause inside a redefining group.
use cobol_java_transformatio.Common.{
  ℕ, ◌+◌, ◌≤◌, ◌≡◌, refl, ap, sym, subst, ◌∙◌, inl, inr, true, false, List, [], ◌∷◌, if◌then◌else◌,
  ◌==◌, Bool-cases, Result, ok, err, ok_injective, ◌>>=◌, ◌>>◌, arith,
}
use cobol_java_transformatio.Common.Bytes.{bytes_eq, codes}
use cobol_java_transformatio.Storage.Item.{DataItem, Items, no_items, items, upper_name, about}
use cobol_java_transformatio.Storage.Redefines.{
  Reason, certified_member, is_condition_name, Member, group_members,
}

-- Each member begins at or behind the end of the one in front of it.
abbrev pub AreBehind : ℕ → List Member → Type 0
AreBehind offset [] = Unit
AreBehind offset (m ∷ ms) = (offset ≤ m.offset) × AreBehind (m.offset + m.about.pic_length) ms

abbrev pub append_items : Items → Items → Items
append_items no_items after = after
append_items (items i rest) after = items i (append_items rest after)

-- the widths of all items, those that redefine another one too, less the condition names
abbrev pub widths : Items → ℕ
widths no_items = 0
widths (items i rest) = (if (about i).level == 88 then 0 else (about i).pic_length) + widths rest

pub data IsMember (m : Member) : List Member → Type 0 where
  here : {ms : List Member} → IsMember m (m ∷ ms)
  there : {n : Member} {ms : List Member} → IsMember m ms → IsMember m (n ∷ ms)

AreBehind-mono : (a b : ℕ) (ms : List Member) → a ≤ b → AreBehind b ms → AreBehind a ms
AreBehind-mono a b [] h k = tt
AreBehind-mono a b (m ∷ ms) h k = (omega (arith, h, k.0), k.1)

-- A round that succeeds: what it skips, leaves out, or puts in front of the members behind it.
data Round (i : DataItem) (rest : Items) (offset : ℕ) (ms : List Member) : Type 0 where
  skipped : is_condition_name i ≡ true → group_members rest offset ≡ ok ms → Round i rest offset ms
  filler :
      is_condition_name i ≡ false
      → bytes_eq (upper_name i) (codes "FILLER") ≡ true
      → group_members rest (offset + (about i).pic_length) ≡ ok ms
      → Round i rest offset ms
  placed :
      (ns : List Member)
      → is_condition_name i ≡ false
      → group_members rest (offset + (about i).pic_length) ≡ ok ns
      → ms ≡ record { about = about i; offset = offset } ∷ ns
      → Round i rest offset ms

>>-ok :
    (c : Result Reason (Unit {0})) (r : Result Reason (List Member)) {ms : List Member}
    → (c >> r) ≡ ok ms
    → r ≡ ok ms
>>-ok (ok u) r h = h
>>-ok (err e) r h = cc h

group_members-Round :
    (i : DataItem) (rest : Items) (offset : ℕ) (ms : List Member)
    → group_members (items i rest) offset ≡ ok ms
    → Round i rest offset ms
unfolding group_members
group_members-Round i rest offset ms h = elim (Bool-cases (is_condition_name i)) [
  | inl e ↦ skipped e (rw e at h)
  | inr e ↦ kept e (rw e at h)
]
  where
    added :
        is_condition_name i ≡ false
        → (r : Result Reason (List Member)) → group_members rest (offset + (about i).pic_length) ≡ r
        → (r >>= λ ns. ok (
            if bytes_eq (upper_name i) (codes "FILLER")
            then ns
            else record { about = about i; offset = offset } ∷ ns))
          ≡ ok ms
        → Round i rest offset ms
    added e (err reason) from k = cc k
    added e (ok ns) from k = elim (Bool-cases (bytes_eq (upper_name i) (codes "FILLER"))) [
      | inl f ↦ let same : ns ≡ ms = ok_injective (rw f at k) in filler e f (from ∙ ap ok same)
      | inr f ↦ placed ns e from (sym (ok_injective (rw f at k)))
    ]

    kept :
        is_condition_name i ≡ false
        → (certified_member i
            >> (group_members rest (offset + (about i).pic_length) >>= λ ns. ok (
                if bytes_eq (upper_name i) (codes "FILLER")
                then ns
                else record { about = about i; offset = offset } ∷ ns)))
          ≡ ok ms
        → Round i rest offset ms
    kept e k =
        added e (group_members rest (offset + (about i).pic_length)) refl
          (>>-ok (certified_member i) _ k)

AreBehind-group_members :
    (its : Items) (offset : ℕ) (ms : List Member)
    → group_members its offset ≡ ok ms
    → AreBehind offset ms
unfolding group_members
AreBehind-group_members no_items offset ms h = subst (AreBehind offset) (ok_injective h) tt
AreBehind-group_members (items i rest) offset ms h = elim (group_members-Round i rest offset ms h) [
  | skipped e k ↦ AreBehind-group_members rest offset ms k
  | filler e f k ↦
      AreBehind-mono offset (offset + (about i).pic_length) ms (omega arith)
        (AreBehind-group_members rest (offset + (about i).pic_length) ms k)
  | placed ns e k same ↦
      subst (AreBehind offset) (sym same)
        (omega arith, AreBehind-group_members rest (offset + (about i).pic_length) ns k)
]

placed_member :
    (before : Items) (i : DataItem) (after : Items) (offset : ℕ) (ms : List Member)
    → is_condition_name i ≡ false
    → bytes_eq (upper_name i) (codes "FILLER") ≡ false
    → group_members (append_items before (items i after)) offset ≡ ok ms
    → IsMember (record { about = about i; offset = offset + widths before }) ms
placed_member no_items i after offset ms plain named h =
    elim (group_members-Round i after offset ms h) [
      | skipped e k ↦ cc (e, plain)
      | filler e f k ↦ cc (f, named)
      | placed ns e k same ↦
          let zero_before : offset + 0 ≡ offset = omega arith in rw (zero_before, same) here
    ]
placed_member (items j before) i after offset ms plain named h =
    elim (group_members-Round j (append_items before (items i after)) offset ms h) [
      | skipped e k ↦
          let none_more : offset + widths before ≡ offset + widths (items j before) =
            rw e (omega arith) in
          subst (λ (o : ℕ). IsMember (record { about = about i; offset = o }) ms) none_more
            (placed_member before i after offset ms plain named k)
      | filler e f k ↦
          further e (placed_member before i after (offset + (about j).pic_length) ms plain named k)
      | placed ns e k same ↦ further e (
          rw same
            (there (placed_member before i after (offset + (about j).pic_length) ns plain named k)))
    ]
  where
    further :
        is_condition_name j ≡ false
        → IsMember
            (record { about = about i; offset = offset + (about j).pic_length + widths before })
            ms
        → IsMember (record { about = about i; offset = offset + widths (items j before) }) ms
    further e k =
        let moved : offset + (about j).pic_length + widths before
            ≡ offset + widths (items j before) =
          rw e (omega arith) in
        subst (λ (o : ℕ). IsMember (record { about = about i; offset = o }) ms) moved k

-- The members of a redefining group lie one behind another: each begins at or behind the end of the
-- one in front of it. And every item of the group that is no condition name and no FILLER is a
-- member, laid behind all the items that stand in front of it, at the sum of their widths. Neither
-- looks at the items' own REDEFINES clauses: an item that redefines another one of the group is laid
-- behind it, and not over it.
pub group_members-AreBehind :
    (its : Items) (offset : ℕ) (ms : List Member)
    → group_members its offset ≡ ok ms
    → AreBehind offset ms
      × ((before : Items) (i : DataItem) (after : Items)
          → its ≡ append_items before (items i after)
          → is_condition_name i ≡ false
          → bytes_eq (upper_name i) (codes "FILLER") ≡ false
          → IsMember (record { about = about i; offset = offset + widths before }) ms)
group_members-AreBehind its offset ms h = (
  AreBehind-group_members its offset ms h,
  λ before i after split plain named.
      placed_member before i after offset ms plain named
        (subst (λ (x : Items). group_members x offset ≡ ok ms) split h),
)
