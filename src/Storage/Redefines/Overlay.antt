-- ===== src/Storage/Redefines/Overlay.antt =====
-- What an item that is laid over a base without a reason against it satisfies.
use cobol_java_transformatio.Common.{
  ℕ, ◌+◌, ◌≤◌, ◌<◌, ◌≡◌, ap, ◌∙◌, subst, inl, inr, Bool, true, false, not, ◌&&◌, ◌||◌, Option, none,
  some, List, [], ◌∷◌, ltb, ◌==◌, if◌then◌else◌, Bool-cases, Result, ok, err, ◌>>=◌, ◌>>◌, >>=-ok,
  ok_injective, raise_if, raise_if-ok, All, All-map, arith,
}
use cobol_java_transformatio.Common.Bytes.{Bytes, bytes_eq, codes}
use cobol_java_transformatio.Storage.Item.{
  Description, DataItem, item, Items, no_items, items, about, children_of, is_set, is_numeric,
  upper_name,
}
use cobol_java_transformatio.Storage.Redefines.{
  Reason, is_a_group, has_occurs, has_usage, signed_or_scaled, no_pic_width, chained,
  wider_than_base, view_not_digits, base_not_digits, has_children, is_given, certified_member,
  is_condition_name, Member, group_members, is_digits, initial_bytes, members_of, children_width,
  item_width, part_of, check_digits, initial_of, overlay,
}

-- an elementary item that is a text or an unsigned whole number in display form
pub record IsCertified (i : DataItem) : Type 0 where
  pub elementary : has_children (children_of i) ≡ false
  pub no_table : is_given (about i).occurs ≡ false
  pub display : is_set (about i).usage ≡ false
  pub whole :
      (is_numeric (about i) && ((about i).signed || not ((about i).decimal_places == 0))) ≡ false
  pub wide : 0 < (about i).pic_length

pub certified_member-IsCertified :
    (i : DataItem) {u : Unit} → certified_member i ≡ ok u → IsCertified i
unfolding certified_member
certified_member-IsCertified i h =
    let d = about i in
    let e5 = raise_if (d.pic_length == 0) (no_pic_width d.name) in
    let e4 =
      raise_if (is_numeric d && (d.signed || not (d.decimal_places == 0)))
        (signed_or_scaled d.name) in
    let e3 = raise_if (is_set d.usage) (has_usage d.name) in
    let e2 = raise_if (is_given d.occurs) (has_occurs d.name) in
    let (_, h1, k1) =
      >>=-ok (raise_if (has_children (children_of i)) (is_a_group d.name))
        (λ _. e2 >> (e3 >> (e4 >> e5))) h in
    let (_, h2, k2) = >>=-ok e2 (λ _. e3 >> (e4 >> e5)) k1 in
    let (_, h3, k3) = >>=-ok e3 (λ _. e4 >> e5) k2 in
    let (_, h4, h5) = >>=-ok e4 (λ _. e5) k3 in
    let nonzero = raise_if-ok (d.pic_length == 0) (no_pic_width d.name) h5 in
    record {
      elementary = raise_if-ok _ _ h1;
      no_table = raise_if-ok _ _ h2;
      display = raise_if-ok _ _ h3;
      whole = raise_if-ok _ _ h4;
      wide = ground arith;
    }

abbrev pub FitsIn : ℕ → Member → Type 0
FitsIn n m = m.offset + m.about.pic_length ≤ n

with_member :
    (n : ℕ) (filler : Bool) (m : Member) (ms : List Member) {out : List Member}
    → FitsIn n m
    → All (FitsIn n) ms
    → ◌≡◌ {A = Result Reason (List Member)} (ok (if filler then ms else m ∷ ms)) (ok out)
    → All (FitsIn n) out
with_member n true m ms h k e = subst (All (FitsIn n)) (ok_injective e) k
with_member n false m ms h k e = subst (All (FitsIn n)) (ok_injective e) (h, k)

group_members-fit :
    (its : Items) (offset : ℕ) {ms : List Member}
    → group_members its offset ≡ ok ms
    → All (FitsIn (offset + children_width its)) ms
unfolding group_members children_width
group_members-fit no_items offset h = subst (All (FitsIn (offset + 0))) (ok_injective h) tt
group_members-fit (items i rest) offset {ms} h = elim (Bool-cases (is_condition_name i)) [
  | inl e ↦ rw e (group_members-fit rest offset (rw e at h))
  | inr e ↦
      let w = (about i).pic_length in
      let m : Member = record { about = about i; offset = offset } in
      let filler = bytes_eq (upper_name i) (codes "FILLER") in
      let (_, _, h1) =
        >>=-ok (certified_member i)
          (λ _. group_members rest (offset + w) >>= λ ms. ok (if filler then ms else m ∷ ms))
          (rw e at h) in
      let (found, h2, h3) =
        >>=-ok (group_members rest (offset + w)) (λ ms. ok (if filler then ms else m ∷ ms)) h1 in
      let same : offset + w + children_width rest ≡ offset + (w + children_width rest) =
        omega arith in
      let below =
        subst (λ (n : ℕ). All (FitsIn n) found) same (group_members-fit rest (offset + w) h2) in
      rw e (with_member (offset + (w + children_width rest)) filler m found (omega arith) below h3)
]

members_of-fit :
    (i : DataItem) {ms : List Member} → members_of i ≡ ok ms → All (FitsIn (item_width i)) ms
members_of-fit (item d no_items) h =
    let (_, _, e) =
      >>=-ok (certified_member (item d no_items)) (λ _. ok (record { about = d; offset = 0 } ∷ []))
        h in
    subst (All (FitsIn d.pic_length)) (ok_injective e) (omega arith, tt)
members_of-fit (item d (items i rest)) {ms} h =
    let e : 0 + children_width (items i rest) ≡ children_width (items i rest) = omega arith in
    subst (λ (n : ℕ). All (FitsIn n) ms) e (group_members-fit (items i rest) 0 h)

abbrev pub HasDigits : Bytes → Member → Type 0
HasDigits initial m = is_numeric m.about ≡ true → is_digits (part_of initial m) ≡ true

check_digits-ok :
    (initial : Bytes) (ms : List Member) {u : Unit}
    → check_digits initial ms ≡ ok u
    → All (HasDigits initial) ms
unfolding check_digits
check_digits-ok initial [] h = tt
check_digits-ok initial (m ∷ ms) h =
    let (_, first, rest) =
      >>=-ok
        (raise_if (is_numeric m.about && not (is_digits (part_of initial m)))
          (view_not_digits m.about.name))
        (λ _. check_digits initial ms) h in
    let digits =
      raise_if-ok (is_numeric m.about && not (is_digits (part_of initial m)))
        (view_not_digits m.about.name) first in
    (λ n. ground arith, check_digits-ok initial ms rest)

initial_of-ok :
    (d : Description) {initial : Bytes} → initial_of d ≡ ok initial → initial_bytes d ≡ some initial
initial_of-ok d {initial} h = known (initial_bytes d) h
  where
    known :
        (o : Option Bytes)
        → elim o as (λ _. Result Reason Bytes) [
          | none ↦ err (base_not_digits d.name)
          | some b ↦ ok b
        ]
          ≡ ok initial
        → o ≡ some initial
    known none e = cc
    known (some b) e = cc

pub record Overlays (base : DataItem) (initial : Bytes) (ms : List Member) : Type 0 where
  pub certified : IsCertified base
  pub unchained : is_set (about base).redefines ≡ false
  pub initial_is : initial_bytes (about base) ≡ some initial
  pub within : All (FitsIn (about base).pic_length) ms
  pub digits : All (HasDigits initial) ms

-- the steps behind the members
abbrev rest_of : DataItem → DataItem → List Member → Result Reason (Bytes × List Member)
rest_of base i members = do
  raise_if (ltb (about base).pic_length (item_width i)) (wider_than_base (about i).name)
  initial ← initial_of (about base)
  check_digits initial members
  ok (initial, members)

over_members :
    (base i : DataItem) (members : List Member) (initial : Bytes) (ms : List Member)
    → IsCertified base
    → is_set (about base).redefines ≡ false
    → All (FitsIn (item_width i)) members
    → rest_of base i members ≡ ok (initial, ms)
    → Overlays base initial ms
over_members base i members initial ms certified unchained fits h =
    let b = about base in
    let (_, h4, k4) =
      >>=-ok (raise_if (ltb b.pic_length (item_width i)) (wider_than_base (about i).name))
        (λ _. initial_of b >>= λ initial. check_digits initial members >> ok (initial, members))
        h in
    let (bytes, h5, k5) =
      >>=-ok (initial_of b) (λ initial. check_digits initial members >> ok (initial, members)) k4 in
    let (_, h6, k6) = >>=-ok (check_digits bytes members) (λ _. ok (bytes, members)) k5 in
    let narrow : item_width i ≤ b.pic_length = (let e = raise_if-ok _ _ h4 in ground arith) in
    let pair : (bytes, members) ≡ (initial, ms) = ok_injective k6 in
    let of_member = ap (λ (p : Bytes × List Member). p.1) pair in
    let of_bytes = ap (λ (p : Bytes × List Member). p.0) pair in
    record {
      certified = certified;
      unchained = unchained;
      initial_is = initial_of-ok b (h5 ∙ ap (λ (x : Bytes). ok x) of_bytes);
      within = subst (All (FitsIn b.pic_length)) of_member (
          All-map (λ (m : Member) (f : FitsIn (item_width i) m). omega (arith, f, narrow)) members
            fits);
      digits =
          subst (λ (p : Bytes × List Member). All (HasDigits p.0) p.1) pair
            (check_digits-ok bytes members h6);
    }

pub overlay-Overlays :
    (base i : DataItem) (initial : Bytes) (ms : List Member)
    → overlay base i ≡ ok (initial, ms)
    → Overlays base initial ms
unfolding overlay
overlay-Overlays base i initial ms h =
    let b = about base in
    let (_, h1, k1) =
      >>=-ok (raise_if (is_set b.redefines) (chained (about i).name))
        (λ _. certified_member base >> (members_of i >>= λ ms. rest_of base i ms)) h in
    let (_, h2, k2) =
      >>=-ok (certified_member base) (λ _. members_of i >>= λ ms. rest_of base i ms) k1 in
    let (members, h3, k3) = >>=-ok (members_of i) (λ ms. rest_of base i ms) k2 in
    over_members base i members initial ms (certified_member-IsCertified base h2)
      (raise_if-ok _ _ h1) (members_of-fit i h3) k3
