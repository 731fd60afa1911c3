-- ===== src/Storage/Redefines/Plan.antt =====
-- Every view of a plan lies within the bytes of a certified base.
use cobol_java_transformatio.Common.{
  ℕ, zero, suc, ◌+◌, ◌≤◌, ◌≡◌, refl, ap, sym, inl, inr, true, some, Option-cases, List, [], ◌∷◌,
  length, Bool-cases, Result, ok, err, All, arith,
}
use cobol_java_transformatio.Common.Bytes.{Bytes, take, drop, length-drop}
use cobol_java_transformatio.Common.Dict.{put, get?, All-put}
use cobol_java_transformatio.Storage.Item.{DataItem, Items, about, upper}
use cobol_java_transformatio.Storage.Figurative.Width.{length-take}
use cobol_java_transformatio.Storage.Redefines.{
  RedefinesView, Reason, RedefinesPlan, Member, is_digits, initial_bytes, overlay, base_view,
  member_view, put_members, overlaid, redefine, redefined_key, plan_key, plan_keys, sorted_keys,
  is_unsupported, unsupported_bases, keep_certified, items_by_name, no_plan, build_redefines_plan,
}
use cobol_java_transformatio.Storage.Redefines.Bytewise.{initial_bytes-length}
use cobol_java_transformatio.Storage.Redefines.Overlay.{
  IsCertified, FitsIn, HasDigits, Overlays, overlay-Overlays,
}

-- A view over a base that the program names: a certified item, in whose initial bytes the view has its
-- part, as long as it says, and digits where it is a number.
pub record IsView (by_name : List (Bytes × DataItem)) (v : RedefinesView) : Type 0 where
  pub base : DataItem
  pub key : Bytes
  pub whole : Bytes
  pub known : get? key by_name ≡ some base
  pub certified : IsCertified base
  pub base_is : v.base ≡ (about base).name
  pub initial_is : initial_bytes (about base) ≡ some whole
  pub within : v.offset + v.length ≤ (about base).pic_length
  pub part : v.initial ≡ take v.length (drop v.offset whole)
  pub sized : length v.initial ≡ v.length
  pub digits : v.numeric ≡ true → is_digits v.initial ≡ true

take_all : (n : ℕ) (s : Bytes) → length s ≡ n → take n s ≡ s
take_all zero [] h = refl
take_all zero (c ∷ s) h = absurd (omega (arith, h))
take_all (suc n) [] h = refl
take_all (suc n) (c ∷ s) h = ap (◌∷◌ c) (take_all n s (omega (arith, h)))

module _ (by_name : List (Bytes × DataItem)) where
  abbrev AreViews : List (Bytes × RedefinesView) → Type 0
  AreViews views = All (λ e. IsView by_name e.1) views

  module _ (base : DataItem) (key : Bytes) (found : get? key by_name ≡ some base) (initial : Bytes)
      (ms : List Member) (over : Overlays base initial ms) where
    base_view-IsView : IsView by_name (base_view (about base) initial)
    base_view-IsView =
        let (long, digits) =
          initial_bytes-length (about base) initial over.initial_is over.certified.wide in
        record {
          base = base;
          key = key;
          whole = initial;
          known = found;
          certified = over.certified;
          base_is = refl;
          initial_is = over.initial_is;
          within = omega arith;
          part = sym (take_all (about base).pic_length initial long);
          sized = long;
          digits = digits;
        }

    member_view-IsView :
        (m : Member)
        → FitsIn (about base).pic_length m
        → HasDigits initial m
        → IsView by_name (member_view (about base) initial m)
    member_view-IsView m fits digits =
        let long =
          (initial_bytes-length (about base) initial over.initial_is over.certified.wide).0 in
        record {
          base = base;
          key = key;
          whole = initial;
          known = found;
          certified = over.certified;
          base_is = refl;
          initial_is = over.initial_is;
          within = fits;
          part = refl;
          sized =
              length-take m.about.pic_length (drop m.offset initial)
                (omega (arith, fits, long, length-drop m.offset initial));
          digits = digits;
        }

    put_members-AreViews :
        (left : List Member) (views : List (Bytes × RedefinesView))
        → All (FitsIn (about base).pic_length) left
        → All (HasDigits initial) left
        → AreViews views
        → AreViews (put_members (about base) initial left views)
    unfolding put_members
    put_members-AreViews [] views f d h = h
    put_members-AreViews (m ∷ left) views f d h = put_members-AreViews left _ f.1 d.1 (
        All-put (λ e. IsView by_name e.1) (upper m.about.name) (member_view (about base) initial m)
          views (member_view-IsView m f.0 d.0) h)

  overlaid-AreViews :
      (key base_key : Bytes) (base i : DataItem) (p : RedefinesPlan)
      → get? base_key by_name ≡ some base
      → (r : Result Reason (Bytes × List Member)) → overlay base i ≡ r
      → AreViews p.views
      → AreViews (overlaid key base_key base i r p).views
  unfolding overlaid
  overlaid-AreViews key base_key base i p found (err reason) e h = h
  overlaid-AreViews key base_key base i p found (ok (initial, ms)) e h =
      let over = overlay-Overlays base i initial ms e in
      put_members-AreViews base base_key found initial ms over ms
        (put base_key (base_view (about base) initial) p.views) over.within over.digits
        (All-put (λ x. IsView by_name x.1) base_key (base_view (about base) initial) p.views
          (base_view-IsView base base_key found initial ms over) h)

  redefine-AreViews :
      (key : Bytes) (i : DataItem) (base_key : Bytes) (p : RedefinesPlan)
      → AreViews p.views
      → AreViews (redefine by_name key i base_key p).views
  unfolding redefine
  redefine-AreViews key i base_key p h = elim (Option-cases (get? base_key by_name)) [
    | inl e ↦ rw (e, redefine) h
    | inr (base, e) ↦
        rw (e, redefine) (overlaid-AreViews key base_key base i p e (overlay base i) refl h)
  ]

  plan_key-AreViews :
      (key : Bytes) (p : RedefinesPlan) → AreViews p.views → AreViews (plan_key by_name key p).views
  unfolding plan_key
  plan_key-AreViews key p h = elim (Option-cases (get? key by_name)) [
    | inl e ↦ rw (e, plan_key) h
    | inr (i, e) ↦
        rw (e, plan_key)
          (elim (Option-cases (redefined_key (about i).redefines)) [
            | inl n ↦ rw n h
            | inr (base_key, n) ↦ rw n (redefine-AreViews key i base_key p h)
          ])
  ]

  plan_keys-AreViews :
      (keys : List Bytes) (p : RedefinesPlan)
      → AreViews p.views
      → AreViews (plan_keys by_name keys p).views
  unfolding plan_keys
  plan_keys-AreViews [] p h = h
  plan_keys-AreViews (key ∷ keys) p h =
      plan_keys-AreViews keys (plan_key by_name key p) (plan_key-AreViews key p h)

  keep_certified-AreViews :
      (bases : List Bytes) (views : List (Bytes × RedefinesView)) (p : RedefinesPlan)
      → AreViews views
      → AreViews p.views
      → AreViews (keep_certified bases views p).views
  unfolding keep_certified
  keep_certified-AreViews bases [] p h k = k
  keep_certified-AreViews bases ((key, v) ∷ views) p h k =
      elim (Bool-cases (is_unsupported bases v)) [
        | inl e ↦ rw (e, keep_certified) (keep_certified-AreViews bases views _ h.1 k)
        | inr e ↦
            rw (e, keep_certified)
              (keep_certified-AreViews bases views _ h.1
                (All-put (λ x. IsView by_name x.1) key v p.views h.0 k))
      ]

-- Every view of the plan lies within the bytes of a certified base that the program declares, and
-- starts with the base's initial bytes at its place: as many as its width, and digits where the view is
-- a number.
pub build_redefines_plan-IsView :
    (all : Items)
    → All
        (λ (e : Bytes × RedefinesView). IsView (items_by_name all) e.1)
        (build_redefines_plan all).views
unfolding build_redefines_plan
build_redefines_plan-IsView all =
    let by_name = items_by_name all in
    let p = plan_keys by_name (sorted_keys by_name) no_plan in
    keep_certified-AreViews by_name (unsupported_bases by_name p.problems) p.views
      (record p { views = [] }) (plan_keys-AreViews by_name (sorted_keys by_name) no_plan tt) tt
