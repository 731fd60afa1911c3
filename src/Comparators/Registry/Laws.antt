-- ===== src/Comparators/Registry/Laws.antt =====
-- The operations of the registry, and its contents against the canonical ids.
use cobol_java_transformatio.Common.{
  String, ◌≡◌, ◌≢◌, refl, ◌∙◌, true, false, Option, none, some, [], ◌∷◌, ◌++◌, arith, text_eq,
  text_eq_iff, text_eq_refl, Option-cases, inl, inr, ok, err, if◌then◌else◌,
}
use cobol_java_transformatio.Comparators.Model.{TypedComparator, already_registered}
use cobol_java_transformatio.Comparators.Identity.{get?, canonical_comparator_ids}
use cobol_java_transformatio.Comparators.Text.{
  stdout_comparator, stderr_comparator, text_file_comparator,
}
use cobol_java_transformatio.Comparators.Registry.{
  ComparatorRegistry, get, is_registered, register, create_default_registry,
  create_verification_registry, text_object, exit_status_comparator, fixed_record_comparator,
  register_business_invariant_comparator, business_invariant_comparator,
}

get?-append :
    (k j : String) (r : ComparatorRegistry) (c : TypedComparator)
    → get? k (r ++ (j, c) ∷ [])
      ≡ elim (get? k r) [ none ↦ if text_eq k j then some c else none | some d ↦ some d ]
unfolding get?
get?-append k j [] c = refl
get?-append k j ((i, d) ∷ r) c = ground (arith, get?-append k j r c)

is_registered-some :
    (r : ComparatorRegistry) (k : String) (d : TypedComparator)
    → get r k ≡ some d
    → is_registered r k ≡ true
unfolding is_registered
is_registered-some r k d e = ground arith

is_registered-none :
    (r : ComparatorRegistry) (k : String) → get r k ≡ none → is_registered r k ≡ false
unfolding is_registered
is_registered-none r k e = ground arith

free :
    (c : TypedComparator) (r : ComparatorRegistry)
    → get r c.artifact_type ≡ none
    → register c r ≡ ok (r ++ (c.artifact_type, c) ∷ [])
unfolding register
free c r e = rw (is_registered-none r c.artifact_type e)

taken :
    (c d : TypedComparator) (r : ComparatorRegistry)
    → get r c.artifact_type ≡ some d
    → register c r ≡ err (already_registered c.artifact_type)
unfolding register
taken c d r e = rw (is_registered-some r c.artifact_type d e)

-- Registering a comparator whose type is free succeeds: the registry then has it under its type and
-- every other type as before. A type that is taken raises, whatever comparator holds it.
pub register-get :
    (c : TypedComparator) (r : ComparatorRegistry)
    → (get r c.artifact_type ≡ none
        → (s : ComparatorRegistry) × (register c r ≡ ok s)
          × (get s c.artifact_type ≡ some c)
          × ((k : String) → k ≢ c.artifact_type → get s k ≡ get r k))
      × ((d : TypedComparator)
          → get r c.artifact_type ≡ some d
          → register c r ≡ err (already_registered c.artifact_type))
register-get c r = (
  λ e. (
    r ++ (c.artifact_type, c) ∷ [],
    free c r e,
    get?-append c.artifact_type c.artifact_type r c ∙ rw (e, text_eq_refl c.artifact_type) refl,
    λ k n. ground (arith, get?-append k c.artifact_type r c, text_eq_iff k c.artifact_type, n),
  ),
  λ d e. taken c d r e,
)

-- The id of the comparator found.
abbrev pub id_of : Option TypedComparator → Option String
id_of none = none
id_of (some c) = some c.id.comparator_id

-- The registry with all six comparators.
abbrev six : ComparatorRegistry
six =
    ("STDOUT", text_object stdout_comparator)
    ∷ ("STDERR", text_object stderr_comparator)
    ∷ ("EXIT_STATUS", exit_status_comparator)
    ∷ ("TEXT_FILE", text_object text_file_comparator)
    ∷ ("FIXED_RECORD", fixed_record_comparator)
    ∷ ("BUSINESS_INVARIANT", business_invariant_comparator)
    ∷ []

canonical : (k : String) → id_of (get six k) ≡ get? k canonical_comparator_ids
unfolding get?
canonical k = ground arith

-- The verification registry can be built, and for every artifact type the comparator in it carries
-- the canonical id that evidence of this type has to name; a type without one has no comparator.
pub create_verification_registry-canonical :
    (r : ComparatorRegistry) × (create_verification_registry ≡ ok r)
    × ((k : String) → id_of (get r k) ≡ get? k canonical_comparator_ids)
unfolding create_verification_registry create_default_registry register is_registered get? text_eq
create_verification_registry-canonical = (six, refl, λ k. canonical k)

-- Adding the BUSINESS_INVARIANT comparator never fails, leaves every other type as it was, and a
-- second time changes nothing.
pub register_business_invariant_comparator_idem :
    (r : ComparatorRegistry)
    → (s : ComparatorRegistry) × (register_business_invariant_comparator r ≡ ok s)
      × (register_business_invariant_comparator s ≡ ok s)
      × ((k : String) → k ≢ "BUSINESS_INVARIANT" → get s k ≡ get r k)
unfolding register_business_invariant_comparator
register_business_invariant_comparator_idem r = elim (Option-cases (get r "BUSINESS_INVARIANT")) [
  | inr (d, e) ↦
      let there = is_registered-some r "BUSINESS_INVARIANT" d e in
      (r, rw there refl, rw there refl, λ k n. refl)
  | inl e ↦
      let (s, added, found, others) = (register-get business_invariant_comparator r).0 e in
      (
        s,
        rw (is_registered-none r "BUSINESS_INVARIANT" e) added,
        rw (is_registered-some s "BUSINESS_INVARIANT" business_invariant_comparator found) refl,
        others,
      )
]
