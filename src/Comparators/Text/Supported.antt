-- ===== src/Comparators/Text/Supported.antt =====
-- Which normalizations and orderings the text comparators carry out, and which they refuse.
use cobol_java_transformatio.Common.{
  String, ◌≡◌, ◌↔◌, refl, Bool, true, false, Option, some, List, [], ◌∷◌, arith, All, Elem,
  text_eq_iff, Result, ok, err, ◌>>=◌,
}
use cobol_java_transformatio.Common.Bytes.{Bytes}
use cobol_java_transformatio.Domain.{ArtifactIdentity}
use cobol_java_transformatio.Comparators.Model.{FailurePolicy}
use cobol_java_transformatio.Comparators.Policy.{
  handle_missing, apply_ordering, normalize, crlf_to_lf,
}
use cobol_java_transformatio.Comparators.Text.{
  TextComparator, report, prepare, compare_present, compare,
}

abbrev pub IsSupported : List String → Type 0
IsSupported = All (λ n. n ≡ "crlf_to_lf")

abbrev pub orderings : List String
orderings = "SEQUENTIAL" ∷ "SORTED" ∷ "UNORDERED" ∷ []

-- Whether a result is there.
abbrev pub is_ok : {E A : Type 0} → Result E A → Bool
is_ok (ok a) = true
is_ok (err e) = false

-- A chain has a result exactly where both of its steps have one.
is_ok-bind :
    {E A B : Type 0} (P Q : Type 0) (m : Result E A) (f : A → Result E B)
    → (is_ok m ≡ true) ↔ P
    → ((a : A) → (is_ok (f a) ≡ true) ↔ Q)
    → (is_ok (m >>= f) ≡ true) ↔ (P × Q)
is_ok-bind P Q (ok a) f p q = (λ h. (p.0 refl, (q a).0 h), λ h. (q a).1 h.1)
is_ok-bind P Q (err e) f p q = (λ h. cc, λ h. cc (p.1 h.0))

is_ok-normalize : (ns : List String) (s : Bytes) → (is_ok (normalize s ns) ≡ true) ↔ IsSupported ns
unfolding normalize
is_ok-normalize [] s = (λ _. tt, λ _. refl)
is_ok-normalize (n ∷ ns) s =
    ground (arith, is_ok-normalize ns (crlf_to_lf s), text_eq_iff n "crlf_to_lf")

is_ok-apply_ordering :
    (ordering : String) (s : Bytes)
    → (is_ok (apply_ordering s ordering) ≡ true) ↔ Elem ordering orderings
unfolding apply_ordering
is_ok-apply_ordering ordering s = ground (
  arith,
  text_eq_iff ordering "SEQUENTIAL",
  text_eq_iff ordering "SORTED",
  text_eq_iff ordering "UNORDERED",
)

is_ok-prepare :
    (ns : List String) (ordering : String) (s : Bytes)
    → (is_ok (prepare ns ordering s) ≡ true) ↔ (IsSupported ns × Elem ordering orderings)
unfolding prepare
is_ok-prepare ns ordering s =
    is_ok-bind _ _ (normalize s ns) (λ n. apply_ordering n ordering) (is_ok-normalize ns s)
      (is_ok-apply_ordering ordering)

module _ (t : TextComparator) (oa ca : ArtifactIdentity) where
  -- Two contents that are there get a comparison result exactly where every declared normalization
  -- is crlf_to_lf and the ordering is SEQUENTIAL, SORTED or UNORDERED; anything else raises.
  pub compare-IsSupported :
      (policy : Option FailurePolicy) (ns : List String) (ordering : String) (o c : Bytes)
      → (is_ok (compare t oa (some o) ca (some c) ns ordering policy) ≡ true)
        ↔ (IsSupported ns × Elem ordering orderings)
  unfolding compare compare_present handle_missing
  compare-IsSupported policy ns ordering o c =
      let both = is_ok-bind _ _ (prepare ns ordering o) _ (is_ok-prepare ns ordering o) λ o'.
        is_ok-bind _ (Unit {0}) (prepare ns ordering c)
          (λ c'. ok (report t oa ca ns ordering o' c')) (is_ok-prepare ns ordering c)
          (λ c'. (λ _. tt, λ _. refl)) in
      (λ h. (both.0 h).0, λ h. both.1 (h, (h, tt)))
