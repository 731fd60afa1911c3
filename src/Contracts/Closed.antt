-- ===== src/Contracts/Closed.antt =====
-- What engine/contracts lets through: loaded comparators, and registries that are complete.
use cobol_java_transformatio.Common.{
  String, ◌≡◌, sym, subst, inl, inr, false, not, some, List, [], ◌∷◌, arith, text_eq, text_eq_iff,
  elem, Elem, Bool-cases, Option-cases, All, Any, Result, ok, err, raise_if, >>=-ok, raise_if-ok,
  not-elem_iff,
}
use cobol_java_transformatio.Contracts.Model.{
  Reason, ContractError, forbidden, forbidden_normalization, check_normalizations, orderings,
  check_ordering, missing_policies, malformed_policies, check_failure, ComparatorSpec,
  ArtifactContract, first_of_type, get_comparator, ContractRegistry,
}
use cobol_java_transformatio.Contracts.Load.{
  get_or, key, as_value_error, ComparatorData, load_comparator, load_each, load_type,
  load_contract_version, ArtifactData, load_artifact_contract,
}
use cobol_java_transformatio.Contracts.Validator.{
  require_artifact_contract, same_id, validate_comparator,
}

-- A comparator of the certified kind: nothing forbidden, and known policies.
pub record IsClosed (s : ComparatorSpec) : Type 0 where
  pub normalizations : All (λ n. elem n forbidden ≡ false) s.normalizations
  pub ordering : Elem s.ordering orderings
  pub on_missing : Elem s.on_missing missing_policies
  pub on_malformed : Elem s.on_malformed malformed_policies

as_value_error-ok : {A : Type 0} (r : Result Reason A) {a : A} → as_value_error r ≡ ok a → r ≡ ok a
as_value_error-ok (ok a) e = ground arith
as_value_error-ok (err r) e = cc

check_normalizations-ok :
    (norms : List String) {u : Unit}
    → check_normalizations norms ≡ ok u
    → All (λ n. elem n forbidden ≡ false) norms
unfolding check_normalizations
check_normalizations-ok [] e = tt
check_normalizations-ok (n ∷ norms) e =
    let (u, a, e1) = >>=-ok (raise_if (elem n forbidden) (forbidden_normalization n)) _ e in
    (raise_if-ok _ _ a, check_normalizations-ok norms e1)

known :
    (k : String) (xs : List String) (r : Reason) {u : Unit}
    → raise_if (not (elem k xs)) r ≡ ok u
    → Elem k xs
known k xs r e = (not-elem_iff k xs).0 (raise_if-ok _ _ e)

load_comparator-IsClosed :
    (d : ComparatorData) {s : ComparatorSpec} → load_comparator d ≡ ok s → IsClosed s
unfolding load_comparator check_ordering check_failure
load_comparator-IsClosed d {s} e =
    let norms : List String = get_or [] d.normalizations in
    let order : String = get_or "SEQUENTIAL" d.ordering in
    let missing : String = get_or "UNAVAILABLE" d.on_missing in
    let malformed : String = get_or "INCONCLUSIVE" d.on_malformed in
    let (u1, a1, e1) = >>=-ok (as_value_error (check_normalizations norms)) _ e in
    let (u2, a2, e2) = >>=-ok (as_value_error (check_ordering order)) _ e1 in
    let (u3, a3, e3) = >>=-ok (as_value_error (check_failure missing malformed)) _ e2 in
    let (i, a4, e4) = >>=-ok (key "comparator_id" d.comparator_id) _ e3 in
    let (t, a5, e5) = >>=-ok (key "artifact_type" d.artifact_type) _ e4 in
    let (u6, a6, e6) =
      >>=-ok (raise_if (not (elem missing missing_policies)) _) _ (as_value_error-ok _ a3) in
    let n : s.normalizations ≡ norms = ground arith in
    let o : s.ordering ≡ order = ground arith in
    let m : s.on_missing ≡ missing = ground arith in
    let f : s.on_malformed ≡ malformed = ground arith in
    record {
      normalizations = rw n (check_normalizations-ok norms (as_value_error-ok _ a1));
      ordering = rw o (known order orderings _ (as_value_error-ok _ a2));
      on_missing = rw m (known missing missing_policies _ a6);
      on_malformed = rw f (known malformed malformed_policies _ e6);
    }

load_each-All :
    {A B : Type 0} (P : B → Type 0) (f : A → Result ContractError B)
    → ((x : A) (y : B) → f x ≡ ok y → P y)
    → (xs : List A) {ys : List B} → load_each f xs ≡ ok ys
    → All P ys
unfolding load_each
load_each-All P f h [] {ys} e = let same : [] ≡ ys = ground arith in subst (All P) same tt
load_each-All P f h (x ∷ xs) {ys} e =
    let (y, a, e1) = >>=-ok (f x) _ e in
    let (rest, b, e2) = >>=-ok (load_each f xs) _ e1 in
    let same : y ∷ rest ≡ ys = ground arith in
    subst (All P) same (h x y a, load_each-All P f h xs b)

pub load_artifact_contract-IsClosed :
    (d : ArtifactData) {c : ArtifactContract}
    → load_artifact_contract d ≡ ok c
    → All IsClosed c.comparators
unfolding load_artifact_contract
load_artifact_contract-IsClosed d {c} e =
    let (u, a, e1) = >>=-ok (load_contract_version "ARTIFACT" d.version) _ e in
    let (types, b, e2) = >>=-ok (load_each load_type (get_or [] d.artifact_types)) _ e1 in
    let (comparators, g, e3) = >>=-ok (load_each load_comparator (get_or [] d.comparators)) _ e2 in
    let same : comparators ≡ c.comparators = ground arith in
    subst (All IsClosed) same (
      load_each-All IsClosed load_comparator (λ x y. load_comparator-IsClosed x)
        (get_or [] d.comparators) g)

first_of_type-some :
    (P : ComparatorSpec → Type 0) (t : String) (comparators : List ComparatorSpec)
    {s : ComparatorSpec}
    → first_of_type t comparators ≡ some s
    → All P comparators
    → (s.artifact_type ≡ t) × P s × Any (λ x. s ≡ x) comparators
unfolding first_of_type
first_of_type-some P t [] e h = cc
first_of_type-some P t (c ∷ comparators) {s} e h = elim (Bool-cases (text_eq c.artifact_type t)) [
  | inl q ↦
      let same : c ≡ s = ground arith in
      (ground (arith, (text_eq_iff c.artifact_type t).0 q), subst P same h.0, inl (sym same))
  | inr q ↦ let (a, b, m) = first_of_type-some P t comparators (rw q at e) h.1 in (a, b, inr m)
]

-- There is no fallback comparator: whatever comparator `validate_comparator` answers, under a contract
-- that was loaded, is one of the contract's, has the id and the artifact type that were asked for, uses
-- no permanently forbidden normalization, and has a known ordering and known policies for missing
-- and malformed artifacts.
pub validate_comparator-IsClosed :
    (d : ArtifactData) (r : ContractRegistry) {c : ArtifactContract}
    → load_artifact_contract d ≡ ok c
    → r.artifact ≡ some c
    → (comparator_id type_name : String) {s : ComparatorSpec}
    → validate_comparator r comparator_id type_name ≡ ok s
    → (s.comparator_id ≡ comparator_id)
      × (s.artifact_type ≡ type_name)
      × Any (λ x. s ≡ x) c.comparators
      × IsClosed s
unfolding validate_comparator require_artifact_contract same_id
validate_comparator-IsClosed d r {c} loaded there comparator_id type_name {s} e =
    elim (Option-cases (get_comparator c type_name)) [
      | inl n ↦ absurd (ground arith)
      | inr (x, found) ↦
          let checked : same_id comparator_id x ≡ ok s = ground arith in
          let (u, a, e1) =
            >>=-ok (raise_if (not (text_eq x.comparator_id comparator_id)) _) _ checked in
          let same : x ≡ s = ground arith in
          let (t, closed, m) =
            first_of_type-some IsClosed type_name c.comparators found
              (load_artifact_contract-IsClosed d loaded) in
          (
            ground (arith, raise_if-ok _ _ a, text_eq_iff x.comparator_id comparator_id),
            ground arith,
            subst (λ y. Any (λ z. y ≡ z) c.comparators) same m,
            subst IsClosed same closed,
          )
    ]
