-- ===== src/Common/Lists.antt =====
-- Lists under Boolean tests, predicates over lists, and loops that collect findings.
use Prim.Native.Nat.{ℕ, suc}
use mathlib.Core.Path.{◌≡◌, refl}
use mathlib.Core.Logic.{◌⊎◌, ◌↔◌, inl, inr}
use mathlib.Core.Bool.{Bool, true, false, ◌||◌}
use mathlib.Core.List.{List, [], ◌∷◌, ◌++◌}
use cobol_java_transformatio.Common.Tests.{Bool-cases, if◌then◌else◌}

module _ {ℓ} {A : Type ℓ} where
  abbrev pub length : List A → ℕ
  length [] = 0
  length (x ∷ xs) = suc (length xs)

  abbrev pub any : (A → Bool) → List A → Bool
  any p [] = false
  any p (x ∷ xs) = p x || any p xs

  -- `[x for x in xs if p(x)]`
  abbrev pub filter : (A → Bool) → List A → List A
  filter p [] = []
  filter p (x ∷ xs) = let rest = filter p xs in if p x then x ∷ rest else rest

  abbrev pub is_empty : List A → Bool
  is_empty [] = true
  is_empty (x ∷ xs) = false

module _ {ℓ κ} {A : Type ℓ} where
  abbrev pub All : (A → Type κ) → List A → Type κ
  All P [] = Unit
  All P (x ∷ xs) = P x × All P xs

module _ {ℓ} {A : Type ℓ} where
  -- some element of the list, kept as a witness
  abbrev pub Any : (A → Type 0) → List A → Type 0
  Any P [] = ⊥
  Any P (x ∷ xs) = P x ⊎ Any P xs

-- `for i, x in enumerate(xs, i): out.extend(f(i, x))`
module _ {ℓ κ} {A : Type ℓ} {B : Type κ} where
  unfoldable pub collect : (ℕ → A → List B) → ℕ → List A → List B
  collect f i [] = []
  collect f i (x ∷ xs) = f i x ++ collect f (suc i) xs

pub append-eq-nil {ℓ} : {A : Type ℓ} (xs ys : List A) → (xs ++ ys ≡ []) ↔ ((xs ≡ []) × (ys ≡ []))
append-eq-nil [] ys = (λ h. (refl, h), λ h. h.1)
append-eq-nil (x ∷ xs) ys = (λ h. cc, λ h. cc (h.0))

-- A loop finds nothing exactly where it finds nothing at each element.
pub collect-eq-nil {ℓ κ μ} :
    {A : Type ℓ} {B : Type κ} (f : ℕ → A → List B) (P : A → Type μ)
    → ((i : ℕ) (x : A) → (f i x ≡ []) ↔ P x)
    → (i : ℕ) (xs : List A) → (collect f i xs ≡ []) ↔ All P xs
unfolding collect
collect-eq-nil f P h i [] = (λ _. tt, λ _. refl)
collect-eq-nil f P h i (x ∷ xs) =
    let rest = collect-eq-nil f P h (suc i) xs in
    let split = append-eq-nil (f i x) (collect f (suc i) xs) in
    (λ e. ((h i x).0 (split.0 e).0, rest.0 (split.0 e).1), λ a. split.1 ((h i x).1 a.0, rest.1 a.1))

-- `if c: out.append(x)`
abbrev pub report_if {ℓ} : {A : Type ℓ} → Bool → A → List A
report_if c x = if c then x ∷ [] else []

pub report_if-eq-nil {ℓ} : {A : Type ℓ} (c : Bool) (x : A) → (report_if c x ≡ []) ↔ (c ≡ false)
report_if-eq-nil true x = (λ h. cc, λ h. cc)
report_if-eq-nil false x = (λ _. refl, λ _. refl)

pub Any-filter {ℓ} :
    {A : Type ℓ} (P : A → Type 0) (p : A → Bool) (xs : List A)
    → Any P (filter p xs) ↔ Any (λ x. (p x ≡ true) × P x) xs
Any-filter P p [] = (λ h. h, λ h. h)
Any-filter P p (x ∷ xs) = elim (Bool-cases (p x)) [
  | inl e ↦ rw e (
    elim [ inl h ↦ inl (refl, h) | inr m ↦ inr ((Any-filter P p xs).0 m) ],
    elim [ inl h ↦ inl h.1 | inr m ↦ inr ((Any-filter P p xs).1 m) ],
  )
  | inr e ↦ rw e (
    λ m. inr ((Any-filter P p xs).0 m),
    elim [ inl h ↦ cc (h.0) | inr m ↦ (Any-filter P p xs).1 m ],
  )
]

pub All-filter {ℓ κ} :
    {A : Type ℓ} (P : A → Type κ) (p : A → Bool) (xs : List A)
    → All P (filter p xs) ↔ All (λ x. p x ≡ true → P x) xs
All-filter P p [] = (λ _. tt, λ _. tt)
All-filter P p (x ∷ xs) = elim (Bool-cases (p x)) [
  | inl e ↦
      rw e (λ h. (λ _. h.0, (All-filter P p xs).0 h.1), λ h. (h.0 refl, (All-filter P p xs).1 h.1))
  | inr e ↦ rw e (λ h. (λ x. cc, (All-filter P p xs).0 h), λ h. (All-filter P p xs).1 h.1)
]

pub All-map {ℓ κ μ} :
    {A : Type ℓ} {P : A → Type κ} {Q : A → Type μ}
    → ((x : A) → P x → Q x)
    → (xs : List A) → All P xs
    → All Q xs
All-map f [] _ = tt
All-map f (x ∷ xs) h = (f x h.0, All-map f xs h.1)

pub Any-map {ℓ} :
    {A : Type ℓ} {P Q : A → Type 0} → ((x : A) → P x → Q x) → (xs : List A) → Any P xs → Any Q xs
Any-map f [] h = h
Any-map f (x ∷ xs) (inl h) = inl (f x h)
Any-map f (x ∷ xs) (inr h) = inr (Any-map f xs h)

pub is_empty-false {ℓ} : {A : Type ℓ} (xs : List A) → (is_empty xs ≡ false) ↔ Any (λ _. Unit {0}) xs
is_empty-false [] = (λ h. cc, λ h. absurd h)
is_empty-false (x ∷ xs) = (λ _. inl tt, λ _. refl)

pub iff_trans {ℓ κ μ} : {A : Type ℓ} {B : Type κ} {C : Type μ} → A ↔ B → B ↔ C → A ↔ C
iff_trans f g = (λ a. g.0 (f.0 a), λ c. f.1 (g.1 c))

-- Two loops after one another find nothing exactly where neither does.
pub append-eq-nil_iff {ℓ κ μ} :
    {A : Type ℓ} {P : Type κ} {Q : Type μ} (xs ys : List A)
    → (xs ≡ []) ↔ P
    → (ys ≡ []) ↔ Q
    → (xs ++ ys ≡ []) ↔ (P × Q)
append-eq-nil_iff xs ys p q = (
  λ e. let split = (append-eq-nil xs ys).0 e in (p.0 split.0, q.0 split.1),
  λ h. (append-eq-nil xs ys).1 (p.1 h.0, q.1 h.1),
)
