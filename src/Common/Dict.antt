-- ===== src/Common/Dict.antt =====
-- Dictionaries with text keys: association lists in the order of insertion.
use mathlib.Core.Path.{◌≡◌, refl, ap, sym, subst}
use mathlib.Core.Logic.{◌≢◌, inl, inr}
use mathlib.Core.Bool.{false}
use mathlib.Core.Option.{Option, none, some}
use mathlib.Core.List.{List, [], ◌∷◌}
use cobol_java_transformatio.Common.Tests.{Bool-cases, if◌then◌else◌}
use cobol_java_transformatio.Common.Lists.{All}
use cobol_java_transformatio.Common.Bytes.{Bytes, bytes_eq, bytes_eq_iff}

pub bytes_ne : (s t : Bytes) → s ≢ t → bytes_eq s t ≡ false
bytes_ne s t h = elim (Bool-cases (bytes_eq s t)) [
  | inl e ↦ absurd (h ((bytes_eq_iff s t).0 e))
  | inr e ↦ e
]

module _ {ℓ} {A : Type ℓ} where
  -- `d[key] = a`, `d.get(key)` and `d.setdefault(key, a)`
  unfoldable pub put : Bytes → A → List (Bytes × A) → List (Bytes × A)
  put key a [] = (key, a) ∷ []
  put key a ((k, b) ∷ d) = if bytes_eq k key then (key, a) ∷ d else (k, b) ∷ put key a d

  unfoldable pub get? : Bytes → List (Bytes × A) → Option A
  get? key [] = none
  get? key ((k, b) ∷ d) = if bytes_eq k key then some b else get? key d

  unfoldable pub put_new : Bytes → A → List (Bytes × A) → List (Bytes × A)
  put_new key a [] = (key, a) ∷ []
  put_new key a ((k, b) ∷ d) = if bytes_eq k key then (k, b) ∷ d else (k, b) ∷ put_new key a d

  pub get?-put_self : (key : Bytes) (a : A) (d : List (Bytes × A)) → get? key (put key a d) ≡ some a
  unfolding get? put
  get?-put_self key a [] = rw ((bytes_eq_iff key key).1 refl) refl
  get?-put_self key a ((k, b) ∷ d) = elim (Bool-cases (bytes_eq k key)) [
    | inl e ↦ rw e (rw ((bytes_eq_iff key key).1 refl) refl)
    | inr e ↦ rw e (rw e (get?-put_self key a d))
  ]

  pub get?-put_other :
      (key j : Bytes) (a : A) (d : List (Bytes × A)) → key ≢ j → get? j (put key a d) ≡ get? j d
  unfolding get? put
  get?-put_other key j a [] h = rw (bytes_ne key j h) refl
  get?-put_other key j a ((k, b) ∷ d) h = elim (Bool-cases (bytes_eq k key)) [
    | inl e ↦
        let other = bytes_ne key j h in
        let old : bytes_eq k j ≡ false =
          subst (λ (i : Bytes). bytes_eq i j ≡ false) (sym ((bytes_eq_iff k key).0 e)) other in
        rw e (rw (other, old) refl)
    | inr e ↦
        rw e
          (ap (λ (o : Option A). if bytes_eq k j then some b else o) (get?-put_other key j a d h))
  ]

  pub All-put :
      (P : Bytes × A → Type 0) (key : Bytes) (a : A) (d : List (Bytes × A))
      → P (key, a)
      → All P d
      → All P (put key a d)
  unfolding put
  All-put P key a [] h k = (h, tt)
  All-put P key a ((j, b) ∷ d) h k = elim (Bool-cases (bytes_eq j key)) [
    | inl e ↦ rw e (h, k.1)
    | inr e ↦ rw e (k.0, All-put P key a d h k.1)
  ]
