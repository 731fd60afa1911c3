-- ===== src/Common/Text.antt =====
-- Whole texts, which the program compares and tests for a prefix.
use Prim.Native.Nat.{ℕ}
use Prim.Native.Char.{code}
use Prim.Native.String.{String}
use mathlib.Core.Path.{◌≡◌, refl}
use mathlib.Core.Logic.{◌↔◌, inl, inr}
use mathlib.Core.Bool.{Bool, true, false, not, ◌&&◌, ◌||◌}
use mathlib.Core.List.{List, [], ◌∷◌, map}
use native.Mathlib.Omega.{arith}
use text.Mathlib.Text.{◌==◌, starts_with}
use text.Mathlib.TextEquality.{eq_iff}
use cobol_java_transformatio.Common.Tests.{Bool-cases, leb, ◌==◌ as nat_eq, if◌then◌else◌}
use cobol_java_transformatio.Common.Lists.{Any, any}

unfoldable pub text_eq : String → String → Bool
text_eq s t = s == t

-- `s.startswith(t)`
unfoldable pub has_prefix : String → String → Bool
has_prefix s t = starts_with s t

pub text_eq_iff : (s t : String) → (text_eq s t ≡ true) ↔ (s ≡ t)
unfolding text_eq
text_eq_iff s t = eq_iff s t

pub text_eq_refl : (s : String) → text_eq s s ≡ true
text_eq_refl s = (text_eq_iff s s).1 refl

-- `k in xs`
abbrev pub elem : String → List String → Bool
elem k [] = false
elem k (x ∷ xs) = text_eq k x || elem k xs

abbrev pub Elem : String → List String → Type 0
Elem k = Any (λ x. k ≡ x)

pub elem_sound : (k : String) (xs : List String) → elem k xs ≡ true → Elem k xs
elem_sound k [] h = cc
elem_sound k (x ∷ xs) h = elim (Bool-cases (text_eq k x)) [
  | inl e ↦ inl ((text_eq_iff k x).0 e)
  | inr e ↦ inr (elem_sound k xs (rw e at h))
]

pub elem_complete : (k : String) (xs : List String) → Elem k xs → elem k xs ≡ true
elem_complete k [] h = absurd h
elem_complete k (x ∷ xs) (inl e) = rw ((text_eq_iff k x).1 e)
elem_complete k (x ∷ xs) (inr m) = ground (arith, elem_complete k xs m)

-- What `str.strip` takes for white space.
abbrev white_space : List ℕ
white_space =
    32 ∷ 9 ∷ 10 ∷ 11 ∷ 12 ∷ 13 ∷ 28 ∷ 29 ∷ 30 ∷ 31 ∷ 133 ∷ 160 ∷ 5760 ∷ 8232 ∷ 8233 ∷ 8239 ∷ 8287
    ∷ 12288 ∷ []

unfoldable pub is_space : ℕ → Bool
is_space c = any (λ w. nat_eq c w) white_space || (leb 8192 c && leb c 8202)

lstrip : String → String
lstrip String.[] = String.[]
lstrip (String.◌∷◌ c s) = let rest = lstrip s in if is_space (code c) then rest else String.◌∷◌ c s

rstrip : String → String
rstrip String.[] = String.[]
rstrip (String.◌∷◌ c s) =
    let rest = rstrip s in
    if is_space (code c) && text_eq rest "" then String.[] else String.◌∷◌ c rest

unfoldable pub strip : String → String
unfolding lstrip rstrip is_space text_eq
strip s = rstrip (lstrip s)

strip_example : strip " 1\n" ≡ "1"
unfolding strip
strip_example = refl

pub elem_iff : (k : String) (xs : List String) → (elem k xs ≡ true) ↔ Elem k xs
elem_iff k xs = (elem_sound k xs, elem_complete k xs)

-- A test that finds a difference, and one that finds no member.
pub not-text_eq_iff : (s t : String) → (not (text_eq s t) ≡ false) ↔ (s ≡ t)
not-text_eq_iff s t = ground (arith, text_eq_iff s t)

pub not-elem_iff : (k : String) (xs : List String) → (not (elem k xs) ≡ false) ↔ Elem k xs
not-elem_iff k xs = elim (Bool-cases (elem k xs)) [
  | inl e ↦ rw e (λ _. (elem_iff k xs).0 e, λ _. refl)
  | inr e ↦ rw e (λ h. cc, λ m. cc (e, (elem_iff k xs).1 m))
]

-- Membership in a mapped list, in terms of the list.
pub Elem-map {ℓ} :
    {A : Type ℓ} (k : String) (f : A → String) (xs : List A)
    → Elem k (map f xs) ↔ Any (λ x. k ≡ f x) xs
Elem-map k f [] = (λ h. h, λ h. h)
Elem-map k f (x ∷ xs) = (
  elim [ inl e ↦ inl e | inr m ↦ inr ((Elem-map k f xs).0 m) ],
  elim [ inl e ↦ inl e | inr m ↦ inr ((Elem-map k f xs).1 m) ],
)
