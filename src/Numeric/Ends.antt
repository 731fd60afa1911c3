-- ===== src/Numeric/Ends.antt =====
-- How the parts of a canonical literal begin and end.
use cobol_java_transformatio.Common.{
  ℕ, ◌≡◌, ◌≢◌, ◌↔◌, ◌⊎◌, inl, inr, refl, ap, append-nil, ◌&&◌, true, false, Bool, [], ◌∷◌, ◌++◌,
  is_empty, arith, Bool-cases, if◌then◌else◌,
}
use cobol_java_transformatio.Common.Bytes.{Bytes}
use cobol_java_transformatio.Numeric.Literal.{
  is_zero, lstrip_by, rstrip_by, Literal, or_zero, canonical_int, canonical_frac, canonical, point,
}

-- No leading zero that Java reads as the mark of an octal number.
abbrev pub IsNotOctal : Bytes → Type 0
IsNotOctal s = (s ≡ 48 ∷ []) ⊎ ((c : ℕ) × (t : Bytes) × (s ≡ c ∷ t) × (c ≢ 48))

lstrip_by-first : (s : Bytes) → IsNotOctal (or_zero (lstrip_by is_zero s))
unfolding lstrip_by
lstrip_by-first [] = inl refl
lstrip_by-first (c ∷ s) = elim (Bool-cases (is_zero c)) [
  | inl e ↦ rw e (lstrip_by-first s)
  | inr e ↦ rw e (inr (c, s, refl, ground (arith, e)))
]

canonical_int-IsNotOctal : (s : Bytes) → IsNotOctal (canonical_int s)
unfolding canonical_int
canonical_int-IsNotOctal s = lstrip_by-first s

pub canonical-IsNotOctal : (l : Literal) → IsNotOctal (canonical l).int_part
unfolding canonical
canonical-IsNotOctal l = canonical_int-IsNotOctal l.int_part

-- No zero at the end of a fraction, but of the fraction "0".
abbrev pub IsTrimmed : Bytes → Type 0
IsTrimmed s = (s ≡ []) ⊎ ((s ≡ 48 ∷ []) ⊎ ((t : Bytes) × (c : ℕ) × (s ≡ t ++ c ∷ []) × (c ≢ 48)))

abbrev EndsTrimmed : Bytes → Type 0
EndsTrimmed s = (s ≡ []) ⊎ ((t : Bytes) × (c : ℕ) × (s ≡ t ++ c ∷ []) × (c ≢ 48))

rstrip_by-last : (s : Bytes) → EndsTrimmed (rstrip_by is_zero s)
unfolding rstrip_by
rstrip_by-last [] = inl refl
rstrip_by-last (c ∷ s) = elim (Bool-cases (is_zero c && is_empty (rstrip_by is_zero s))) [
  | inl e ↦ rw e (inl refl)
  | inr e ↦ rw e (
      inr (elim (rstrip_by-last s) [
        | inl none_left ↦ ([], c, ap (◌∷◌ c) none_left, alone none_left e)
        | inr (t, d, same, other) ↦ (c ∷ t, d, ap (◌∷◌ c) same, other)
      ]))
]
  where
    alone : rstrip_by is_zero s ≡ [] → is_zero c && is_empty (rstrip_by is_zero s) ≡ false → c ≢ 48
    alone none_left e zero_last = ground (arith, none_left, e, zero_last)

or_zero-IsTrimmed : (s : Bytes) → EndsTrimmed s → IsTrimmed (or_zero s)
or_zero-IsTrimmed [] h = inr (inl refl)
or_zero-IsTrimmed (c ∷ s) (inl e) = cc e
or_zero-IsTrimmed (c ∷ s) (inr h) = inr (inr h)

canonical_frac-IsTrimmed : (s : Bytes) → IsTrimmed (canonical_frac s)
unfolding canonical_frac
canonical_frac-IsTrimmed [] = inl refl
canonical_frac-IsTrimmed (c ∷ s) =
    or_zero-IsTrimmed (rstrip_by is_zero (c ∷ s)) (rstrip_by-last (c ∷ s))

or_zero_some : (s : Bytes) → or_zero s ≢ []
or_zero_some [] e = cc e
or_zero_some (c ∷ s) e = cc e

canonical_frac_nil : (s : Bytes) → (canonical_frac s ≡ []) ↔ (s ≡ [])
unfolding canonical_frac
canonical_frac_nil [] = (λ _. refl, λ _. refl)
canonical_frac_nil (c ∷ s) = (λ e. absurd (or_zero_some (rstrip_by is_zero (c ∷ s)) e), λ e. cc e)

pub canonical-IsTrimmed : (l : Literal) → IsTrimmed (canonical l).frac_part
unfolding canonical
canonical-IsTrimmed l = canonical_frac-IsTrimmed l.frac_part

pub canonical-frac_part : (l : Literal) → ((canonical l).frac_part ≡ []) ↔ (l.frac_part ≡ [])
unfolding canonical
canonical-frac_part l = canonical_frac_nil l.frac_part

-- The text of a literal: no plus sign, and a point only before digits.
abbrev behind : Bytes → Bytes → Bytes
behind i [] = i
behind i (c ∷ f) = i ++ 46 ∷ c ∷ f

abbrev pub text_of : Bool → Bytes → Bytes → Bytes
text_of true i f = 45 ∷ behind i f
text_of false i f = behind i f

pub render-text_of :
    (n : Bool) (i f : Bytes) → (if n then 45 ∷ [] else []) ++ (i ++ point f) ≡ text_of n i f
render-text_of true i [] = ap (◌∷◌ 45) (append-nil i)
render-text_of false i [] = append-nil i
render-text_of true i (c ∷ f) = refl
render-text_of false i (c ∷ f) = refl
