-- ===== src/Numeric/Value.antt =====
-- The number that a literal stands for, and its canonical form.
use cobol_java_transformatio.Common.{
  ap, sym, append-nil, ℕ, zero, suc, ◌+◌, ◌-◌, ◌*◌, ◌≡◌, inl, inr, refl, subst, ◌∙◌, true, ◌&&◌, [],
  ◌∷◌, ◌++◌, length, arith, Bool-cases, is_empty,
}
use cobol_java_transformatio.Common.Bytes.{Bytes}
use cobol_java_transformatio.Numeric.Literal.{
  is_zero, lstrip_by, rstrip_by, Literal, or_zero, canonical_int, canonical_frac, canonical,
}

-- The number of a digit text, behind a number that was read already.
unfoldable pub value : ℕ → Bytes → ℕ
value n [] = n
value n (c ∷ s) = value (10 * n + (c - 48)) s

abbrev pub power_of_ten : ℕ → ℕ
power_of_ten zero = 1
power_of_ten (suc k) = 10 * power_of_ten k

-- Leading zeros add nothing.
value-lstrip : (s t : Bytes) → value 0 (lstrip_by is_zero s ++ t) ≡ value 0 (s ++ t)
unfolding value lstrip_by
value-lstrip [] t = refl
value-lstrip (c ∷ s) t = ground (arith, value-lstrip s t)

value-or_zero : (s t : Bytes) → value 0 (or_zero s ++ t) ≡ value 0 (s ++ t)
unfolding value
value-or_zero [] t = refl
value-or_zero (c ∷ s) t = refl

scale : (a b p q : ℕ) → a * p ≡ b * q → a * (10 * p) ≡ b * (10 * q)
scale a b p q h = grind (arith, h)

scale_zero : (n v p : ℕ) → (10 * n + 0) * p ≡ v * 1 → n * (10 * p) ≡ v * 1
scale_zero n v p h = grind (arith, h)

is_empty-true : (s : Bytes) → is_empty s ≡ true → s ≡ []
is_empty-true [] h = refl
is_empty-true (c ∷ s) h = cc

-- Trailing zeros scale the number and the number of digits alike.
value-rstrip :
    (n : ℕ) (s : Bytes)
    → value n (rstrip_by is_zero s) * power_of_ten (length s)
      ≡ value n s * power_of_ten (length (rstrip_by is_zero s))
unfolding value rstrip_by
value-rstrip n [] = refl
value-rstrip n (c ∷ s) = elim (Bool-cases (is_zero c && is_empty (rstrip_by is_zero s))) [
  | inl e ↦ rw e (
      let empty : rstrip_by is_zero s ≡ [] =
        is_empty-true (rstrip_by is_zero s) (ground (arith, e)) in
      let zero_digit : c ≡ 48 = ground (arith, e) in
      let ih =
        subst
          (λ (d : ℕ).
            value (10 * n + (d - 48)) (rstrip_by is_zero s) * power_of_ten (length s)
            ≡ value (10 * n + (d - 48)) s * power_of_ten (length (rstrip_by is_zero s)))
          zero_digit (value-rstrip (10 * n + (c - 48)) s) in
      rw zero_digit (scale_zero n _ _ (rw empty at ih)))
  | inr e ↦ rw e (scale _ _ _ _ (value-rstrip (10 * n + (c - 48)) s))
]

-- `or "0"` keeps a number that was scaled for at least one digit.
value-or_zero_scaled :
    (n v k : ℕ) (r : Bytes)
    → value n r * power_of_ten (suc k) ≡ v * power_of_ten (length r)
    → value n (or_zero r) * power_of_ten (suc k) ≡ v * power_of_ten (length (or_zero r))
unfolding value
value-or_zero_scaled n v k [] h = grind (arith, h)
value-or_zero_scaled n v k (d ∷ r) h = h

pub value-canonical_frac :
    (n : ℕ) (s : Bytes)
    → value n (canonical_frac s) * power_of_ten (length s)
      ≡ value n s * power_of_ten (length (canonical_frac s))
unfolding canonical_frac
value-canonical_frac n [] = refl
value-canonical_frac n (c ∷ s) =
    value-or_zero_scaled n (value n (c ∷ s)) (length s) (rstrip_by is_zero (c ∷ s))
      (value-rstrip n (c ∷ s))

pub value-append : (n : ℕ) (s t : Bytes) → value n (s ++ t) ≡ value (value n s) t
unfolding value
value-append n [] t = refl
value-append n (c ∷ s) t = value-append (10 * n + (c - 48)) s t

pub value-canonical_int : (s : Bytes) → value 0 (canonical_int s) ≡ value 0 s
unfolding canonical_int
value-canonical_int s =
    ap (value 0) (sym (append-nil (or_zero (lstrip_by is_zero s))))
    ∙ value-or_zero (lstrip_by is_zero s) []
    ∙ value-lstrip s []
    ∙ ap (value 0) (append-nil s)

-- A literal's digits as one number; the length of its fraction says where the point stands.
abbrev pub mantissa : Literal → ℕ
mantissa l = value 0 (l.int_part ++ l.frac_part)

abbrev pub scale_of : Literal → ℕ
scale_of l = power_of_ten (length l.frac_part)

-- The canonical form of a literal has the same sign and is the same number: the mantissas are equal
-- when each is scaled by the other's power of ten.
pub canonical-value :
    (l : Literal)
    → ((canonical l).negative ≡ l.negative)
      × (mantissa (canonical l) * scale_of l ≡ mantissa l * scale_of (canonical l))
unfolding canonical canonical_int
canonical-value l =
    let i = l.int_part in
    let f = canonical_frac l.frac_part in
    let int_same : mantissa (canonical l) ≡ value (value 0 i) f =
      value-or_zero (lstrip_by is_zero i) f ∙ value-lstrip i f ∙ value-append 0 i f in
    (
      refl,
      rw (int_same, value-append 0 i l.frac_part) (value-canonical_frac (value 0 i) l.frac_part),
    )
