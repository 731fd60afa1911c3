-- ===== src/Numeric/Picture/Stored.antt =====
-- The text that `normalize_value_for_pic` writes for a literal, as a literal.
use native.Mathlib.Nat.{
  mul-le-mul_right, mul-lt-mul_of_pos_right, le_of_mul-le-mul_right, lt_of_mul-lt-mul_right,
}
use cobol_java_transformatio.Common.{
  ℕ, zero, suc, ◌+◌, ◌-◌, ◌*◌, ◌%◌, ◌≤◌, ◌<◌, ◌≡◌, ◌⊎◌, refl, sym, ap, ◌∙◌, Bool, true, false, some,
  [], ◌∷◌, ◌++◌, append-nil, arith, Bool-cases, length, ltb, if◌then◌else◌, is_empty, inl, inr, ok,
}
use cobol_java_transformatio.Common.Bytes.{Bytes, take, drop}
use cobol_java_transformatio.Numeric.Literal.{
  is_digit, Literal, all_digits, parse, render, canonical, canonical_int, canonical_frac, point,
  strip_quotes, normalize_numeric_literal,
}
use cobol_java_transformatio.Numeric.Value.{
  value, power_of_ten, value-canonical_int, value-canonical_frac,
}
use cobol_java_transformatio.Numeric.RoundTrip.{
  IsWritten, first_digit, AreDigits, parse-render, parse-AreDigits, canonical-IsWritten,
}
use cobol_java_transformatio.Numeric.Normal.{normalize_stripped-literal}
use cobol_java_transformatio.Numeric.Picture.{
  has_sign, before_point, behind_point, ljust, fit_int, fit_frac, fit_body, fit,
  normalize_value_for_pic,
}
use cobol_java_transformatio.Numeric.Picture.Storage.{
  IsTruncated, fit_int-value, fit_frac-IsTruncated, all_digits-drop, last_digits-drop,
  power_of_ten-pos,
}

before_point-digits : (i f : Bytes) → all_digits i ≡ true → before_point (i ++ point f) ≡ i
unfolding before_point all_digits
before_point-digits [] [] h = refl
before_point-digits [] (c ∷ f) h = refl
before_point-digits (c ∷ i) f h = ground (arith, before_point-digits i f)

behind_point-digits : (i f : Bytes) → all_digits i ≡ true → behind_point (i ++ point f) ≡ f
unfolding behind_point all_digits
behind_point-digits [] [] h = refl
behind_point-digits [] (c ∷ f) h = refl
behind_point-digits (c ∷ i) f h = ground (arith, behind_point-digits i f)

-- A picture with decimals always writes them, behind the point.
point-length : (s : Bytes) (d : ℕ) → length s ≡ suc d → point s ≡ 46 ∷ s
point-length [] d h = absurd (omega (arith, h))
point-length (c ∷ s) d h = refl

point-nil : (s : Bytes) → length s ≡ 0 → point s ≡ []
point-nil [] h = refl
point-nil (c ∷ s) h = absurd (omega (arith, h))

-- The literal that a picture stores.
unfoldable pub stored : ℕ → ℕ → Literal → Literal
stored n d l = record {
  negative = l.negative;
  int_part = fit_int n l.int_part;
  frac_part = fit_frac d l.frac_part;
}

fit_body-parts :
    (n d : ℕ) (i f : Bytes)
    → all_digits i ≡ true
    → length (fit_frac d f) ≡ d
    → fit_body n d (i ++ point f) ≡ fit_int n i ++ point (fit_frac d f)
unfolding fit_body
fit_body-parts n zero i f h k =
    ap (fit_int n) (before_point-digits i f h)
    ∙ sym (append-nil (fit_int n i))
    ∙ ap (λ t. fit_int n i ++ t) (sym (point-nil (fit_frac 0 f) k))
fit_body-parts n (suc d) i f h k =
    let parts =
      ap (λ (j : Bytes). fit_int n j ++ 46 ∷ fit_frac (suc d) (behind_point (i ++ point f)))
        (before_point-digits i f h)
      ∙ ap (λ (g : Bytes). fit_int n i ++ 46 ∷ fit_frac (suc d) g) (behind_point-digits i f h)
      ∙ ap (λ t. fit_int n i ++ t) (sym (point-length (fit_frac (suc d) f) d k)) in
    ground (arith, parts)

fit-unsigned : (n d c : ℕ) (s : Bytes) → is_digit c ≡ true → fit n d (c ∷ s) ≡ fit_body n d (c ∷ s)
unfolding fit
fit-unsigned n d c s h = ground arith

fit-signed : (n d : ℕ) (s : Bytes) → fit n d (45 ∷ s) ≡ 45 ∷ fit_body n d s
unfolding fit
fit-signed n d s = refl

fit-parts :
    (n d : ℕ) (m : Bool) (i f : Bytes)
    → all_digits i ≡ true
    → is_empty i ≡ false
    → length (fit_frac d f) ≡ d
    → fit n d ((if m then 45 ∷ [] else []) ++ (i ++ point f))
      ≡ (if m then 45 ∷ [] else []) ++ (fit_int n i ++ point (fit_frac d f))
fit-parts n d true i f h e k =
    fit-signed n d (i ++ point f) ∙ ap (◌∷◌ 45) (fit_body-parts n d i f h k)
fit-parts n d false [] f h e k = cc
fit-parts n d false (c ∷ i) f h e k =
    fit-unsigned n d c (i ++ point f) (first_digit c i h) ∙ fit_body-parts n d (c ∷ i) f h k

fit-render : (n d : ℕ) (l : Literal) → IsWritten l → fit n d (render l) ≡ render (stored n d l)
unfolding render stored
fit-render n d l w =
    fit-parts n d l.negative l.int_part l.frac_part w.int_digits w.has_int
      (fit_frac-IsTruncated d l.frac_part w.frac_digits).0

all_digits-take : (k : ℕ) (s : Bytes) → all_digits s ≡ true → all_digits (take k s) ≡ true
unfolding all_digits
all_digits-take zero s h = refl
all_digits-take (suc k) [] h = refl
all_digits-take (suc k) (c ∷ s) h = ground (arith, all_digits-take k s)

all_digits-ljust : (k : ℕ) (s : Bytes) → all_digits s ≡ true → all_digits (ljust k s) ≡ true
unfolding all_digits ljust
all_digits-ljust zero s h = h
all_digits-ljust (suc k) [] h = all_digits-ljust k [] h
all_digits-ljust (suc k) (c ∷ s) h = ground (arith, all_digits-ljust k s)

fit_frac-digits : (d : ℕ) (s : Bytes) → all_digits s ≡ true → all_digits (fit_frac d s) ≡ true
unfolding fit_frac
fit_frac-digits d s h = all_digits-ljust d _ (if_digits (ltb d (length s)) s h)
  where
    if_digits :
        (b : Bool) (s : Bytes) → all_digits s ≡ true → all_digits (if b then take d s else s) ≡ true
    if_digits true s h = all_digits-take d s h
    if_digits false s h = h

drop-is_empty : (k : ℕ) (s : Bytes) → k < length s → is_empty (drop k s) ≡ false
drop-is_empty zero [] h = absurd (omega (arith, h))
drop-is_empty zero (c ∷ s) h = refl
drop-is_empty (suc k) [] h = absurd (omega (arith, h))
drop-is_empty (suc k) (c ∷ s) h = drop-is_empty k s (omega (arith, h))

fit_int-IsWritten :
    (n : ℕ) (s : Bytes)
    → 0 < n
    → all_digits s ≡ true
    → is_empty s ≡ false
    → (all_digits (fit_int n s) ≡ true) × (is_empty (fit_int n s) ≡ false)
unfolding fit_int
fit_int-IsWritten n s p h e = elim (Bool-cases (ltb n (length s))) [
  | inl o ↦
      let shorter : length s - n < length s = ground (arith, o, p) in
      rw o (
        rw (last_digits-drop n s p)
          (all_digits-drop (length s - n) s h, drop-is_empty (length s - n) s shorter))
  | inr o ↦ rw o (h, e)
]

pub stored-IsWritten : (n d : ℕ) (l : Literal) → 0 < n → IsWritten l → IsWritten (stored n d l)
unfolding stored
stored-IsWritten n d l p w =
    let (digits, some_digit) = fit_int-IsWritten n l.int_part p w.int_digits w.has_int in
    record {
      int_digits = digits;
      frac_digits = fit_frac-digits d l.frac_part w.frac_digits;
      has_int = some_digit;
    }

-- A cut-off number is cut off in the same way from another writing of it.
transfer :
    (w d v p v' q : ℕ)
    → v * q ≡ v' * p
    → 0 < p
    → (w * p ≤ v * d) × (v * d < (w + 1) * p)
    → 0 < q
    → (w * q ≤ v' * d) × (v' * d < (w + 1) * q)
transfer w d v p v' q e pos (low, high) pos_q =
    let low_q : w * p * q ≤ v * d * q = mul-le-mul_right q low in
    let high_q : v * d * q < (w + 1) * p * q = mul-lt-mul_of_pos_right high pos_q in
    let turned : v * q * d ≡ v' * p * d = ap (λ (x : ℕ). x * d) e in
    let low_p : w * q * p ≤ v' * d * p = grind (arith, low_q, turned) in
    let high_p : v' * d * p < (w + 1) * q * p = grind (arith, high_q, turned) in
    (le_of_mul-le-mul_right low_p pos, lt_of_mul-lt-mul_right p high_p)

-- What a picture of n integer and d decimal digits stores of a literal.
pub record IsStored (n d : ℕ) (l k : Literal) : Type 0 where
  pub same_sign : k.negative ≡ l.negative
  pub int_modulo : value 0 k.int_part ≡ value 0 l.int_part % power_of_ten n
  pub int_fits : length k.int_part ≤ n
  pub frac_fits : length k.frac_part ≡ d
  pub frac_truncated :
      IsTruncated (value 0 k.frac_part) d (value 0 l.frac_part) (length l.frac_part)

stored-canonical :
    (n d : ℕ) (l : Literal) → 0 < n → AreDigits l → IsStored n d l (stored n d (canonical l))
unfolding stored canonical
stored-canonical n d l p a =
    let w = canonical-IsWritten l a in
    let (modulo, fits) = fit_int-value n (canonical_int l.int_part) p w.int_digits in
    let (full, truncated) = fit_frac-IsTruncated d (canonical_frac l.frac_part) w.frac_digits in
    record {
      same_sign = refl;
      int_modulo = modulo ∙ ap (λ (v : ℕ). v % power_of_ten n) (value-canonical_int l.int_part);
      int_fits = fits;
      frac_fits = full;
      frac_truncated =
          transfer _ (power_of_ten d) _ _ _ _ (value-canonical_frac 0 l.frac_part)
            (power_of_ten-pos (length (canonical_frac l.frac_part))) truncated
            (power_of_ten-pos (length l.frac_part));
    }

accepted :
    (text : Bytes) (n d : ℕ) (signed : Bool) (l : Literal)
    → parse (strip_quotes text) ≡ some l
    → (signed ≡ true) ⊎ (has_sign (strip_quotes text) ≡ false)
    → normalize_value_for_pic text n d signed ≡ ok (fit n d (render (canonical l)))
unfolding normalize_value_for_pic normalize_numeric_literal
accepted text n d signed l e h =
    ground (arith, normalize_stripped-literal text (strip_quotes text) e, h, e)

-- A numeric literal whose sign the picture can hold is stored in a picture with at least one integer
-- digit: the text that is written reads back as a literal with the same sign, the integer part modulo
-- ten to the number of integer digits and in no more digits, and exactly the declared decimals, which
-- are the fraction cut off and never rounded.
pub normalize_value_for_pic-IsStored :
    (text : Bytes) (n d : ℕ) (signed : Bool) (l : Literal)
    → 0 < n
    → parse (strip_quotes text) ≡ some l
    → (signed ≡ true) ⊎ (has_sign (strip_quotes text) ≡ false)
    → (r : Bytes) × (k : Literal) × (normalize_value_for_pic text n d signed ≡ ok r)
      × (parse r ≡ some k)
      × IsStored n d l k
normalize_value_for_pic-IsStored text n d signed l p e h =
    let digits = parse-AreDigits (strip_quotes text) e in
    let w = canonical-IsWritten l digits in
    let k = stored n d (canonical l) in
    (
      fit n d (render (canonical l)),
      k,
      accepted text n d signed l e h,
      ap parse (fit-render n d (canonical l) w)
          ∙ parse-render k (stored-IsWritten n d (canonical l) p w),
      stored-canonical n d l p digits,
    )
