-- ===== src/Numeric/Picture/Storage.antt =====
-- The digits that a picture stores, against the digits of a literal.
use native.Mathlib.Nat.{
  mul-le-mul_right, mul-lt-mul_of_pos_right, mod-eq_of_lt, add-mul-mod_self_left,
}
use cobol_java_transformatio.Common.{
  ℕ, zero, suc, ◌+◌, ◌-◌, ◌*◌, ◌%◌, ◌≤◌, ◌<◌, ◌≡◌, refl, sym, ap, subst, ◌∙◌, true, [], ◌∷◌, arith,
  Bool-cases, length, ltb, inl, inr,
}
use cobol_java_transformatio.Common.Bytes.{Bytes, take, drop, take-append-drop, length-drop}
use cobol_java_transformatio.Numeric.Literal.{all_digits}
use cobol_java_transformatio.Numeric.Value.{value, value-append, power_of_ten}
use cobol_java_transformatio.Numeric.Picture.{last_digits, ljust, fit_int, fit_frac}

-- A number in front is scaled by the digits that follow it.
value-shift : (n : ℕ) (s : Bytes) → value n s ≡ n * power_of_ten (length s) + value 0 s
unfolding value
value-shift n [] = omega arith
value-shift n (c ∷ s) =
    grind (arith, value-shift (10 * n + (c - 48)) s, value-shift (0 + (c - 48)) s)

below_ten : (d p v w : ℕ) → d ≤ 9 → v < p → w ≡ (0 + d) * p + v → w < 10 * p
below_ten d p v w h k e =
    let scaled : d * p ≤ 9 * p = mul-le-mul_right p h in grind (arith, scaled, k, e)

-- A number of k digits is below the k-th power of ten.
value-bound : (s : Bytes) → all_digits s ≡ true → value 0 s < power_of_ten (length s)
unfolding value all_digits
value-bound [] h = omega arith
value-bound (c ∷ s) h =
    let digits : all_digits s ≡ true = ground arith in
    let digit : c - 48 ≤ 9 = ground arith in
    below_ten (c - 48) (power_of_ten (length s)) (value 0 s) (value (0 + (c - 48)) s) digit
      (value-bound s digits) (value-shift (0 + (c - 48)) s)

pub power_of_ten-pos : (k : ℕ) → 0 < power_of_ten k
power_of_ten-pos zero = omega arith
power_of_ten-pos (suc k) = omega (arith, power_of_ten-pos k)

power_of_ten_mono : (j k : ℕ) → j ≤ k → power_of_ten j ≤ power_of_ten k
power_of_ten_mono zero k h = omega (arith, power_of_ten-pos k)
power_of_ten_mono (suc j) zero h = absurd (omega (arith, h))
power_of_ten_mono (suc j) (suc k) h = omega (arith, power_of_ten_mono j k (omega (arith, h)))

pub all_digits-drop : (k : ℕ) (s : Bytes) → all_digits s ≡ true → all_digits (drop k s) ≡ true
unfolding all_digits
all_digits-drop zero s h = h
all_digits-drop (suc k) [] h = h
all_digits-drop (suc k) (c ∷ s) h = all_digits-drop k s (ground arith)

-- The digits behind the first k are the number modulo their power of ten.
value-drop :
    (k : ℕ) (s : Bytes)
    → all_digits s ≡ true
    → value 0 (drop k s) ≡ value 0 s % power_of_ten (length (drop k s))
value-drop k s h =
    let p = power_of_ten (length (drop k s)) in
    let v = value 0 (drop k s) in
    let whole : value 0 s ≡ value (value 0 (take k s)) (drop k s) =
      ap (value 0) (sym (take-append-drop k s)) ∙ value-append 0 (take k s) (drop k s) in
    let split = whole ∙ value-shift (value 0 (take k s)) (drop k s) in
    let swapped : value 0 s ≡ v + p * value 0 (take k s) = grind (arith, split) in
    let small : v % p ≡ v = mod-eq_of_lt (value-bound (drop k s) (all_digits-drop k s h)) in
    sym (ap (λ (n : ℕ). n % p) swapped ∙ add-mul-mod_self_left v p (value 0 (take k s)) ∙ small)

pub last_digits-drop : (n : ℕ) (s : Bytes) → 0 < n → last_digits n s ≡ drop (length s - n) s
unfolding last_digits
last_digits-drop n s h = ground arith

-- On overflow the stored integer is the literal's modulo ten to the number of integer digits, and it
-- never has more digits than that.
pub fit_int-value :
    (n : ℕ) (s : Bytes)
    → 0 < n
    → all_digits s ≡ true
    → (value 0 (fit_int n s) ≡ value 0 s % power_of_ten n) × (length (fit_int n s) ≤ n)
unfolding fit_int
fit_int-value n s p h = elim (Bool-cases (ltb n (length s))) [
  | inl e ↦
      let shorter : n < length s = ground (arith, e) in
      let rest : length (drop (length s - n) s) ≡ n =
        length-drop (length s - n) s ∙ omega (arith, shorter) in
      rw e (
        rw (last_digits-drop n s p) (
          subst (λ (j : ℕ). value 0 (drop (length s - n) s) ≡ value 0 s % power_of_ten j) rest
              (value-drop (length s - n) s h),
          omega (arith, rest),
        ))
  | inr e ↦
      let fits : length s ≤ n = ground (arith, e) in
      let below : value 0 s < power_of_ten n =
        omega (arith, value-bound s h, power_of_ten_mono (length s) n fits) in
      rw e (sym (mod-eq_of_lt below), fits)
]

ljust-length : (n : ℕ) (s : Bytes) → length s ≤ n → length (ljust n s) ≡ n
unfolding ljust
ljust-length zero [] h = refl
ljust-length zero (c ∷ s) h = absurd (omega (arith, h))
ljust-length (suc n) [] h = ap suc (ljust-length n [] (omega arith))
ljust-length (suc n) (c ∷ s) h = ap suc (ljust-length n s (omega (arith, h)))

-- Padding scales the number by the digits that it adds.
ljust-value :
    (m n : ℕ) (s : Bytes)
    → length s ≤ n
    → value m (ljust n s) * power_of_ten (length s) ≡ value m s * power_of_ten n
unfolding ljust value
ljust-value m zero [] h = refl
ljust-value m zero (c ∷ s) h = absurd (omega (arith, h))
ljust-value m (suc n) [] h = grind (arith, ljust-value (10 * m + 0) n [] (omega arith))
ljust-value m (suc n) (c ∷ s) h =
    grind (arith, ljust-value (10 * m + (c - 48)) n s (omega (arith, h)))

-- A number v of j digits is w cut off, or filled up, to k digits behind the point.
abbrev pub IsTruncated : ℕ → ℕ → ℕ → ℕ → Type 0
IsTruncated w k v j =
    (w * power_of_ten j ≤ v * power_of_ten k) × (v * power_of_ten k < (w + 1) * power_of_ten j)

take-length : (n : ℕ) (s : Bytes) → n ≤ length s → length (take n s) ≡ n
take-length zero s h = refl
take-length (suc n) [] h = absurd (omega (arith, h))
take-length (suc n) (c ∷ s) h = ap suc (take-length n s (omega (arith, h)))

ljust-full : (n : ℕ) (s : Bytes) → length s ≡ n → ljust n s ≡ s
unfolding ljust
ljust-full zero s h = refl
ljust-full (suc n) [] h = absurd (omega (arith, h))
ljust-full (suc n) (c ∷ s) h = ap (◌∷◌ c) (ljust-full n s (omega (arith, h)))

exact : (w v p d : ℕ) → w * p ≡ v * d → 0 < p → (w * p ≤ v * d) × (v * d < (w + 1) * p)
exact w v p d e h = (omega (arith, e), grind (arith, e, h))

cut :
    (a b q d p v : ℕ)
    → v ≡ a * q + b
    → b < q
    → p ≡ d * q
    → 0 < d
    → (a * p ≤ v * d) × (v * d < (a + 1) * p)
cut a b q d p v e h f pos =
    let scaled : b * d < q * d = mul-lt-mul_of_pos_right h pos in
    rw (e, f) (grind arith, grind (arith, scaled))

power_of_ten-add : (j k : ℕ) → power_of_ten (j + k) ≡ power_of_ten j * power_of_ten k
power_of_ten-add zero k =
    let start : k ≡ 0 + k = omega arith in ap power_of_ten (sym start) ∙ grind arith
power_of_ten-add (suc j) k =
    let next : suc (j + k) ≡ suc j + k = omega arith in
    ap power_of_ten (sym next) ∙ grind (arith, power_of_ten-add j k)

cut_digits :
    (n : ℕ) (s : Bytes)
    → all_digits s ≡ true
    → n ≤ length s
    → IsTruncated (value 0 (take n s)) n (value 0 s) (length s)
cut_digits n s h k =
    let rest : n + length (drop n s) ≡ length s = omega (arith, length-drop n s, k) in
    let split : value 0 s
        ≡ value 0 (take n s) * power_of_ten (length (drop n s)) + value 0 (drop n s) =
      ap (value 0) (sym (take-append-drop n s))
      ∙ value-append 0 (take n s) (drop n s)
      ∙ value-shift (value 0 (take n s)) (drop n s) in
    cut _ _ _ _ _ _ split (value-bound (drop n s) (all_digits-drop n s h))
      (ap power_of_ten (sym rest) ∙ power_of_ten-add n (length (drop n s))) (power_of_ten-pos n)

-- The stored fraction has the declared number of digits, and is the fraction cut off behind them,
-- never rounded.
pub fit_frac-IsTruncated :
    (n : ℕ) (s : Bytes)
    → all_digits s ≡ true
    → (length (fit_frac n s) ≡ n) × IsTruncated (value 0 (fit_frac n s)) n (value 0 s) (length s)
unfolding fit_frac
fit_frac-IsTruncated n s h = elim (Bool-cases (ltb n (length s))) [
  | inl e ↦
      let shorter : n < length s = ground (arith, e) in
      let full = take-length n s (omega (arith, shorter)) in
      rw e (rw (ljust-full n (take n s) full) (full, cut_digits n s h (omega (arith, shorter))))
  | inr e ↦
      let fits : length s ≤ n = ground (arith, e) in
      rw e (
        ljust-length n s fits,
        exact _ _ _ _ (ljust-value 0 n s fits) (power_of_ten-pos (length s)),
      )
]
