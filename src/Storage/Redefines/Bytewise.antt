-- ===== src/Storage/Redefines/Bytewise.antt =====
-- The initial bytes of a base: as many as its PICTURE says, and digits where it is a number.
use cobol_java_transformatio.Common.{
  ℕ, zero, suc, ◌-◌, ◌≤◌, ◌<◌, ◌≡◌, refl, ap, sym, ◌∙◌, inl, inr, Bool, true, false, not, some, [],
  ◌∷◌, ◌++◌, any, length, Bool-cases, arith,
}
use cobol_java_transformatio.Common.Bytes.{Bytes, drop, length-append, length-drop}
use cobol_java_transformatio.Numeric.Literal.{is_digit}
use cobol_java_transformatio.Storage.Item.{Description, strip, is_numeric}
use cobol_java_transformatio.Storage.Figurative.{repeat}
use cobol_java_transformatio.Storage.Layout.Packed.{fit-length}
use cobol_java_transformatio.Storage.Redefines.{
  is_digits, last_of, rjust, value_or_zero, plain_value, initial_text, alphanumeric_initial,
  initial_bytes,
}

abbrev pub has_other : Bytes → Bool
has_other s = any (λ c. not (is_digit c)) s

has_other-append :
    (s t : Bytes) → has_other s ≡ false → has_other t ≡ false → has_other (s ++ t) ≡ false
has_other-append [] t h k = k
has_other-append (c ∷ s) t h k = ground (arith, has_other-append s t)

has_other-drop : (n : ℕ) (s : Bytes) → has_other s ≡ false → has_other (drop n s) ≡ false
has_other-drop zero s h = h
has_other-drop (suc n) [] h = refl
has_other-drop (suc n) (c ∷ s) h = ground (arith, has_other-drop n s)

has_other-zeros : (n : ℕ) → has_other (repeat n (48 ∷ [])) ≡ false
unfolding repeat
has_other-zeros zero = refl
has_other-zeros (suc n) = has_other-zeros n

length-zeros : (n : ℕ) → length (repeat n (48 ∷ [])) ≡ n
unfolding repeat
length-zeros zero = refl
length-zeros (suc n) = ap suc (length-zeros n)

length-rjust : (n : ℕ) (s : Bytes) → length s ≤ n → length (rjust n s) ≡ n
unfolding rjust
length-rjust n s h =
    omega (arith, length-append (repeat (n - length s) (48 ∷ [])) s, length-zeros (n - length s))

length-last_of : (n : ℕ) (s : Bytes) → length (last_of n s) ≤ n
unfolding last_of
length-last_of n s = omega (arith, length-drop (length s - n) s)

-- Bytes that are digits, as many as the width.
fill_digits :
    (n : ℕ) (s : Bytes)
    → is_digits s ≡ true
    → (length (rjust n (last_of n s)) ≡ n) × (has_other (rjust n (last_of n s)) ≡ false)
unfolding is_digits
fill_digits n s h = (length-rjust n (last_of n s) (length-last_of n s), digits)
  where
    digits : has_other (rjust n (last_of n s)) ≡ false
    digits =
        unfold rjust last_of in
        has_other-append (repeat (n - length (drop (length s - n) s)) (48 ∷ []))
          (drop (length s - n) s) (has_other-zeros (n - length (drop (length s - n) s)))
          (has_other-drop (length s - n) s (ground arith))

some_digits : (s : Bytes) → 0 < length s → has_other s ≡ false → is_digits s ≡ true
unfolding is_digits
some_digits [] h k = absurd (omega arith)
some_digits (c ∷ s) h k = rw k refl

alphanumeric_initial-length : (d : Description) → length (alphanumeric_initial d) ≡ d.pic_length
unfolding alphanumeric_initial
alphanumeric_initial-length d = fit-length d.pic_length (initial_text d)

-- What is known of the initial bytes.
pub initial_bytes-length :
    (d : Description) (initial : Bytes)
    → initial_bytes d ≡ some initial
    → 0 < d.pic_length
    → (length initial ≡ d.pic_length) × (is_numeric d ≡ true → is_digits initial ≡ true)
unfolding initial_bytes
initial_bytes-length d initial h positive =
    let raw = plain_value (strip (value_or_zero d.value)) in
    elim (Bool-cases (is_numeric d)) [
      | inr e ↦
          let text : alphanumeric_initial d ≡ initial = cc (rw e at h) in
          (ap length (sym text) ∙ alphanumeric_initial-length d, λ n. cc (n, e))
      | inl e ↦ elim (Bool-cases (is_digits raw)) [
        | inl digits ↦
            let filled = fill_digits d.pic_length raw digits in
            let text : rjust d.pic_length (last_of d.pic_length raw) ≡ initial =
              cc (rw digits at (rw e at h)) in
            let long = ap length (sym text) ∙ filled.0 in
            let clean = ap has_other (sym text) ∙ filled.1 in
            (long, λ _. some_digits initial (omega (arith, long, positive)) clean)
        | inr other ↦ cc (rw other at (rw e at h))
      ]
    ]
