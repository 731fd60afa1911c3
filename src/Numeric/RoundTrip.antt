-- ===== src/Numeric/RoundTrip.antt =====
-- Reading back the text of a literal.
use cobol_java_transformatio.Common.{
  ℕ, ◌≡◌, refl, sym, ap, ◌∙◌, Bool, true, false, some, [], ◌∷◌, ◌++◌, append_assoc, append-nil,
  arith, if◌then◌else◌, is_empty,
}
use cobol_java_transformatio.Common.Bytes.{Bytes}
use cobol_java_transformatio.Numeric.Literal.{
  is_digit, is_zero, lstrip_by, rstrip_by, Literal, all_digits, parse_digits, parse, or_zero,
  canonical_int, canonical_frac, canonical, point, render,
}

-- Digits on both sides of the point, and at least one in front of it.
pub record IsWritten (l : Literal) : Type 0 where
  pub int_digits : all_digits l.int_part ≡ true
  pub frac_digits : all_digits l.frac_part ≡ true
  pub has_int : is_empty l.int_part ≡ false

parse_digits-append :
    (n : Bool) (read i t : Bytes)
    → all_digits i ≡ true
    → parse_digits n read (i ++ t) ≡ parse_digits n (read ++ i) t
unfolding parse_digits all_digits
parse_digits-append n read [] t h = ap (λ r. parse_digits n r t) (sym (append-nil read))
parse_digits-append n read (c ∷ i) t h =
    ground (arith, parse_digits-append n (read ++ c ∷ []) i t, append_assoc read (c ∷ []) i)

parse_digits-point :
    (n : Bool) (read f : Bytes)
    → is_empty read ≡ false
    → all_digits f ≡ true
    → parse_digits n read (point f) ≡ some (record { negative = n; int_part = read; frac_part = f })
unfolding parse_digits
parse_digits-point n read [] e h = ground arith
parse_digits-point n read (c ∷ f) e h = ground arith

-- An unsigned literal begins with a digit, so no sign is read.
parse-unsigned :
    (c : ℕ) (s : Bytes) → is_digit c ≡ true → parse (c ∷ s) ≡ parse_digits false [] (c ∷ s)
unfolding parse
parse-unsigned c s h = ground arith

parse-signed : (s : Bytes) → parse (45 ∷ s) ≡ parse_digits true [] s
unfolding parse
parse-signed s = refl

pub first_digit : (c : ℕ) (i : Bytes) → all_digits (c ∷ i) ≡ true → is_digit c ≡ true
unfolding all_digits
first_digit c i h = ground arith

parse-parts :
    (n : Bool) (i f : Bytes)
    → all_digits i ≡ true
    → all_digits f ≡ true
    → is_empty i ≡ false
    → parse ((if n then 45 ∷ [] else []) ++ (i ++ point f))
      ≡ some (record { negative = n; int_part = i; frac_part = f })
parse-parts true i f hi hf e =
    parse-signed (i ++ point f)
    ∙ parse_digits-append true [] i (point f) hi
    ∙ parse_digits-point true i f e hf
parse-parts false [] f hi hf e = cc
parse-parts false (c ∷ i) f hi hf e =
    parse-unsigned c (i ++ point f) (first_digit c i hi)
    ∙ parse_digits-append false [] (c ∷ i) (point f) hi
    ∙ parse_digits-point false (c ∷ i) f e hf

-- A written literal reads back as itself, whatever its sign and whether or not it has a fraction.
pub parse-render : (l : Literal) → IsWritten l → parse (render l) ≡ some l
unfolding render
parse-render l w =
    parse-parts l.negative l.int_part l.frac_part w.int_digits w.frac_digits w.has_int

all_digits-append :
    (s t : Bytes) → all_digits s ≡ true → all_digits t ≡ true → all_digits (s ++ t) ≡ true
unfolding all_digits
all_digits-append [] t h k = k
all_digits-append (c ∷ s) t h k = ground (arith, all_digits-append s t)

abbrev pub AreDigits : Literal → Type 0
AreDigits l = (all_digits l.int_part ≡ true) × (all_digits l.frac_part ≡ true)

parse_digits-AreDigits :
    (n : Bool) (read s : Bytes) {l : Literal}
    → all_digits read ≡ true
    → parse_digits n read s ≡ some l
    → AreDigits l
unfolding parse_digits all_digits
parse_digits-AreDigits n read [] {l} h e = ground arith
parse_digits-AreDigits n read (c ∷ s) {l} h e =
    ground
      (arith, parse_digits-AreDigits n (read ++ c ∷ []) s {l = l}, all_digits-append read (c ∷ []))

no_digits : all_digits [] ≡ true
unfolding all_digits
no_digits = refl

pub parse-AreDigits : (s : Bytes) {l : Literal} → parse s ≡ some l → AreDigits l
unfolding parse
parse-AreDigits [] e = cc
parse-AreDigits (c ∷ s) {l} e = ground (
  arith,
  parse_digits-AreDigits true [] s {l = l},
  parse_digits-AreDigits false [] s {l = l},
  parse_digits-AreDigits false [] (c ∷ s) {l = l},
  no_digits,
)

all_digits-lstrip : (s : Bytes) → all_digits s ≡ true → all_digits (lstrip_by is_zero s) ≡ true
unfolding all_digits lstrip_by
all_digits-lstrip [] h = refl
all_digits-lstrip (c ∷ s) h = ground (arith, all_digits-lstrip s)

all_digits-rstrip : (s : Bytes) → all_digits s ≡ true → all_digits (rstrip_by is_zero s) ≡ true
unfolding all_digits rstrip_by
all_digits-rstrip [] h = refl
all_digits-rstrip (c ∷ s) h = ground (arith, all_digits-rstrip s)

all_digits-or_zero : (s : Bytes) → all_digits s ≡ true → all_digits (or_zero s) ≡ true
unfolding all_digits
all_digits-or_zero [] h = refl
all_digits-or_zero (c ∷ s) h = h

pub canonical-IsWritten : (l : Literal) → AreDigits l → IsWritten (canonical l)
unfolding canonical canonical_int canonical_frac
canonical-IsWritten l (h, k) = record {
  int_digits = all_digits-or_zero _ (all_digits-lstrip l.int_part h);
  frac_digits = frac l.frac_part k;
  has_int = some_digit (lstrip_by is_zero l.int_part);
}
  where
    frac : (s : Bytes) → all_digits s ≡ true → all_digits (canonical_frac s) ≡ true
    frac [] h = h
    frac (c ∷ s) h = all_digits-or_zero _ (all_digits-rstrip (c ∷ s) h)

    some_digit : (s : Bytes) → is_empty (or_zero s) ≡ false
    some_digit [] = refl
    some_digit (c ∷ s) = refl
