-- ===== src/Numeric/Canonical.antt =====
-- What `normalize_numeric_literal` writes, and what a second normalization does with it.
use cobol_java_transformatio.Common.{
  ℕ, ◌≡◌, inl, inr, refl, sym, ap, subst, ◌∙◌, Bool, true, false, ◌&&◌, some, [], ◌∷◌, ◌++◌, arith,
  Option-cases, leb, if◌then◌else◌, any, Result, ok,
}
use cobol_java_transformatio.Common.Bytes.{Bytes}
use cobol_java_transformatio.Numeric.Literal.{
  is_zero, is_white, is_quote, lstrip_by, rstrip_by, strip_by, strip_quotes, Literal, all_digits,
  parse, or_zero, canonical_int, canonical_frac, canonical, point, render, normalize_stripped,
  normalize_numeric_literal,
}
use cobol_java_transformatio.Numeric.RoundTrip.{
  IsWritten, AreDigits, parse-render, parse-AreDigits, canonical-IsWritten,
}
use cobol_java_transformatio.Numeric.Ends.{IsNotOctal, canonical-IsNotOctal}
use cobol_java_transformatio.Numeric.Normal.{normalize_stripped-literal}

lstrip_by_idem : (p : ℕ → Bool) (s : Bytes) → lstrip_by p (lstrip_by p s) ≡ lstrip_by p s
unfolding lstrip_by
lstrip_by_idem p [] = refl
lstrip_by_idem p (c ∷ s) = ground (arith, lstrip_by_idem p s)

rstrip_by_idem : (p : ℕ → Bool) (s : Bytes) → rstrip_by p (rstrip_by p s) ≡ rstrip_by p s
unfolding rstrip_by
rstrip_by_idem p [] = refl
rstrip_by_idem p (c ∷ s) = ground (arith, rstrip_by_idem p s)

-- `or "0"` does not undo the stripping.
lstrip_by-or_zero :
    (s : Bytes) → lstrip_by is_zero s ≡ s → or_zero (lstrip_by is_zero (or_zero s)) ≡ or_zero s
unfolding lstrip_by
lstrip_by-or_zero [] h = refl
lstrip_by-or_zero (c ∷ s) h = ap or_zero h

frac-or_zero : (s : Bytes) → rstrip_by is_zero s ≡ s → canonical_frac (or_zero s) ≡ or_zero s
unfolding canonical_frac rstrip_by
frac-or_zero [] h = refl
frac-or_zero (c ∷ s) h = ap or_zero h

canonical_int_idem : (s : Bytes) → canonical_int (canonical_int s) ≡ canonical_int s
unfolding canonical_int
canonical_int_idem s = lstrip_by-or_zero (lstrip_by is_zero s) (lstrip_by_idem is_zero s)

canonical_frac_idem : (s : Bytes) → canonical_frac (canonical_frac s) ≡ canonical_frac s
unfolding canonical_frac
canonical_frac_idem [] = refl
canonical_frac_idem (c ∷ s) =
    frac-or_zero (rstrip_by is_zero (c ∷ s)) (rstrip_by_idem is_zero (c ∷ s))

pub canonical_idem : (l : Literal) → canonical (canonical l) ≡ canonical l
unfolding canonical
canonical_idem l = cc (canonical_int_idem l.int_part, canonical_frac_idem l.frac_part)

ok_injective : {E A : Type 0} {a b : A} → ◌≡◌ {A = Result E A} (ok a) (ok b) → a ≡ b
ok_injective h = cc

-- Characters that stripping leaves alone.
abbrev all_numeral : Bytes → Bool
all_numeral [] = true
all_numeral (c ∷ s) = leb 45 c && leb c 57 && all_numeral s

lstrip_by-none : (p : ℕ → Bool) (s : Bytes) → any p s ≡ false → lstrip_by p s ≡ s
unfolding lstrip_by
lstrip_by-none p [] h = refl
lstrip_by-none p (c ∷ s) h = ground arith

rstrip_by-none : (p : ℕ → Bool) (s : Bytes) → any p s ≡ false → rstrip_by p s ≡ s
unfolding rstrip_by
rstrip_by-none p [] h = refl
rstrip_by-none p (c ∷ s) h = ground (arith, rstrip_by-none p s)

numeral-plain :
    (s : Bytes) → all_numeral s ≡ true → (any is_white s ≡ false) × (any is_quote s ≡ false)
numeral-plain [] h = (refl, refl)
numeral-plain (c ∷ s) h = ground (arith, numeral-plain s)

strip_by-none : (p : ℕ → Bool) (s : Bytes) → any p s ≡ false → strip_by p s ≡ s
strip_by-none p s h = ap (rstrip_by p) (lstrip_by-none p s h) ∙ rstrip_by-none p s h

strip_quotes-numeral : (s : Bytes) → all_numeral s ≡ true → strip_quotes s ≡ s
unfolding strip_quotes
strip_quotes-numeral s h =
    let (white, quote) = numeral-plain s h in
    let bare = strip_by-none is_white s white in
    ap (λ (t : Bytes). strip_by is_white (strip_by is_quote t)) bare
    ∙ ap (strip_by is_white) (strip_by-none is_quote s quote)
    ∙ bare

all_numeral-append :
    (s t : Bytes) → all_numeral s ≡ true → all_numeral t ≡ true → all_numeral (s ++ t) ≡ true
all_numeral-append [] t h k = k
all_numeral-append (c ∷ s) t h k = ground (arith, all_numeral-append s t)

all_numeral-digits : (s : Bytes) → all_digits s ≡ true → all_numeral s ≡ true
unfolding all_digits
all_numeral-digits [] h = refl
all_numeral-digits (c ∷ s) h = ground (arith, all_numeral-digits s)

all_numeral-point : (s : Bytes) → all_digits s ≡ true → all_numeral (point s) ≡ true
all_numeral-point [] h = refl
all_numeral-point (c ∷ s) h = ground (arith, all_numeral-digits (c ∷ s) h)

all_numeral-sign : (n : Bool) → all_numeral (if n then 45 ∷ [] else []) ≡ true
all_numeral-sign true = refl
all_numeral-sign false = refl

render-numeral : (l : Literal) → IsWritten l → all_numeral (render l) ≡ true
unfolding render
render-numeral l w =
    all_numeral-append (if l.negative then 45 ∷ [] else []) (l.int_part ++ point l.frac_part)
      (all_numeral-sign l.negative)
      (all_numeral-append l.int_part (point l.frac_part)
        (all_numeral-digits l.int_part w.int_digits) (all_numeral-point l.frac_part w.frac_digits))

-- A result is the text of a canonical literal.
record IsNormal (r : Bytes) : Type 0 where
  literal : Literal
  written : IsWritten literal
  canonical_literal : canonical literal ≡ literal
  shown : r ≡ render literal

abbrev zero_literal : Literal
zero_literal = record { negative = false; int_part = 48 ∷ []; frac_part = [] }

zero-IsNormal : IsNormal (48 ∷ [])
unfolding canonical canonical_int canonical_frac lstrip_by all_digits render
zero-IsNormal = record {
  literal = zero_literal;
  written = record { int_digits = refl; frac_digits = refl; has_int = refl };
  canonical_literal = refl;
  shown = refl;
}

canonical-IsNormal : (l : Literal) → AreDigits l → IsNormal (render (canonical l))
canonical-IsNormal l d = record {
  literal = canonical l;
  written = canonical-IsWritten l d;
  canonical_literal = canonical_idem l;
  shown = refl;
}

normalize_stripped-IsNormal :
    (text s : Bytes) {r : Bytes} → normalize_stripped text s ≡ ok r → IsNormal r
unfolding normalize_stripped
normalize_stripped-IsNormal text s {r} e = elim (Option-cases (parse s)) [
  | inr (l, found) ↦
      let same : r ≡ render (canonical l) =
        ok_injective (sym e ∙ normalize_stripped-literal text s found) in
      subst IsNormal (sym same) (canonical-IsNormal l (parse-AreDigits s found))
  | inl none_found ↦
      let is_zero_text : r ≡ 48 ∷ [] = ground (arith, none_found, e) in
      subst IsNormal (sym is_zero_text) zero-IsNormal
]

normalize-IsNormal : (text : Bytes) {r : Bytes} → normalize_numeric_literal text ≡ ok r → IsNormal r
unfolding normalize_numeric_literal
normalize-IsNormal text e = normalize_stripped-IsNormal text (strip_quotes text) e

normalize-IsWritten :
    (l : Literal)
    → IsWritten l
    → canonical l ≡ l
    → normalize_numeric_literal (render l) ≡ ok (render l)
unfolding normalize_numeric_literal
normalize-IsWritten l w c =
    ap (normalize_stripped (render l)) (strip_quotes-numeral (render l) (render-numeral l w))
    ∙ normalize_stripped-literal (render l) (render l) (parse-render l w)
    ∙ ap (λ (k : Literal). ok (render k)) c

-- Normalizing a second time changes nothing, whatever text the first result came from.
pub normalize_numeric_literal_idem :
    (text : Bytes) {r : Bytes}
    → normalize_numeric_literal text ≡ ok r
    → normalize_numeric_literal r ≡ ok r
normalize_numeric_literal_idem text {r} e =
    let n = normalize-IsNormal text e in
    subst (λ (s : Bytes). normalize_numeric_literal s ≡ ok s) (sym n.shown)
      (normalize-IsWritten n.literal n.written n.canonical_literal)

-- Every result is a numeric literal with digits in front of the point, and these are the single digit 0
-- or begin with another digit: Java never reads a result as octal.
pub normalize_numeric_literal-IsNotOctal :
    (text : Bytes) {r : Bytes}
    → normalize_numeric_literal text ≡ ok r
    → (l : Literal) × (parse r ≡ some l) × IsNotOctal l.int_part
normalize_numeric_literal-IsNotOctal text {r} e =
    let n = normalize-IsNormal text e in
    (
      n.literal,
      ap parse n.shown ∙ parse-render n.literal n.written,
      subst IsNotOctal (ap (λ (k : Literal). k.int_part) n.canonical_literal)
          (canonical-IsNotOctal n.literal),
    )
