-- ===== src/Numeric/Normal.antt =====
-- `normalize_numeric_literal` on texts that are literals.
use cobol_java_transformatio.Common.{
  ℕ, ◌*◌, ◌≡◌, ◌↔◌, refl, true, false, ◌&&◌, none, some, [], ◌∷◌, arith, leb, ok,
}
use cobol_java_transformatio.Common.Bytes.{Bytes, bytes_eq}
use cobol_java_transformatio.Numeric.Literal.{
  is_among, strip_quotes, upper_words, zero_figurative, invalid_numeric_figurative, Literal,
  parse_digits, parse, canonical, render, normalize_stripped, normalize_numeric_literal,
}
use cobol_java_transformatio.Numeric.Value.{mantissa, scale_of, canonical-value}
use cobol_java_transformatio.Numeric.Ends.{
  IsNotOctal, IsTrimmed, canonical-IsNotOctal, canonical-IsTrimmed, canonical-frac_part, text_of,
  render-text_of,
}
use cobol_java_transformatio.Numeric.RoundTrip.{parse-render, parse-AreDigits, canonical-IsWritten}

-- A literal begins with a sign, a point or a digit.
parse-first :
    (c : ℕ) (s : Bytes) {l : Literal} → parse (c ∷ s) ≡ some l → leb 43 c && leb c 57 ≡ true
unfolding parse parse_digits
parse-first c s e = ground arith

-- A word list that begins like a literal is no figurative constant.
figurative-numeral :
    (c : ℕ) (w : Bytes)
    → leb c 57 ≡ true
    → (is_among zero_figurative (c ∷ w) ≡ false)
      × (is_among invalid_numeric_figurative (c ∷ w) ≡ false)
unfolding bytes_eq
figurative-numeral c w h = (ground arith, ground arith)

upper_words-numeral :
    (c : ℕ) (s : Bytes)
    → leb 43 c && leb c 57 ≡ true
    → upper_words false (c ∷ s) ≡ c ∷ upper_words false s
unfolding upper_words
upper_words-numeral c s h = ground arith

parse-nil : parse [] ≡ none
unfolding parse
parse-nil = refl

pub normalize_stripped-literal :
    (text s : Bytes) {l : Literal}
    → parse s ≡ some l
    → normalize_stripped text s ≡ ok (render (canonical l))
unfolding normalize_stripped
normalize_stripped-literal text [] e = cc (parse-nil, e)
normalize_stripped-literal text (c ∷ s) {l} e =
    let first = parse-first c s e in
    let words = upper_words-numeral c s first in
    let (no_zero, no_invalid) =
      figurative-numeral c (upper_words false s) (ground (arith, first)) in
    rw (words, no_zero, no_invalid, e) refl

-- What the canonical form of a literal is: the same sign and number, with no leading zero in the
-- integer part and no zero at the end of the fraction, and with a fraction only where there was one.
pub record IsCanonicalOf (l k : Literal) : Type 0 where
  pub sign : k.negative ≡ l.negative
  pub number : mantissa k * scale_of l ≡ mantissa l * scale_of k
  pub int_part : IsNotOctal k.int_part
  pub frac_part : IsTrimmed k.frac_part
  pub has_fraction : (k.frac_part ≡ []) ↔ (l.frac_part ≡ [])

canonical-IsCanonicalOf : (l : Literal) → IsCanonicalOf l (canonical l)
canonical-IsCanonicalOf l =
    let (same_sign, same_number) = canonical-value l in
    record {
      sign = same_sign;
      number = same_number;
      int_part = canonical-IsNotOctal l;
      frac_part = canonical-IsTrimmed l;
      has_fraction = canonical-frac_part l;
    }

text_of-render : (k : Literal) → render k ≡ text_of k.negative k.int_part k.frac_part
unfolding render
text_of-render k = render-text_of k.negative k.int_part k.frac_part

-- A text whose stripped form is a numeric literal is normalized to the text of that literal's
-- canonical form, without a plus sign, and this reads back as it. The canonical form has the same
-- sign and is the same number: the mantissas are equal when each is scaled by the other's power of
-- ten. Its integer part is "0" or begins with another digit than 0; its fraction is missing exactly
-- where the literal has none, and else is "0" or ends with another digit than 0.
pub normalize_numeric_literal-value :
    (text : Bytes) (l : Literal)
    → parse (strip_quotes text) ≡ some l
    → (r : Bytes) × (k : Literal) × (normalize_numeric_literal text ≡ ok r)
      × (parse r ≡ some k)
      × (r ≡ text_of k.negative k.int_part k.frac_part)
      × IsCanonicalOf l k
unfolding normalize_numeric_literal
normalize_numeric_literal-value text l e =
    let written = canonical-IsWritten l (parse-AreDigits (strip_quotes text) e) in
    (
      render (canonical l),
      canonical l,
      normalize_stripped-literal text (strip_quotes text) e,
      parse-render (canonical l) written,
      text_of-render (canonical l),
      canonical-IsCanonicalOf l,
    )
