-- ===== src/Examples/Numerals.antt =====
-- Concrete numeric literals.
use cobol_java_transformatio.Common.{◌≡◌, refl, false, some, ok, err}
use cobol_java_transformatio.Common.{◌<◌, arith, inl, true, false}
use cobol_java_transformatio.Numeric.Picture.{
  has_sign, fit, fit_body, fit_int, fit_frac, last_digits, ljust, before_point, behind_point,
  normalize_value_for_pic,
}
use cobol_java_transformatio.Numeric.Picture.Stored.{IsStored, normalize_value_for_pic-IsStored}
use cobol_java_transformatio.Common.Bytes.{Bytes, codes, bytes_eq}
use cobol_java_transformatio.Numeric.Literal.{
  Literal, lstrip_by, rstrip_by, strip_quotes, upper_words, all_digits, parse_digits, parse,
  canonical_int, canonical_frac, canonical, render, non_numeric, normalize_stripped,
  normalize_numeric_literal,
}
use cobol_java_transformatio.Numeric.Normal.{IsCanonicalOf, normalize_numeric_literal-value}
use cobol_java_transformatio.Numeric.Ends.{text_of}

-- +012.50
abbrev twelve : Literal
twelve = record { negative = false; int_part = codes "012"; frac_part = codes "50" }

parse-twelve : parse (strip_quotes (codes " '+012.50' ")) ≡ some twelve
unfolding strip_quotes lstrip_by rstrip_by parse parse_digits all_digits
parse-twelve = refl

normalize_numeric_literal-value_example :
    (r : Bytes) × (k : Literal) × (normalize_numeric_literal (codes " '+012.50' ") ≡ ok r)
    × (parse r ≡ some k)
    × (r ≡ text_of k.negative k.int_part k.frac_part)
    × IsCanonicalOf twelve k
normalize_numeric_literal-value_example =
    normalize_numeric_literal-value (codes " '+012.50' ") twelve parse-twelve

normalize-minus : normalize_numeric_literal (codes "-007") ≡ ok (codes "-7")
unfolding normalize_numeric_literal normalize_stripped strip_quotes lstrip_by rstrip_by upper_words
    bytes_eq parse parse_digits all_digits canonical canonical_int canonical_frac render
normalize-minus = refl

normalize-zeros : normalize_numeric_literal (codes "all  Zeros") ≡ ok (codes "0")
unfolding normalize_numeric_literal normalize_stripped strip_quotes lstrip_by rstrip_by upper_words
    bytes_eq
normalize-zeros = refl

normalize-spaces : normalize_numeric_literal (codes "SPACES") ≡ err (non_numeric (codes "SPACES"))
unfolding normalize_numeric_literal normalize_stripped strip_quotes lstrip_by rstrip_by upper_words
    bytes_eq
normalize-spaces = refl

abbrev text_twelve : Bytes
text_twelve = codes " '+012.50' "

one_digit : 0 < 1
one_digit = omega arith

normalize_value_for_pic-IsStored_example :
    (r : Bytes) × (k : Literal) × (normalize_value_for_pic text_twelve 1 1 true ≡ ok r)
    × (parse r ≡ some k)
    × IsStored 1 1 twelve k
normalize_value_for_pic-IsStored_example =
    normalize_value_for_pic-IsStored text_twelve 1 1 true twelve one_digit parse-twelve (inl refl)

-- The stored digits may begin with a zero, and without integer digits the integer part stays whole.
store-leading_zero : normalize_value_for_pic (codes "1007") 3 0 false ≡ ok (codes "007")
unfolding normalize_value_for_pic has_sign fit fit_body fit_int fit_frac last_digits ljust
    before_point behind_point normalize_numeric_literal normalize_stripped strip_quotes lstrip_by
    rstrip_by upper_words bytes_eq parse parse_digits all_digits canonical canonical_int
    canonical_frac render
store-leading_zero = refl

store-no_integer_digits : normalize_value_for_pic (codes "12.5") 0 2 false ≡ ok (codes "12.50")
unfolding normalize_value_for_pic has_sign fit fit_body fit_int fit_frac last_digits ljust
    before_point behind_point normalize_numeric_literal normalize_stripped strip_quotes lstrip_by
    rstrip_by upper_words bytes_eq parse parse_digits all_digits canonical canonical_int
    canonical_frac render
store-no_integer_digits = refl
