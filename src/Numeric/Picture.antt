-- ===== src/Numeric/Picture.antt =====
-- `normalize_value_for_pic` of engine/transformation/numeric_semantics.py on ASCII text.
pub mod Storage
pub mod Stored
use cobol_java_transformatio.Common.{
  ℕ, zero, suc, ◌-◌, Bool, true, false, not, ◌&&◌, ◌||◌, Option, none, some, List, [], ◌∷◌, ◌++◌,
  length, ltb, ◌==◌, if◌then◌else◌, Result, ok, err, ◌>>=◌, ◌>>◌, raise_if,
}
use cobol_java_transformatio.Common.Bytes.{Bytes, take, drop}
use cobol_java_transformatio.Numeric.Literal.{
  parse, strip_quotes, NumericValueError, signed_literal, normalize_numeric_literal,
}

unfoldable pub has_sign : Bytes → Bool
has_sign [] = true
has_sign (c ∷ s) = c == 43 || c == 45

abbrev is_literal : Bytes → Bool
is_literal s = elim (parse s) [ none ↦ false | some l ↦ true ]

unfoldable pub before_point : Bytes → Bytes
before_point [] = []
before_point (c ∷ s) = let rest = before_point s in if c == 46 then [] else c ∷ rest

unfoldable pub behind_point : Bytes → Bytes
behind_point [] = []
behind_point (c ∷ s) = let rest = behind_point s in if c == 46 then s else rest

-- `int_part[-n:]`, which for n = 0 is all of it
unfoldable pub last_digits : ℕ → Bytes → Bytes
last_digits n s = if n == 0 then s else drop (length s - n) s

-- `s.ljust(n, "0")`
unfoldable pub ljust : ℕ → Bytes → Bytes
ljust zero s = s
ljust (suc n) [] = 48 ∷ ljust n []
ljust (suc n) (c ∷ s) = c ∷ ljust n s

unfoldable pub fit_int : ℕ → Bytes → Bytes
fit_int n s = if ltb n (length s) then last_digits n s else s

unfoldable pub fit_frac : ℕ → Bytes → Bytes
fit_frac n s = ljust n (if ltb n (length s) then take n s else s)

unfoldable pub fit_body : ℕ → ℕ → Bytes → Bytes
fit_body integer_digits decimal_digits body =
    if decimal_digits == 0
    then fit_int integer_digits (before_point body)
    else fit_int integer_digits (before_point body)
      ++ 46 ∷ fit_frac decimal_digits (behind_point body)

unfoldable pub fit : ℕ → ℕ → Bytes → Bytes
fit integer_digits decimal_digits [] = fit_body integer_digits decimal_digits []
fit integer_digits decimal_digits (c ∷ s) =
    if c == 45
    then 45 ∷ fit_body integer_digits decimal_digits s
    else fit_body integer_digits decimal_digits (c ∷ s)

unfoldable pub normalize_value_for_pic : Bytes → ℕ → ℕ → Bool → Result NumericValueError Bytes
normalize_value_for_pic text integer_digits decimal_digits signed = do
  raise_if (has_sign (strip_quotes text) && is_literal (strip_quotes text) && not signed)
      (signed_literal text)
  normalized ← normalize_numeric_literal text
  ok (fit integer_digits decimal_digits normalized)
