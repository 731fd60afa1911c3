-- ===== src/Numeric/Literal.antt =====
-- `normalize_numeric_literal` of engine/transformation/numeric_semantics.py on ASCII text, which is a
-- list of codes: white space, letters and digits outside ASCII are not modelled. The match of
-- `_NUMERIC_LITERAL_RE` and the split at the point are one function, `parse`.
use cobol_java_transformatio.Common.{
  ℕ, ◌-◌, Bool, true, false, not, ◌&&◌, ◌||◌, Option, none, some, List, [], ◌∷◌, ◌++◌, any, leb,
  ◌==◌, if◌then◌else◌, is_empty, Result, ok, err,
}
use cobol_java_transformatio.Common.Bytes.{Bytes, codes, bytes_eq}

abbrev pub is_digit : ℕ → Bool
is_digit c = leb 48 c && leb c 57

abbrev pub is_white : ℕ → Bool
is_white c = c == 32 || (leb 9 c && leb c 13) || (leb 28 c && leb c 31)

abbrev pub is_quote : ℕ → Bool
is_quote c = c == 34 || c == 39

-- `s.lstrip(chars)` and `s.rstrip(chars)`
unfoldable pub lstrip_by : (ℕ → Bool) → Bytes → Bytes
lstrip_by p [] = []
lstrip_by p (c ∷ s) = let rest = lstrip_by p s in if p c then rest else c ∷ s

unfoldable pub rstrip_by : (ℕ → Bool) → Bytes → Bytes
rstrip_by p [] = []
rstrip_by p (c ∷ s) = let rest = rstrip_by p s in if p c && is_empty rest then [] else c ∷ rest

abbrev pub strip_by : (ℕ → Bool) → Bytes → Bytes
strip_by p s = rstrip_by p (lstrip_by p s)

unfoldable pub strip_quotes : Bytes → Bytes
strip_quotes s = strip_by is_white (strip_by is_quote (strip_by is_white s))

abbrev pub upper_code : ℕ → ℕ
upper_code c = if leb 97 c && leb c 122 then c - 32 else c

-- `" ".join(s.upper().split())` for a text with no white space at its ends: each run of white space
-- becomes one space. The flag says that white space stands in front.
unfoldable pub upper_words : Bool → Bytes → Bytes
upper_words after [] = []
upper_words after (c ∷ s) =
    let in_space = upper_words true s in
    let in_word = upper_words false s in
    if is_white c
    then in_space
    else if after
    then 32 ∷ upper_code c ∷ in_word
    else upper_code c ∷ in_word

abbrev pub zero_figurative : List Bytes
zero_figurative =
    codes "ZERO"
    ∷ codes "ZEROS"
    ∷ codes "ZEROES"
    ∷ codes "ALL ZERO"
    ∷ codes "ALL ZEROS"
    ∷ codes "ALL ZEROES"
    ∷ []

abbrev pub invalid_numeric_figurative : List Bytes
invalid_numeric_figurative =
    codes "SPACE"
    ∷ codes "SPACES"
    ∷ codes "LOW-VALUE"
    ∷ codes "LOW-VALUES"
    ∷ codes "HIGH-VALUE"
    ∷ codes "HIGH-VALUES"
    ∷ codes "NULL"
    ∷ codes "NULLS"
    ∷ codes "QUOTE"
    ∷ codes "QUOTES"
    ∷ []

abbrev pub is_among : List Bytes → Bytes → Bool
is_among words s = any (λ w. bytes_eq s w) words

-- The parts of a numeric literal; without a point, or with none behind it, the last part is empty.
pub record Literal : Type 0 where
  pub negative : Bool
  pub int_part : Bytes
  pub frac_part : Bytes

unfoldable pub all_digits : Bytes → Bool
all_digits [] = true
all_digits (c ∷ s) = is_digit c && all_digits s

-- A literal's digits up to a point or the end, behind the digits that were read.
unfoldable pub parse_digits : Bool → Bytes → Bytes → Option Literal
parse_digits negative read [] =
    if is_empty read
    then none
    else some (record { negative = negative; int_part = read; frac_part = [] })
parse_digits negative read (c ∷ s) =
    let more = parse_digits negative (read ++ c ∷ []) s in
    if is_digit c
    then more
    else if c == 46 && all_digits s && not (is_empty read && is_empty s)
    then some (record { negative = negative; int_part = read; frac_part = s })
    else none

unfoldable pub parse : Bytes → Option Literal
parse [] = none
parse (c ∷ s) =
    if c == 45
    then parse_digits true [] s
    else if c == 43
    then parse_digits false [] s
    else parse_digits false [] (c ∷ s)

abbrev pub is_zero : ℕ → Bool
is_zero c = c == 48

-- `s or "0"`
abbrev pub or_zero : Bytes → Bytes
or_zero [] = 48 ∷ []
or_zero (c ∷ s) = c ∷ s

unfoldable pub canonical_int : Bytes → Bytes
canonical_int s = or_zero (lstrip_by is_zero s)

unfoldable pub canonical_frac : Bytes → Bytes
canonical_frac [] = []
canonical_frac (c ∷ s) = or_zero (rstrip_by is_zero (c ∷ s))

unfoldable pub canonical : Literal → Literal
canonical l = record {
  negative = l.negative;
  int_part = canonical_int l.int_part;
  frac_part = canonical_frac l.frac_part;
}

abbrev pub point : Bytes → Bytes
point [] = []
point (c ∷ s) = 46 ∷ c ∷ s

unfoldable pub render : Literal → Bytes
render l = (if l.negative then 45 ∷ [] else []) ++ (l.int_part ++ point l.frac_part)

pub data NumericValueError : Type 0 where
  non_numeric signed_literal : Bytes → NumericValueError

unfoldable pub normalize_stripped : Bytes → Bytes → Result NumericValueError Bytes
normalize_stripped text stripped =
    if is_among zero_figurative (upper_words false stripped)
    then ok (codes "0")
    else if is_among invalid_numeric_figurative (upper_words false stripped)
    then err (non_numeric text)
    else elim (parse stripped) [
      | none ↦ err (non_numeric text)
      | some l ↦ ok (render (canonical l))
    ]

unfoldable pub normalize_numeric_literal : Bytes → Result NumericValueError Bytes
normalize_numeric_literal text = normalize_stripped text (strip_quotes text)
