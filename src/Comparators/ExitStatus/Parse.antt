-- ===== src/Comparators/ExitStatus/Parse.antt =====
-- `int(content.strip())` on bytes: ASCII white space around an optional sign and decimal digits, with
-- single underscores between digits, and at most 4300 digits.
use cobol_java_transformatio.Common.{
  ℕ, ◌+◌, ◌-◌, ◌*◌, Bool, true, false, ◌&&◌, ◌||◌, Option, none, some, List, [], ◌∷◌, length, ltb,
  leb, ◌==◌, if◌then◌else◌, is_empty,
}
use cobol_java_transformatio.Common.Int.{ℤ, pos, neg_ℕ}
use cobol_java_transformatio.Common.Bytes.{Bytes}

abbrev pub is_space : ℕ → Bool
is_space c = c == 32 || leb 9 c && leb c 13

abbrev pub is_digit : ℕ → Bool
is_digit c = leb 48 c && leb c 57

unfoldable pub lstrip : Bytes → Bytes
lstrip [] = []
lstrip (c ∷ s) = let rest = lstrip s in if is_space c then rest else c ∷ s

unfoldable pub rstrip : Bytes → Bytes
rstrip [] = []
rstrip (c ∷ s) = let rest = rstrip s in if is_space c && is_empty rest then [] else c ∷ rest

-- The digits of a text, most significant first. The flag says that a digit stands in front.
unfoldable pub digits_of : Bool → Bytes → Option (List ℕ)
digits_of after [] = if after then some [] else none
digits_of after (c ∷ s) =
    let digits = digits_of true s in
    let skipped = digits_of false s in
    if is_digit c
    then elim digits [ none ↦ none | some ds ↦ some ((c - 48) ∷ ds) ]
    else if c == 95 && after
    then skipped
    else none

-- The number that digits stand for, behind the number that is read already.
unfoldable pub value : ℕ → List ℕ → ℕ
value n [] = n
value n (d ∷ ds) = value (10 * n + d) ds

abbrev pub max_str_digits : ℕ
max_str_digits = 4300

abbrev pub magnitude : Bytes → Option ℕ
magnitude s = elim (digits_of false s) [
  | none ↦ none
  | some ds ↦ if ltb max_str_digits (length ds) then none else some (value 0 ds)
]

abbrev pub with_sign : (ℕ → ℤ) → Option ℕ → Option ℤ
with_sign sign none = none
with_sign sign (some n) = some (sign n)

unfoldable pub signed : Bytes → Option ℤ
signed [] = none
signed (c ∷ s) =
    if c == 45
    then with_sign neg_ℕ (magnitude s)
    else if c == 43
    then with_sign pos (magnitude s)
    else with_sign pos (magnitude (c ∷ s))

unfoldable pub int_of_bytes : Bytes → Option ℤ
int_of_bytes s = signed (rstrip (lstrip s))
