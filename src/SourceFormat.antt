-- ===== src/SourceFormat.antt =====
-- engine/transformation/source_format.py on ASCII text: fixed and free format, continuation lines, and
-- the text that the compiler reads. A problem is data, a constructor for each text, with the number of
-- its line.
pub mod Literals
pub mod Lines
pub mod Mentions
use cobol_java_transformatio.Common.{
  ℕ, zero, suc, ◌+◌, ◌-◌, Bool, true, false, not, ◌&&◌, ◌||◌, Option, none, some, List, [], ◌∷◌,
  ◌++◌, map, any, is_empty, length, leb, ◌==◌, if◌then◌else◌,
}
use cobol_java_transformatio.Common.Bytes.{Bytes, codes, take, drop}
use cobol_java_transformatio.Numeric.Literal.{
  is_digit, is_white, is_quote, lstrip_by, rstrip_by, strip_by, upper_code,
}
use cobol_java_transformatio.Storage.Item.{upper, strip}
use cobol_java_transformatio.SourceFormat.Literals.{canonical_literals}

-- `FIXED_FORMAT_TEXT_END`
abbrev pub text_end : ℕ
text_end = 72

-- the first character of what a slice `s[i:]` leaves
abbrev pub first_is : (ℕ → Bool) → Bytes → Bool
first_is p [] = false
first_is p (c ∷ s) = p c

-- `s.startswith(t)` and `t in s`
unfoldable pub starts_with : Bytes → Bytes → Bool
starts_with [] s = true
starts_with (d ∷ t) [] = false
starts_with (d ∷ t) (c ∷ s) = d == c && starts_with t s

unfoldable pub contains : Bytes → Bytes → Bool
contains t [] = is_empty t
contains t (c ∷ s) = starts_with t (c ∷ s) || contains t s

abbrev pub star_or_slash : ℕ → Bool
star_or_slash c = c == 42 || c == 47

unfoldable pub line_is_comment : Bytes → Bool
line_is_comment line =
    first_is star_or_slash line
    || first_is star_or_slash (drop 6 line)
    || starts_with (codes "*>") (lstrip_by is_white line)

-- `text.splitlines()`
abbrev pub ends_line : ℕ → Bool
ends_line c = (leb 10 c && leb c 13) || (leb 28 c && leb c 30) || c == 133 || c == 8232 || c == 8233

abbrev pub onto_first : ℕ → List Bytes → List Bytes
onto_first c [] = (c ∷ []) ∷ []
onto_first c (line ∷ lines) = (c ∷ line) ∷ lines

unfoldable pub splitlines : Bytes → List Bytes
splitlines [] = []
splitlines (c ∷ s) =
    let rest = splitlines s in
    if c == 13 && first_is (λ d. d == 10) s
    then rest
    else if ends_line c
    then [] ∷ rest
    else onto_first c rest

pub data Format : Type 0 where
  free fixed : Format

-- the format that the first directive with a format names
unfoldable pub directive : List Bytes → Option Format
directive [] = none
directive (raw ∷ lines) =
    let rest = directive lines in
    let line = upper (strip raw) in
    if not (starts_with (codes ">>SOURCE") line && contains (codes "FORMAT") line)
    then rest
    else if contains (codes "FREE") line
    then some free
    else if contains (codes "FIXED") line
    then some fixed
    else rest

abbrev pub is_line_end : ℕ → Bool
is_line_end c = c == 13 || c == 10

abbrev pub in_sequence_area : ℕ → Bool
in_sequence_area c = is_digit c || c == 32

-- code in the sequence area
unfoldable pub is_free_line : Bytes → Bool
is_free_line raw =
    let line = rstrip_by is_line_end raw in
    not (is_empty (strip line) || line_is_comment line)
    && any (λ c. not (in_sequence_area c)) (take 6 line)

unfoldable pub detect_source_format : Bytes → Format
detect_source_format text = elim (directive (splitlines text)) [
  | some f ↦ f
  | none ↦ if any is_free_line (splitlines text) then free else fixed
]

-- `_open_quote`: the flag is the quote of the literal that the text is inside of.
unfoldable pub open_quote : Option ℕ → Bytes → Option ℕ
open_quote q [] = q
open_quote none (c ∷ s) = open_quote (if is_quote c then some c else none) s
open_quote (some q) (c ∷ s) = open_quote (if c == q then none else some q) s

pub data Problem : Type 0 where
  nothing_to_continue : ℕ → Problem
  not_resumed : ℕ → ℕ → Problem
  both_quotes : ℕ → Bytes → Problem

-- `text.split("\n")` and `"\n".join(lines)`
unfoldable pub split_lines : Bytes → List Bytes
split_lines [] = [] ∷ []
split_lines (c ∷ s) = let rest = split_lines s in if c == 10 then [] ∷ rest else onto_first c rest

unfoldable pub join_lines : List Bytes → Bytes
join_lines [] = []
join_lines (line ∷ []) = line
join_lines (line ∷ next ∷ lines) = line ++ 10 ∷ join_lines (next ∷ lines)

-- `text.ljust(n)`
unfoldable pub ljust : ℕ → Bytes → Bytes
ljust zero s = s
ljust (suc n) [] = 32 ∷ ljust n []
ljust (suc n) (c ∷ s) = c ∷ ljust n s

abbrev pub get_line : ℕ → List Bytes → Bytes
get_line i [] = []
get_line zero (line ∷ lines) = line
get_line (suc i) (line ∷ lines) = get_line i lines

abbrev pub set_line : ℕ → Bytes → List Bytes → List Bytes
set_line i s [] = []
set_line zero s (line ∷ lines) = s ∷ lines
set_line (suc i) s (line ∷ lines) = line ∷ set_line i s lines

-- the variables of the loop
pub record Folding : Type 0 where
  pub lines : List Bytes
  pub errors : List Problem
  pub last_code : Option ℕ

-- The line `number` continues the line `last`.
unfoldable pub continue_line : ℕ → Bytes → ℕ → Folding → Folding
continue_line number resumed last f =
    let continued = get_line last f.lines in
    elim (open_quote none (drop 7 continued)) [
      | some quote ↦
          if not (first_is (λ c. c == quote) resumed)
          then record f { errors = f.errors ++ not_resumed (number + 1) quote ∷ [] }
          else record f {
            lines =
                set_line number []
                  (set_line last (ljust text_end continued ++ drop 1 resumed) f.lines);
          }
      | none ↦ record f {
        lines =
            set_line number [] (set_line last (rstrip_by is_white continued ++ resumed) f.lines);
      }
    ]

abbrev pub is_continuation : Bytes → Bool
is_continuation line = first_is (λ c. c == 45) (drop 6 line)

abbrev pub holds_code : Bytes → Bool
holds_code line = not (is_empty (strip (drop 7 line))) && not (first_is star_or_slash (drop 6 line))

unfoldable pub fold_line : ℕ → Bytes → Folding → Folding
fold_line number line f =
    if not (is_continuation line)
    then (if holds_code line then record f { last_code = some number } else f)
    else elim (f.last_code) [
      | none ↦ record f { errors = f.errors ++ nothing_to_continue (number + 1) ∷ [] }
      | some last ↦ continue_line number (lstrip_by is_white (drop 7 line)) last f
    ]

-- `for number, line in enumerate(lines)`: a round writes only to lines that were read already.
unfoldable pub fold_lines : ℕ → List Bytes → Folding → Folding
fold_lines number [] f = f
fold_lines number (line ∷ lines) f = fold_lines (suc number) lines (fold_line number line f)

abbrev pub text_columns : Bytes → Bytes
text_columns line = take text_end (rstrip_by (λ c. c == 13) line)

abbrev pub started : List Bytes → Folding
started lines = record { lines = lines; errors = []; last_code = none }

unfoldable pub fold_continuations : Bytes → Folding
fold_continuations text =
    let lines = map text_columns (split_lines text) in fold_lines 0 lines (started lines)

-- the literals of a line, from the column where its code starts
unfoldable pub canonical_line : ℕ → Bytes → Bytes × Option Bytes
canonical_line code_from line =
    if line_is_comment line || is_empty (strip (drop code_from line)) then (line, none) else (
      take code_from line ++ (canonical_literals (drop code_from line)).0,
      (canonical_literals (drop code_from line)).1,
    )

unfoldable pub canonical_errors : ℕ → ℕ → List Bytes → List Problem
canonical_errors code_from number [] = []
canonical_errors code_from number (line ∷ lines) = elim ((canonical_line code_from line).1) [
  | none ↦ canonical_errors code_from (suc number) lines
  | some written ↦ both_quotes (number + 1) written ∷ canonical_errors code_from (suc number) lines
]

abbrev pub canonical_lines : ℕ → List Bytes → List Bytes
canonical_lines code_from lines = map (λ line. (canonical_line code_from line).0) lines

unfoldable pub normalize_as : Format → Bytes → List Bytes × List Problem
normalize_as fixed text =
    let f = fold_continuations text in
    (canonical_lines 7 f.lines, f.errors ++ canonical_errors 7 0 f.lines)
normalize_as free text =
    (canonical_lines 0 (split_lines text), canonical_errors 0 0 (split_lines text))

-- `_normalize`
unfoldable pub normalize_text : Bytes → List Bytes × List Problem
normalize_text text = normalize_as (detect_source_format text) text

unfoldable pub reference_format_errors : Bytes → List Problem
reference_format_errors text = (normalize_text text).1

unfoldable pub compiler_visible_text : Bytes → Bytes
compiler_visible_text text = join_lines (normalize_text text).0
