-- ===== src/Storage/Figurative.antt =====
-- engine/transformation/figurative.py on ASCII text: which operands are figurative constants, and the
-- characters that they supply.
pub mod Width
use mathlib.Core.Option
use cobol_java_transformatio.Common.{
  ℕ, zero, suc, ◌+◌, ◌-◌, ◌/◌, Bool, true, false, not, ◌&&◌, ◌||◌, Option, none, some, List, [],
  ◌∷◌, ◌++◌, map, any, is_empty, ◌==◌, if◌then◌else◌, length, leb,
}
use cobol_java_transformatio.Common.Bytes.{Bytes, bytes_eq, codes, take, drop}
use cobol_java_transformatio.Numeric.Literal.{is_white, lstrip_by}
use cobol_java_transformatio.Storage.Item.{upper, strip}

pub data Kind : Type 0 where
  zero_constant spaces quotes low_value high_value all : Kind

-- `CANONICAL_FIGURATIVES`
unfoldable pub canonical_figurative : Bytes → Option Kind
canonical_figurative s =
    if any (bytes_eq s)
      (codes "ZERO" ∷ codes "ZEROS" ∷ codes "ZERO-ZERO-ZERO" ∷ codes "ZEROES" ∷ [])
    then some zero_constant
    else if any (bytes_eq s) (codes "SPACE" ∷ codes "SPACES" ∷ [])
    then some spaces
    else if any (bytes_eq s) (codes "QUOTE" ∷ codes "QUOTES" ∷ [])
    then some quotes
    else if any (bytes_eq s) (codes "LOW-VALUE" ∷ codes "LOW-VALUES" ∷ [])
    then some low_value
    else if any (bytes_eq s) (codes "HIGH-VALUE" ∷ codes "HIGH-VALUES" ∷ [])
    then some high_value
    else none

-- A text of two characters or more between two of this quote.
unfoldable pub ends_with : ℕ → Bytes → Bool
ends_with q [] = false
ends_with q (c ∷ []) = c == q
ends_with q (c ∷ d ∷ s) = ends_with q (d ∷ s)

unfoldable pub is_between : ℕ → Bytes → Bool
is_between q [] = false
is_between q (c ∷ s) = c == q && ends_with q s

-- A pattern without the quote, up to a quote that ends the text: `[^"]+"$`.
unfoldable pub pattern_up_to : ℕ → Bytes → Option Bytes
pattern_up_to q [] = none
pattern_up_to q (c ∷ s) =
    let rest = pattern_up_to q s in
    if c == q then (if is_empty s then some [] else none) else Option.map (λ p. c ∷ p) rest

abbrev pub not_empty : Option Bytes → Option Bytes
not_empty none = none
not_empty (some p) = if is_empty p then none else some p

-- what stands behind `ALL` and white space
unfoldable pub all_operand : Bytes → Option (Kind × Option Bytes)
all_operand [] = none
all_operand (c ∷ s) =
    if c == 34 || c == 39
    then Option.map (λ p. (all, some p)) (not_empty (pattern_up_to c s))
    else Option.map (λ k. (k, none)) (canonical_figurative (upper (c ∷ s)))

unfoldable pub after_all : Bytes → Option (Kind × Option Bytes)
after_all [] = none
after_all (c ∷ s) = if is_white c then all_operand (lstrip_by is_white s) else none

unfoldable pub parse_all : Bytes → Option (Kind × Option Bytes)
parse_all s = if bytes_eq (upper (take 3 s)) (codes "ALL") then after_all (drop 3 s) else none

unfoldable pub parse_stripped : Bytes → Option (Kind × Option Bytes)
parse_stripped s =
    if is_empty s || is_between 34 s || is_between 39 s
    then none
    else elim (canonical_figurative (upper s)) [ some k ↦ some (k, none) | none ↦ parse_all s ]

unfoldable pub parse_figurative_constant : Bytes → Option (Kind × Option Bytes)
parse_figurative_constant text = parse_stripped (strip text)

unfoldable pub figurative_fill_char : Kind → Option ℕ
figurative_fill_char zero_constant = none
figurative_fill_char spaces = some 32
figurative_fill_char quotes = some 34
figurative_fill_char low_value = some 0
figurative_fill_char high_value = some 255
figurative_fill_char all = none

-- `s * n`
unfoldable pub repeat : ℕ → Bytes → Bytes
repeat zero s = []
repeat (suc n) s = s ++ repeat n s

abbrev pub fill_of : Option Bytes → Bytes
fill_of none = []
fill_of (some p) = p

-- the pattern, which is not empty, over the width
unfoldable pub repeated_to : ℕ → Bytes → Option Bytes
repeated_to width pattern =
    if is_empty pattern
    then none
    else some (take width (repeat (width / length pattern + 1) pattern))

unfoldable pub characters : Kind → Option Bytes → ℕ → Option Bytes
characters all fill width = repeated_to width (fill_of fill)
characters zero_constant fill width = some (repeat width (48 ∷ []))
characters spaces fill width = Option.map (λ c. repeat width (c ∷ [])) (figurative_fill_char spaces)
characters quotes fill width = Option.map (λ c. repeat width (c ∷ [])) (figurative_fill_char quotes)
characters low_value fill width =
    Option.map (λ c. repeat width (c ∷ [])) (figurative_fill_char low_value)
characters high_value fill width =
    Option.map (λ c. repeat width (c ∷ [])) (figurative_fill_char high_value)

unfoldable pub figurative_to_width : Kind → Option Bytes → ℕ → Option Bytes
figurative_to_width kind fill width = if width == 0 then none else characters kind fill width
