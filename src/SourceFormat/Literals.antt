-- ===== src/SourceFormat/Literals.antt =====
-- `_canonical_literals` of engine/transformation/source_format.py: literals with a doubled quote are
-- written with the other quote.
pub mod Tokens
use cobol_java_transformatio.Common.{
  ℕ, zero, suc, Bool, true, false, not, ◌&&◌, Option, none, some, List, [], ◌∷◌, ◌++◌, any, length,
  ◌==◌, if◌then◌else◌, Result, ok, err, ◌>>=◌,
}
use cobol_java_transformatio.Common.Bytes.{Bytes}
use cobol_java_transformatio.Numeric.Literal.{is_quote}

-- A literal behind its opening quote: how it is written, its value, and the text behind it.
pub record Scanned : Type 0 where
  pub written : Bytes
  pub value : Bytes
  pub rest : Bytes

abbrev pub written_and : Bytes → ℕ → Option Scanned → Option Scanned
written_and w c none = none
written_and w c (some l) = some (record l { written = w ++ l.written; value = c ∷ l.value })

abbrev pub closed : ℕ → Bytes → Option Scanned
closed quote s = some (record { written = quote ∷ []; value = []; rest = s })

-- `none` is a literal that does not end.
unfoldable pub scan_literal : ℕ → Bytes → Option Scanned
scan_literal quote [] = none
scan_literal quote (c ∷ []) = if c == quote then closed quote [] else none
scan_literal quote (c ∷ d ∷ s) =
    let after_pair = scan_literal quote s in
    let after_one = scan_literal quote (d ∷ s) in
    if not (c == quote)
    then written_and (c ∷ []) c after_one
    else if d == quote
    then written_and (c ∷ d ∷ []) c after_pair
    else closed quote (d ∷ s)

abbrev pub has : ℕ → Bytes → Bool
has c s = any (λ d. d == c) s

abbrev pub other_quote : ℕ → ℕ
other_quote quote = if quote == 34 then 39 else 34

-- What is written of a literal; `err` carries one whose value has both quotes.
abbrev pub canonical_literal : ℕ → Scanned → Result Bytes Bytes
canonical_literal quote l =
    if not (has quote l.value)
    then ok (quote ∷ l.written)
    else if has (other_quote quote) l.value
    then err (quote ∷ l.written)
    else ok (other_quote quote ∷ (l.value ++ other_quote quote ∷ []))

abbrev pub starts_comment : ℕ → Bytes → Bool
starts_comment c [] = false
starts_comment c (d ∷ s) = c == 42 && d == 62

-- The loop, with as many rounds as the code has characters; a round reads one at least.
unfoldable pub canonical_code : ℕ → Bytes → Result Bytes Bytes
canonical_code fuel [] = ok []
canonical_code zero (c ∷ s) = ok (c ∷ s)
canonical_code (suc fuel) (c ∷ s) =
    if starts_comment c s
    then ok (c ∷ s)
    else if not (is_quote c)
    then (canonical_code fuel s >>= λ out. ok (c ∷ out))
    else elim (scan_literal c s) [
      | none ↦ ok (c ∷ s)
      | some l ↦ do text ← canonical_literal c l; out ← canonical_code fuel l.rest; ok (text ++ out)
    ]

unfoldable pub canonical_literals : Bytes → Bytes × Option Bytes
canonical_literals code = elim (canonical_code (length code) code) [
  | ok out ↦ (out, none)
  | err written ↦ (code, some written)
]
