-- ===== src/SourceFormat/Mentions.antt =====
-- `code_mentions` and `unquote_literal` of engine/transformation/source_format.py: the words of code,
-- outside its literals and comments.
pub mod Exact
use cobol_java_transformatio.Common.{
  ℕ, zero, suc, Bool, true, false, not, ◌&&◌, ◌||◌, Option, none, some, List, [], ◌∷◌, ◌++◌, any,
  length, leb, ◌==◌, if◌then◌else◌,
}
use cobol_java_transformatio.Common.Bytes.{Bytes, drop}
use cobol_java_transformatio.Numeric.Literal.{is_digit, is_quote}
use cobol_java_transformatio.Storage.Item.{upper}
use cobol_java_transformatio.SourceFormat.Literals.{starts_comment}
use cobol_java_transformatio.SourceFormat.{
  first_is, starts_with, line_is_comment, split_lines, compiler_visible_text,
}

-- the text behind the next such quote
unfoldable pub behind_quote : ℕ → Bytes → Option Bytes
behind_quote quote [] = none
behind_quote quote (c ∷ s) = if c == quote then some s else behind_quote quote s

-- `re.sub("\"[^\"]*\"|'[^']*'", "''", line)`, with as many rounds as the line has characters
unfoldable pub blank_literals : ℕ → Bytes → Bytes
blank_literals fuel [] = []
blank_literals zero (c ∷ s) = c ∷ s
blank_literals (suc fuel) (c ∷ s) =
    if not (is_quote c) then c ∷ blank_literals fuel s else elim (behind_quote c s) [
      | none ↦ c ∷ blank_literals fuel s
      | some rest ↦ 39 ∷ 39 ∷ blank_literals fuel rest
    ]

-- `code.split("*>", 1)[0]`
unfoldable pub before_comment : Bytes → Bytes
before_comment [] = []
before_comment (c ∷ s) = let rest = before_comment s in if starts_comment c s then [] else c ∷ rest

unfoldable pub code_of : Bytes → Bytes
code_of line = before_comment (blank_literals (length line) line)

-- `[\w-]`
abbrev pub in_word : ℕ → Bool
in_word c = is_digit c || (leb 65 c && leb c 90) || (leb 97 c && leb c 122) || c == 95 || c == 45

-- The word stands here, with no character of a word behind it.
unfoldable pub word_here : Bytes → Bytes → Bool
word_here word s =
    starts_with (upper word) (upper s) && not (first_is in_word (drop (length word) s))

-- The flag says that a character of a word stands in front.
unfoldable pub finds_word : Bytes → Bool → Bytes → Bool
finds_word word after [] = not after && word_here word []
finds_word word after (c ∷ s) =
    (not after && word_here word (c ∷ s)) || finds_word word (in_word c) s

unfoldable pub code_mentions : Bytes → Bytes → Bool
code_mentions text word =
    any (λ line. not (line_is_comment line) && finds_word word false (code_of line))
      (split_lines (compiler_visible_text text))

abbrev pub last_is : ℕ → Bytes → Bool
last_is quote [] = false
last_is quote (c ∷ []) = c == quote
last_is quote (c ∷ d ∷ s) = last_is quote (d ∷ s)

abbrev pub but_last : Bytes → Bytes
but_last [] = []
but_last (c ∷ []) = []
but_last (c ∷ d ∷ s) = c ∷ but_last (d ∷ s)

unfoldable pub unquote_literal : Bytes → Bytes
unquote_literal [] = []
unquote_literal (c ∷ s) = if is_quote c && last_is c s then but_last s else c ∷ s
