-- ===== src/Examples/Sources.antt =====
-- A few lines of COBOL text, and the theorems on reading them.
use cobol_java_transformatio.Common.{◌≡◌, refl, false, List, [], ◌∷◌, length}
use cobol_java_transformatio.Common.Bytes.{Bytes, codes}
use cobol_java_transformatio.Numeric.Literal.{lstrip_by, rstrip_by}
use cobol_java_transformatio.SourceFormat.Literals.{
  scan_literal, canonical_code, canonical_literals,
}
use cobol_java_transformatio.SourceFormat.Literals.Tokens.{
  Token, character, literal, comment, Says, SaysPlainly, Canonical, canonical_literals-Says,
}
use cobol_java_transformatio.SourceFormat.{
  starts_with, contains, line_is_comment, splitlines, fixed, directive, is_free_line,
  detect_source_format, split_lines, join_lines, canonical_line, canonical_errors, normalize_as,
  normalize_text, reference_format_errors, compiler_visible_text,
}
use cobol_java_transformatio.SourceFormat.Lines.Exact.{IsLineOf, compiler_visible_text-split_lines}
use cobol_java_transformatio.SourceFormat.Lines.Related.{Lined}
use cobol_java_transformatio.SourceFormat.Mentions.{
  behind_quote, blank_literals, before_comment, code_of, word_here, finds_word, code_mentions,
}
use cobol_java_transformatio.SourceFormat.Mentions.Exact.{words_of, code_of-words_of}

-- A statement whose literal goes on in the next line, and a comment.
abbrev program : Bytes
program = codes "       DISPLAY 'IT\n      -    '''S' ACCEPT-X\n      * ACCEPT\n"

program_is_fixed : detect_source_format program ≡ fixed
unfolding detect_source_format directive splitlines starts_with contains is_free_line
    line_is_comment lstrip_by rstrip_by
program_is_fixed = refl

program_has_no_errors : reference_format_errors (codes "DISPLAY 'IT''S'") ≡ []
unfolding reference_format_errors normalize_text normalize_as detect_source_format directive
    splitlines starts_with contains is_free_line line_is_comment lstrip_by rstrip_by split_lines
    canonical_errors canonical_line canonical_literals canonical_code scan_literal
program_has_no_errors = refl

visible : compiler_visible_text (codes "DISPLAY 'IT''S'") ≡ codes "DISPLAY \"IT'S\""
unfolding compiler_visible_text normalize_text normalize_as detect_source_format directive
    splitlines starts_with contains is_free_line line_is_comment lstrip_by rstrip_by split_lines
    join_lines canonical_line canonical_literals canonical_code scan_literal
visible = refl

-- A comment by its seventh column in fixed format, and so taken for one in free format too.
skipped_as_comment :
    code_mentions (codes "COMPUTE X = Y\n      * RETURN-CODE") (codes "RETURN-CODE") ≡ false
unfolding code_mentions code_of finds_word word_here before_comment blank_literals behind_quote
    compiler_visible_text normalize_text normalize_as detect_source_format directive splitlines
    starts_with contains is_free_line line_is_comment lstrip_by rstrip_by split_lines join_lines
    canonical_line canonical_literals canonical_code scan_literal
skipped_as_comment = refl

abbrev doubled_quote : Bytes
doubled_quote = codes "X 'IT''S'"

abbrev its_tokens : List Token
its_tokens = character 88 ∷ character 32 ∷ literal (codes "IT'S") ∷ []

canonical_literals-Says_example :
    Canonical doubled_quote its_tokens (canonical_literals doubled_quote)
canonical_literals-Says_example = canonical_literals-Says (
    Says.one refl refl
      (Says.one refl refl (Says.quoted 39 (codes "IT'S") [] refl refl refl Says.finished)))

compiler_visible_text-split_lines_example :
    (split_lines (compiler_visible_text program) ≡ (normalize_text program).0)
    × (length (split_lines (compiler_visible_text program)) ≡ length (split_lines program))
    × Lined
        (IsLineOf (detect_source_format program))
        (split_lines program)
        (split_lines (compiler_visible_text program))
compiler_visible_text-split_lines_example = compiler_visible_text-split_lines program

code_of-words_of_example :
    code_of (codes "'A'*> B") ≡ words_of (literal (codes "A") ∷ comment (codes "*> B") ∷ [])
code_of-words_of_example =
    code_of-words_of
      (SaysPlainly.quoted 39 (codes "A") (codes "*> B") refl refl refl (SaysPlainly.remark refl))
