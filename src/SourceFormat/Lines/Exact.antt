-- ===== src/SourceFormat/Lines/Exact.antt =====
-- The text that the compiler reads has the lines of the source, so that problems keep their numbers.
use cobol_java_transformatio.Common.{
  ℕ, ◌≡◌, ◌≢◌, refl, ap, sym, subst, ◌∙◌, ◌⊎◌, inl, inr, ◌||◌, true, Option, none, some, List, [],
  ◌∷◌, ◌++◌, map, append-nil, is_empty, length, ◌<◌, ◌==◌, Bool-cases, Result, ok, err, arith,
}
use cobol_java_transformatio.Common.Bytes.{Bytes, take, drop}
use cobol_java_transformatio.Storage.Item.{strip}
use cobol_java_transformatio.SourceFormat.Literals.{canonical_code, canonical_literals}
use cobol_java_transformatio.SourceFormat.{
  text_end, line_is_comment, Format, free, fixed, detect_source_format, onto_first, split_lines,
  join_lines, text_columns, started, fold_continuations, canonical_line, canonical_lines,
  normalize_as, normalize_text, compiler_visible_text,
}
use cobol_java_transformatio.SourceFormat.Lines.{
  HasNoEnd, HasNoEnd-append, HasNoEnd-take, HasNoEnd-drop, HasNoEnd-rstrip_by, AreLines, length-map,
}
use cobol_java_transformatio.SourceFormat.Lines.Folded.{Keeps, fold_lines-Keeps}
use cobol_java_transformatio.SourceFormat.Lines.Related.{Lined}
use cobol_java_transformatio.SourceFormat.Lines.Positions.{IsFolded, fold_lines-IsFolded}
use cobol_java_transformatio.SourceFormat.Lines.Rewritten.{IsCleanResult, canonical_code-IsClean}

onto_first-AreLines :
    (c : ℕ) (lines : List Bytes) → c ≢ 10 → AreLines lines → AreLines (onto_first c lines)
onto_first-AreLines c [] h k = ((h, tt), tt)
onto_first-AreLines c (line ∷ lines) h k = ((h, k.0), k.1)

split_lines-AreLines : (s : Bytes) → AreLines (split_lines s)
unfolding split_lines
split_lines-AreLines [] = (tt, tt)
split_lines-AreLines (c ∷ s) = elim (Bool-cases (c == 10)) [
  | inl e ↦ rw e (tt, split_lines-AreLines s)
  | inr e ↦
      let other : c ≢ 10 = ground arith in
      rw e (onto_first-AreLines c (split_lines s) other (split_lines-AreLines s))
]

-- Splitting what was joined gives the lines back.
split_lines-line :
    (line rest : Bytes) (lines : List Bytes)
    → HasNoEnd line
    → split_lines rest ≡ [] ∷ lines
    → split_lines (line ++ rest) ≡ line ∷ lines
unfolding split_lines
split_lines-line [] rest lines h e = e
split_lines-line (c ∷ line) rest lines h e =
    rw (split_lines-line line rest lines h.1 e) (ground arith)

split_lines-join_lines :
    (line : Bytes) (lines : List Bytes)
    → AreLines (line ∷ lines)
    → split_lines (join_lines (line ∷ lines)) ≡ line ∷ lines
unfolding split_lines join_lines
split_lines-join_lines line [] h =
    ap split_lines (sym (append-nil line)) ∙ split_lines-line line [] [] h.0 refl
split_lines-join_lines line (next ∷ lines) h =
    split_lines-line line (10 ∷ join_lines (next ∷ lines)) (next ∷ lines) h.0
      (ap (◌∷◌ []) (split_lines-join_lines next lines h.1))

HasNoEnd-canonical_literals : (s : Bytes) → HasNoEnd s → HasNoEnd (canonical_literals s).0
unfolding canonical_literals
HasNoEnd-canonical_literals s h =
    outcome (canonical_code (length s) s) (canonical_code-IsClean (length s) s h)
  where
    outcome :
        (r : Result Bytes Bytes)
        → IsCleanResult r
        → HasNoEnd
            (elim r as (λ _. Bytes × Option Bytes) [
              | ok out ↦ (out, none)
              | err written ↦ (s, some written)
            ]).0
    outcome (ok out) k = k
    outcome (err w) k = h

HasNoEnd-canonical_line :
    (code_from : ℕ) (line : Bytes) → HasNoEnd line → HasNoEnd (canonical_line code_from line).0
unfolding canonical_line
HasNoEnd-canonical_line code_from line h =
    elim (Bool-cases (line_is_comment line || is_empty (strip (drop code_from line)))) [
      | inl e ↦ rw e h
      | inr e ↦ rw e (
          HasNoEnd-append (take code_from line) (canonical_literals (drop code_from line)).0
            (HasNoEnd-take code_from line h)
            (HasNoEnd-canonical_literals (drop code_from line) (HasNoEnd-drop code_from line h)))
    ]

AreLines-map :
    (f : Bytes → Bytes)
    → ((line : Bytes) → HasNoEnd line → HasNoEnd (f line))
    → (lines : List Bytes) → AreLines lines
    → AreLines (map f lines)
AreLines-map f k [] h = tt
AreLines-map f k (line ∷ lines) h = (k line h.0, AreLines-map f k lines h.1)

fold_continuations-Keeps :
    (text : Bytes) → Keeps (length (split_lines text)) (fold_continuations text)
unfolding fold_continuations
fold_continuations-Keeps text =
    let clean =
      AreLines-map text_columns (λ line h. HasNoEnd-take text_end _ (HasNoEnd-rstrip_by _ line h))
        (split_lines text) (split_lines-AreLines text) in
    fold_lines-Keeps (length (split_lines text)) 0 (map text_columns (split_lines text))
      (started (map text_columns (split_lines text))) clean
      (length-map text_columns (split_lines text), clean)

canonical_lines-AreLines :
    (code_from n : ℕ) (lines : List Bytes)
    → length lines ≡ n
    → AreLines lines
    → (length (canonical_lines code_from lines) ≡ n) × AreLines (canonical_lines code_from lines)
canonical_lines-AreLines code_from n lines same h = (
  length-map _ lines ∙ same,
  AreLines-map (λ line. (canonical_line code_from line).0) (HasNoEnd-canonical_line code_from) lines
      h,
)

normalize_as-AreLines :
    (f : Format) (text : Bytes)
    → (length (normalize_as f text).0 ≡ length (split_lines text))
      × AreLines (normalize_as f text).0
unfolding normalize_as
normalize_as-AreLines fixed text =
    let k = fold_continuations-Keeps text in
    canonical_lines-AreLines 7 _ (fold_continuations text).lines k.0 k.1
normalize_as-AreLines free text =
    canonical_lines-AreLines 0 _ (split_lines text) refl (split_lines-AreLines text)

onto_first_some : (c : ℕ) (lines : List Bytes) → 0 < length (onto_first c lines)
onto_first_some c [] = omega arith
onto_first_some c (line ∷ lines) = omega arith

split_lines_some : (s : Bytes) → 0 < length (split_lines s)
unfolding split_lines
split_lines_some [] = omega arith
split_lines_some (c ∷ s) = elim (Bool-cases (c == 10)) [
  | inl e ↦ rw e (omega arith)
  | inr e ↦ rw e (onto_first_some c (split_lines s))
]

-- Lines of a text that has one at least are found again.
rejoined :
    (lines : List Bytes)
    → 0 < length lines
    → AreLines lines
    → split_lines (join_lines lines) ≡ lines
rejoined [] h k = absurd (omega arith)
rejoined (line ∷ lines) h k = split_lines-join_lines line lines k

-- A line whose literals are rewritten from some column on; a comment and a line without code stay.
abbrev pub IsRewritten : ℕ → Bytes → Bytes → Type 0
IsRewritten code_from folded line =
    ((line_is_comment folded || is_empty (strip (drop code_from folded)) ≡ true) × (line ≡ folded))
    ⊎ (line ≡ take code_from folded ++ (canonical_literals (drop code_from folded)).0)

canonical_line-IsRewritten :
    (code_from : ℕ) (line : Bytes) → IsRewritten code_from line (canonical_line code_from line).0
unfolding canonical_line
canonical_line-IsRewritten code_from line =
    elim (Bool-cases (line_is_comment line || is_empty (strip (drop code_from line)))) [
      | inl e ↦ rw e (inl (refl, refl))
      | inr e ↦ rw e (inr refl)
    ]

-- What a line of the result is, in terms of the source's line with its number.
abbrev pub IsLineOf : Format → Bytes → Bytes → Type 0
IsLineOf free source line = IsRewritten 0 source line
IsLineOf fixed source line =
    (folded : Bytes) × IsFolded (text_columns source) folded × IsRewritten 7 folded line

free_lines : (lines : List Bytes) → Lined (IsLineOf free) lines (canonical_lines 0 lines)
free_lines [] = tt
free_lines (line ∷ lines) = (canonical_line-IsRewritten 0 line, free_lines lines)

fixed_lines :
    (lines folded : List Bytes)
    → Lined IsFolded (map text_columns lines) folded
    → Lined (IsLineOf fixed) lines (canonical_lines 7 folded)
fixed_lines [] [] h = tt
fixed_lines [] (line ∷ folded) h = absurd h
fixed_lines (source ∷ lines) [] h = absurd h
fixed_lines (source ∷ lines) (line ∷ folded) h =
    ((line, h.0, canonical_line-IsRewritten 7 line), fixed_lines lines folded h.1)

normalize_as-IsLineOf :
    (f : Format) (text : Bytes) → Lined (IsLineOf f) (split_lines text) (normalize_as f text).0
unfolding normalize_as fold_continuations
normalize_as-IsLineOf free text = free_lines (split_lines text)
normalize_as-IsLineOf fixed text =
    fixed_lines (split_lines text) _ (fold_lines-IsFolded (map text_columns (split_lines text)))

-- The text that the compiler reads splits into the normalized lines again, as many as the source
-- has, and each line comes from the line of the source with the same number: in free format it is
-- that line with its literals rewritten. In fixed format it is that line's text columns, with the
-- literals rewritten from column 8 on; a line of code may have more text behind it, in place of the
-- white space at its end, and a continuation line may be empty. So line numbers of problems mean the
-- same in both.
pub compiler_visible_text-split_lines :
    (text : Bytes)
    → (split_lines (compiler_visible_text text) ≡ (normalize_text text).0)
      × (length (split_lines (compiler_visible_text text)) ≡ length (split_lines text))
      × Lined
          (IsLineOf (detect_source_format text))
          (split_lines text)
          (split_lines (compiler_visible_text text))
unfolding compiler_visible_text normalize_text
compiler_visible_text-split_lines text =
    let f = detect_source_format text in
    let (same, clean) = normalize_as-AreLines f text in
    let found =
      rejoined (normalize_as f text).0 (omega (arith, same, split_lines_some text)) clean in
    (
      found,
      ap length found ∙ same,
      subst (Lined (IsLineOf f) (split_lines text)) (sym found) (normalize_as-IsLineOf f text),
    )
