-- ===== src/SourceFormat/Lines/Folded.antt =====
-- Folding continuation lines keeps the number of lines, and makes no line end.
use cobol_java_transformatio.Common.{
  ℕ, suc, ◌+◌, ◌≡◌, ◌∙◌, inl, inr, not, none, some, List, [], ◌∷◌, ◌++◌, length, ◌==◌,
  if◌then◌else◌, Bool-cases,
}
use cobol_java_transformatio.Common.Bytes.{Bytes, drop}
use cobol_java_transformatio.Numeric.Literal.{is_white, lstrip_by, rstrip_by}
use cobol_java_transformatio.SourceFormat.{
  Problem, text_end, first_is, open_quote, ljust, get_line, set_line, Folding, continue_line,
  is_continuation, holds_code, fold_line, fold_lines,
}
use cobol_java_transformatio.SourceFormat.Lines.{
  HasNoEnd, HasNoEnd-append, HasNoEnd-drop, HasNoEnd-lstrip_by, HasNoEnd-rstrip_by, HasNoEnd-ljust,
  AreLines, AreLines-set_line, HasNoEnd-get_line, length-set_line,
}

abbrev pub Keeps : ℕ → Folding → Type 0
Keeps n f = (length f.lines ≡ n) × AreLines f.lines

replaced-Keeps :
    (n i j : ℕ) (s : Bytes) (f : Folding)
    → HasNoEnd s
    → Keeps n f
    → Keeps n (record f { lines = set_line i [] (set_line j s f.lines) })
replaced-Keeps n i j s f h (same, k) = (
  length-set_line i [] (set_line j s f.lines) ∙ length-set_line j s f.lines ∙ same,
  AreLines-set_line i [] (set_line j s f.lines) tt (AreLines-set_line j s f.lines h k),
)

continue_line-Keeps :
    (n number : ℕ) (resumed : Bytes) (last : ℕ) (f : Folding)
    → HasNoEnd resumed
    → Keeps n f
    → Keeps n (continue_line number resumed last f)
unfolding continue_line
continue_line-Keeps n number resumed last f h k =
    let continued = get_line last f.lines in
    let clean : HasNoEnd continued = HasNoEnd-get_line last f.lines k.1 in
    elim (open_quote none (drop 7 continued))
      as (λ o. Keeps n (elim o [
        | some quote ↦
            if not (first_is (λ c. c == quote) resumed)
            then record f { errors = f.errors ++ Problem.not_resumed (number + 1) quote ∷ [] }
            else record f {
              lines =
                  set_line number []
                    (set_line last (ljust text_end continued ++ drop 1 resumed) f.lines);
            }
        | none ↦ record f {
          lines =
              set_line number [] (set_line last (rstrip_by is_white continued ++ resumed) f.lines);
        }
      ])) [
        | some quote ↦ elim (Bool-cases (not (first_is (λ c. c == quote) resumed))) [
          | inl e ↦ rw e k
          | inr e ↦ rw e (
              replaced-Keeps n number last (ljust text_end continued ++ drop 1 resumed) f
                (HasNoEnd-append (ljust text_end continued) (drop 1 resumed)
                  (HasNoEnd-ljust text_end continued clean) (HasNoEnd-drop 1 resumed h))
                k)
        ]
        | none ↦
            replaced-Keeps n number last (rstrip_by is_white continued ++ resumed) f
              (HasNoEnd-append (rstrip_by is_white continued) resumed
                (HasNoEnd-rstrip_by is_white continued clean) h)
              k
      ]

fold_line-Keeps :
    (n number : ℕ) (line : Bytes) (f : Folding)
    → HasNoEnd line
    → Keeps n f
    → Keeps n (fold_line number line f)
unfolding fold_line
fold_line-Keeps n number line f h k = elim (Bool-cases (not (is_continuation line))) [
  | inl e ↦ rw e (elim (Bool-cases (holds_code line)) [ inl c ↦ rw c k | inr c ↦ rw c k ])
  | inr e ↦
      rw e
        (elim (f.last_code)
          as (λ o. Keeps n (elim o [
            | none ↦ record f { errors = f.errors ++ Problem.nothing_to_continue (number + 1) ∷ [] }
            | some last ↦ continue_line number (lstrip_by is_white (drop 7 line)) last f
          ])) [
            | none ↦ k
            | some last ↦
                continue_line-Keeps n number (lstrip_by is_white (drop 7 line)) last f
                  (HasNoEnd-lstrip_by is_white (drop 7 line) (HasNoEnd-drop 7 line h)) k
          ])
]

pub fold_lines-Keeps :
    (n number : ℕ) (lines : List Bytes) (f : Folding)
    → AreLines lines
    → Keeps n f
    → Keeps n (fold_lines number lines f)
unfolding fold_lines
fold_lines-Keeps n number [] f h k = k
fold_lines-Keeps n number (line ∷ lines) f h k =
    fold_lines-Keeps n (suc number) lines (fold_line number line f) h.1
      (fold_line-Keeps n number line f h.0 k)
