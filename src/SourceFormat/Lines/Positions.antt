-- ===== src/SourceFormat/Lines/Positions.antt =====
-- Folding continuation lines leaves each line of code at its number.
use cobol_java_transformatio.Common.{
  ℕ, suc, ◌+◌, ◌≡◌, ◌⊎◌, refl, ap, sym, subst, ◌∙◌, inl, inr, true, false, not, Option, none, some,
  List, [], ◌∷◌, ◌++◌, append-nil, ◌==◌, if◌then◌else◌, Bool-cases, Option-cases, arith,
}
use cobol_java_transformatio.Common.Bytes.{Bytes, drop}
use cobol_java_transformatio.Numeric.Literal.{is_white, lstrip_by, rstrip_by}
use cobol_java_transformatio.SourceFormat.{
  Problem, text_end, first_is, open_quote, ljust, get_line, set_line, Folding, continue_line,
  is_continuation, holds_code, fold_line, fold_lines, started,
}
use cobol_java_transformatio.SourceFormat.Lines.Related.{
  BeginsWith, Lined, Lined-set_line, Lined-refl, Lined-get_line, BeginsWith-append,
  BeginsWith-rstrip_by, rstrip_by-append, BeginsWith-ljust,
}

-- A line of the source and the line with its number after the folding: the same; or the line of code
-- less the white space at its end, with more text behind it; or nothing, for a continuation line.
abbrev pub IsFolded : Bytes → Bytes → Type 0
IsFolded source line =
    (line ≡ source)
    ⊎ ((is_continuation source ≡ false)
        × (holds_code source ≡ true)
        × BeginsWith (rstrip_by is_white source) line)
    ⊎ ((is_continuation source ≡ true) × (line ≡ []))

abbrev IsCode : Bytes → Type 0
IsCode source = (is_continuation source ≡ false) × (holds_code source ≡ true)

code_BeginsWith :
    (source line : Bytes)
    → IsCode source
    → IsFolded source line
    → BeginsWith (rstrip_by is_white source) line
      × BeginsWith (rstrip_by is_white source) (rstrip_by is_white line)
code_BeginsWith source line code (inl e) = (
  subst (BeginsWith (rstrip_by is_white source)) (sym e) (BeginsWith-rstrip_by source),
  ([], ap (rstrip_by is_white) e ∙ sym (append-nil (rstrip_by is_white source))),
)
code_BeginsWith source line code (inr (inl (plain, holds, (rest, e)))) = (
  (rest, e),
  subst (λ (x : Bytes). BeginsWith (rstrip_by is_white source) (rstrip_by is_white x)) (sym e)
      (rstrip_by-append source rest),
)
code_BeginsWith source line code (inr (inr (continues, e))) = cc (continues, code.0)

-- The lines stand at their numbers, and the last line of code is one of the source.
abbrev IsPlaced : List Bytes → Folding → Type 0
IsPlaced sources f =
    Lined IsFolded sources f.lines × ((n : ℕ) → f.last_code ≡ some n → IsCode (get_line n sources))

module _ (sources : List Bytes) where
  folded_onto :
      (number last : ℕ) (s : Bytes) (f : Folding)
      → is_continuation (get_line number sources) ≡ true
      → IsCode (get_line last sources)
      → BeginsWith (rstrip_by is_white (get_line last sources)) s
      → IsPlaced sources f
      → IsPlaced sources (record f { lines = set_line number [] (set_line last s f.lines) })
  folded_onto number last s f continues code begins (lined, last_is) = (
    Lined-set_line IsFolded number [] sources (set_line last s f.lines)
        (inr (inr (continues, refl)))
        (Lined-set_line IsFolded last s sources f.lines (inr (inl (code.0, code.1, begins))) lined),
    last_is,
  )

  continue_line-IsPlaced :
      (number : ℕ) (resumed : Bytes) (last : ℕ) (f : Folding)
      → is_continuation (get_line number sources) ≡ true
      → IsCode (get_line last sources)
      → IsPlaced sources f
      → IsPlaced sources (continue_line number resumed last f)
  unfolding continue_line
  continue_line-IsPlaced number resumed last f continues code placed =
      let continued = get_line last f.lines in
      let (begins, begins_stripped) =
        code_BeginsWith (get_line last sources) continued code
          (Lined-get_line IsFolded last sources f.lines (inl refl) placed.0) in
      elim (open_quote none (drop 7 continued))
        as (λ o. IsPlaced sources (elim o [
          | some quote ↦
              if not (first_is (λ c. c == quote) resumed)
              then record f { errors = f.errors ++ Problem.not_resumed (number + 1) quote ∷ [] }
              else record f {
                lines =
                    set_line number []
                      (set_line last (ljust text_end continued ++ drop 1 resumed) f.lines);
              }
          | none ↦ record f {
            lines =
                set_line number []
                  (set_line last (rstrip_by is_white continued ++ resumed) f.lines);
          }
        ])) [
          | some quote ↦ elim (Bool-cases (not (first_is (λ c. c == quote) resumed))) [
            | inl e ↦ rw e placed
            | inr e ↦ rw e (
                folded_onto number last (ljust text_end continued ++ drop 1 resumed) f continues
                  code (justified continued (drop 1 resumed) begins) placed)
          ]
          | none ↦
              folded_onto number last (rstrip_by is_white continued ++ resumed) f continues code
                (BeginsWith-append _ (rstrip_by is_white continued) resumed begins_stripped) placed
        ]
    where
      justified :
          (continued resumed : Bytes)
          → BeginsWith (rstrip_by is_white (get_line last sources)) continued
          → BeginsWith
              (rstrip_by is_white (get_line last sources))
              (ljust text_end continued ++ resumed)
      justified continued resumed begins =
          let (spaces, e) = BeginsWith-ljust text_end continued in
          BeginsWith-append _ (ljust text_end continued) resumed (
            subst (BeginsWith (rstrip_by is_white (get_line last sources))) (sym e)
              (BeginsWith-append _ continued spaces begins))

  fold_line-IsPlaced :
      (number : ℕ) (line : Bytes) (f : Folding)
      → get_line number sources ≡ line
      → IsPlaced sources f
      → IsPlaced sources (fold_line number line f)
  unfolding fold_line
  fold_line-IsPlaced number line f at placed = elim (Bool-cases (not (is_continuation line))) [
    | inl e ↦ rw e (elim (Bool-cases (holds_code line)) [
      | inl c ↦ rw c (placed.0, λ n h. number_is n h (ground arith) c)
      | inr c ↦ rw c placed
    ])
    | inr e ↦ rw e (elim (Option-cases f.last_code) [
      | inl h ↦ rw h placed
      | inr (last, h) ↦ rw h (
          continue_line-IsPlaced number (lstrip_by is_white (drop 7 line)) last f
            (rw at (ground arith)) (placed.1 last h) placed)
    ])
  ]
    where
      number_is :
          (n : ℕ)
          → ◌≡◌ {A = Option ℕ} (some number) (some n)
          → is_continuation line ≡ false
          → holds_code line ≡ true
          → IsCode (get_line n sources)
      number_is n h plain holds =
          let k : number ≡ n = cc h in
          subst (λ (m : ℕ). IsCode (get_line m sources)) k (subst IsCode (sym at) (plain, holds))

  pub fold_lines-IsPlaced :
      (number : ℕ) (lines : List Bytes) (f : Folding)
      → ((k : ℕ) → get_line (number + k) sources ≡ get_line k lines)
      → IsPlaced sources f
      → IsPlaced sources (fold_lines number lines f)
  unfolding fold_lines
  fold_lines-IsPlaced number [] f at placed = placed
  fold_lines-IsPlaced number (line ∷ lines) f at placed =
      fold_lines-IsPlaced (suc number) lines (fold_line number line f) next
        (fold_line-IsPlaced number line f (here (omega arith)) placed)
    where
      here : number + 0 ≡ number → get_line number sources ≡ line
      here e = ap (λ (n : ℕ). get_line n sources) (sym e) ∙ at 0

      next : (k : ℕ) → get_line (suc number + k) sources ≡ get_line k lines
      next k =
          let e : suc number + k ≡ number + suc k = omega arith in
          ap (λ (n : ℕ). get_line n sources) e ∙ at (suc k)

-- All lines folded, from the first.
pub fold_lines-IsFolded :
    (lines : List Bytes) → Lined IsFolded lines (fold_lines 0 lines (started lines)).lines
fold_lines-IsFolded lines =
    (fold_lines-IsPlaced lines 0 lines (started lines)
      (λ k. let e : 0 + k ≡ k = omega arith in ap (λ (n : ℕ). get_line n lines) e)
      (Lined-refl IsFolded (λ s. inl refl) lines, λ n h. cc h)).0
