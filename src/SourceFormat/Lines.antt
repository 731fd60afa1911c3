-- ===== src/SourceFormat/Lines.antt =====
-- Texts with no line end, and lists of them.
pub mod Folded
pub mod Related
pub mod Positions
pub mod Rewritten
pub mod Exact
use cobol_java_transformatio.Common.{
  ℕ, zero, suc, ◌+◌, ◌-◌, ◌≡◌, ◌≢◌, refl, ap, sym, ◌∙◌, subst, inl, inr, Bool, true, false, not,
  ◌&&◌, ◌||◌, Option, none, some, List, [], ◌∷◌, ◌++◌, map, is_empty, any, length, ◌==◌, ==_iff,
  if◌then◌else◌, Bool-cases, Result, ok, err, ◌>>=◌, All, All-map, arith,
}
use cobol_java_transformatio.Common.Bytes.{Bytes, take, drop}
use cobol_java_transformatio.Numeric.Literal.{is_quote, is_white, lstrip_by, rstrip_by}
use cobol_java_transformatio.Storage.Item.{strip}
use cobol_java_transformatio.SourceFormat.Literals.{
  Scanned, written_and, closed, scan_literal, has, other_quote, canonical_literal, starts_comment,
  canonical_code, canonical_literals,
}
use cobol_java_transformatio.SourceFormat.{
  Problem, text_end, first_is, line_is_comment, Format, free, fixed, detect_source_format,
  open_quote, onto_first, split_lines, join_lines, ljust, get_line, set_line, Folding,
  continue_line, is_continuation, holds_code, fold_line, fold_lines, text_columns, started,
  fold_continuations, canonical_line, canonical_lines, normalize_as, normalize_text,
  compiler_visible_text,
}

abbrev pub HasNoEnd : Bytes → Type 0
HasNoEnd s = All (λ c. c ≢ 10) s

pub HasNoEnd-append : (s t : Bytes) → HasNoEnd s → HasNoEnd t → HasNoEnd (s ++ t)
HasNoEnd-append [] t h k = k
HasNoEnd-append (c ∷ s) t h k = (h.0, HasNoEnd-append s t h.1 k)

pub HasNoEnd-take : (n : ℕ) (s : Bytes) → HasNoEnd s → HasNoEnd (take n s)
HasNoEnd-take zero s h = tt
HasNoEnd-take (suc n) [] h = tt
HasNoEnd-take (suc n) (c ∷ s) h = (h.0, HasNoEnd-take n s h.1)

pub HasNoEnd-drop : (n : ℕ) (s : Bytes) → HasNoEnd s → HasNoEnd (drop n s)
HasNoEnd-drop zero s h = h
HasNoEnd-drop (suc n) [] h = tt
HasNoEnd-drop (suc n) (c ∷ s) h = HasNoEnd-drop n s h.1

pub HasNoEnd-lstrip_by : (p : ℕ → Bool) (s : Bytes) → HasNoEnd s → HasNoEnd (lstrip_by p s)
unfolding lstrip_by
HasNoEnd-lstrip_by p [] h = tt
HasNoEnd-lstrip_by p (c ∷ s) h = elim (Bool-cases (p c)) [
  | inl e ↦ rw e (HasNoEnd-lstrip_by p s h.1)
  | inr e ↦ rw e h
]

pub HasNoEnd-rstrip_by : (p : ℕ → Bool) (s : Bytes) → HasNoEnd s → HasNoEnd (rstrip_by p s)
unfolding rstrip_by
HasNoEnd-rstrip_by p [] h = tt
HasNoEnd-rstrip_by p (c ∷ s) h = elim (Bool-cases (p c && is_empty (rstrip_by p s))) [
  | inl e ↦ rw e tt
  | inr e ↦ rw e (h.0, HasNoEnd-rstrip_by p s h.1)
]

pub HasNoEnd-ljust : (n : ℕ) (s : Bytes) → HasNoEnd s → HasNoEnd (ljust n s)
unfolding ljust
HasNoEnd-ljust zero s h = h
HasNoEnd-ljust (suc n) [] h = (omega arith, HasNoEnd-ljust n [] tt)
HasNoEnd-ljust (suc n) (c ∷ s) h = (h.0, HasNoEnd-ljust n s h.1)

-- The lines of a list that all lack a line end.
abbrev pub AreLines : List Bytes → Type 0
AreLines lines = All HasNoEnd lines

pub AreLines-set_line :
    (i : ℕ) (s : Bytes) (lines : List Bytes)
    → HasNoEnd s
    → AreLines lines
    → AreLines (set_line i s lines)
AreLines-set_line i s [] h k = tt
AreLines-set_line zero s (line ∷ lines) h k = (h, k.1)
AreLines-set_line (suc i) s (line ∷ lines) h k = (k.0, AreLines-set_line i s lines h k.1)

pub HasNoEnd-get_line : (i : ℕ) (lines : List Bytes) → AreLines lines → HasNoEnd (get_line i lines)
HasNoEnd-get_line i [] k = tt
HasNoEnd-get_line zero (line ∷ lines) k = k.0
HasNoEnd-get_line (suc i) (line ∷ lines) k = HasNoEnd-get_line i lines k.1

pub length-set_line :
    (i : ℕ) (s : Bytes) (lines : List Bytes) → length (set_line i s lines) ≡ length lines
length-set_line i s [] = refl
length-set_line zero s (line ∷ lines) = refl
length-set_line (suc i) s (line ∷ lines) = ap suc (length-set_line i s lines)

pub length-map {ℓ κ} :
    {A : Type ℓ} {B : Type κ} (f : A → B) (xs : List A) → length (map f xs) ≡ length xs
length-map f [] = refl
length-map f (x ∷ xs) = ap suc (length-map f xs)
