-- ===== src/SourceFormat/Lines/Related.antt =====
-- Texts that begin with another text, and lists of lines that are related line by line.
use cobol_java_transformatio.Common.{
  ℕ, zero, suc, ◌≡◌, refl, ap, sym, ◌∙◌, inl, inr, false, ◌&&◌, List, [], ◌∷◌, ◌++◌, append_assoc,
  append-nil, is_empty, Bool-cases, arith,
}
use cobol_java_transformatio.Common.Bytes.{Bytes}
use cobol_java_transformatio.Numeric.Literal.{is_white, rstrip_by}
use cobol_java_transformatio.SourceFormat.{ljust, get_line, set_line}

abbrev pub BeginsWith : Bytes → Bytes → Type 0
BeginsWith p s = (rest : Bytes) × (s ≡ p ++ rest)

-- Two lists of equal length, related line by line.
abbrev pub Lined : (Bytes → Bytes → Type 0) → List Bytes → List Bytes → Type 0
Lined R [] [] = Unit
Lined R [] (line ∷ lines) = ⊥
Lined R (source ∷ sources) [] = ⊥
Lined R (source ∷ sources) (line ∷ lines) = R source line × Lined R sources lines

pub Lined-set_line :
    (R : Bytes → Bytes → Type 0) (i : ℕ) (s : Bytes) (sources lines : List Bytes)
    → R (get_line i sources) s
    → Lined R sources lines
    → Lined R sources (set_line i s lines)
Lined-set_line R i s [] [] r h = tt
Lined-set_line R i s [] (line ∷ lines) r h = absurd h
Lined-set_line R i s (source ∷ sources) [] r h = absurd h
Lined-set_line R zero s (source ∷ sources) (line ∷ lines) r h = (r, h.1)
Lined-set_line R (suc i) s (source ∷ sources) (line ∷ lines) r h =
    (h.0, Lined-set_line R i s sources lines r h.1)

pub Lined-refl :
    (R : Bytes → Bytes → Type 0)
    → ((s : Bytes) → R s s)
    → (lines : List Bytes) → Lined R lines lines
Lined-refl R r [] = tt
Lined-refl R r (line ∷ lines) = (r line, Lined-refl R r lines)

-- Beyond the last line both are the empty text.
pub Lined-get_line :
    (R : Bytes → Bytes → Type 0) (i : ℕ) (sources lines : List Bytes)
    → R [] []
    → Lined R sources lines
    → R (get_line i sources) (get_line i lines)
Lined-get_line R i [] [] r h = r
Lined-get_line R i [] (line ∷ lines) r h = absurd h
Lined-get_line R i (source ∷ sources) [] r h = absurd h
Lined-get_line R zero (source ∷ sources) (line ∷ lines) r h = h.0
Lined-get_line R (suc i) (source ∷ sources) (line ∷ lines) r h =
    Lined-get_line R i sources lines r h.1

pub BeginsWith-append : (p s t : Bytes) → BeginsWith p s → BeginsWith p (s ++ t)
BeginsWith-append p s t (rest, e) =
    (rest ++ t, ap (λ (x : Bytes). x ++ t) e ∙ append_assoc p rest t)

pub BeginsWith-rstrip_by : (s : Bytes) → BeginsWith (rstrip_by is_white s) s
unfolding rstrip_by
BeginsWith-rstrip_by [] = ([], refl)
BeginsWith-rstrip_by (c ∷ s) = elim (Bool-cases (is_white c && is_empty (rstrip_by is_white s))) [
  | inl e ↦ rw e (c ∷ s, refl)
  | inr e ↦ rw e (let (rest, same) = BeginsWith-rstrip_by s in (rest, ap (◌∷◌ c) same))
]

-- What is stripped once is not stripped further by what stands behind it.
pub rstrip_by-append :
    (s t : Bytes)
    → BeginsWith (rstrip_by is_white s) (rstrip_by is_white (rstrip_by is_white s ++ t))
unfolding rstrip_by
rstrip_by-append [] t = (rstrip_by is_white t, refl)
rstrip_by-append (c ∷ s) t = elim (Bool-cases (is_white c && is_empty (rstrip_by is_white s))) [
  | inl e ↦ rw e (rstrip_by is_white t, refl)
  | inr e ↦
      let (rest, same) = rstrip_by-append s t in
      let left = some_left (rstrip_by is_white s) rest e in
      rw (e, rstrip_by, same, left) (rest, refl)
]
  where
    some_left :
        (p rest : Bytes)
        → is_white c && is_empty p ≡ false
        → is_white c && is_empty (p ++ rest) ≡ false
    some_left [] rest e = ground (arith, e)
    some_left (d ∷ p) rest e = ground (arith, e)

pub BeginsWith-ljust : (n : ℕ) (s : Bytes) → BeginsWith s (ljust n s)
unfolding ljust
BeginsWith-ljust zero s = ([], sym (append-nil s))
BeginsWith-ljust (suc n) [] = (32 ∷ ljust n [], refl)
BeginsWith-ljust (suc n) (c ∷ s) = let (rest, e) = BeginsWith-ljust n s in (rest, ap (◌∷◌ c) e)
