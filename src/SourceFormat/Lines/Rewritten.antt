-- ===== src/SourceFormat/Lines/Rewritten.antt =====
-- Scanning and rewriting literals make no line end.
use cobol_java_transformatio.Common.{
  ℕ, zero, suc, ◌≡◌, ◌≢◌, inl, inr, true, Option, none, some, [], ◌∷◌, ◌++◌, ◌==◌, Bool-cases,
  Result, ok, err, ◌>>=◌, arith,
}
use cobol_java_transformatio.Common.Bytes.{Bytes}
use cobol_java_transformatio.Numeric.Literal.{is_quote}
use cobol_java_transformatio.SourceFormat.Literals.{
  Scanned, written_and, scan_literal, has, other_quote, canonical_literal, starts_comment,
  canonical_code,
}
use cobol_java_transformatio.SourceFormat.Lines.{HasNoEnd, HasNoEnd-append}

abbrev pub IsClean : Option Scanned → Type 0
IsClean none = Unit
IsClean (some l) = HasNoEnd l.written × HasNoEnd l.value × HasNoEnd l.rest

written_and-IsClean :
    (w : Bytes) (c : ℕ) (o : Option Scanned)
    → HasNoEnd w
    → c ≢ 10
    → IsClean o
    → IsClean (written_and w c o)
written_and-IsClean w c none h k i = tt
written_and-IsClean w c (some l) h k i = (HasNoEnd-append w l.written h i.0, (k, i.1), i.2)

scan_literal-IsClean :
    (quote : ℕ) (s : Bytes) → quote ≢ 10 → HasNoEnd s → IsClean (scan_literal quote s)
unfolding scan_literal
scan_literal-IsClean quote [] q h = tt
scan_literal-IsClean quote (c ∷ []) q h = elim (Bool-cases (c == quote)) [
  | inl e ↦ rw e ((q, tt), tt, tt)
  | inr e ↦ rw e tt
]
scan_literal-IsClean quote (c ∷ d ∷ s) q h = elim (Bool-cases (c == quote)) [
  | inl e ↦ rw e (elim (Bool-cases (d == quote)) [
    | inl g ↦ rw g (
        written_and-IsClean (c ∷ d ∷ []) c (scan_literal quote s) (h.0, (h.1.0, tt)) h.0
          (scan_literal-IsClean quote s q h.1.1))
    | inr g ↦ rw g ((q, tt), tt, h.1)
  ])
  | inr e ↦ rw e (
      written_and-IsClean (c ∷ []) c (scan_literal quote (d ∷ s)) (h.0, tt) h.0
        (scan_literal-IsClean quote (d ∷ s) q h.1))
]

abbrev pub IsCleanResult : Result Bytes Bytes → Type 0
IsCleanResult (ok out) = HasNoEnd out
IsCleanResult (err w) = Unit

>>=-IsClean :
    (m : Result Bytes Bytes) (f : Bytes → Result Bytes Bytes)
    → IsCleanResult m
    → ((out : Bytes) → HasNoEnd out → IsCleanResult (f out))
    → IsCleanResult (m >>= f)
>>=-IsClean (ok out) f h k = k out h
>>=-IsClean (err w) f h k = tt

quote-HasNoEnd : (c : ℕ) → is_quote c ≡ true → c ≢ 10
quote-HasNoEnd c h = ground arith

canonical_literal-IsClean :
    (quote : ℕ) (l : Scanned)
    → quote ≢ 10
    → IsClean (some l)
    → IsCleanResult (canonical_literal quote l)
canonical_literal-IsClean quote l q i = elim (Bool-cases (has quote l.value)) [
  | inr e ↦ rw e (q, i.0)
  | inl e ↦ rw e (elim (Bool-cases (has (other_quote quote) l.value)) [
    | inl f ↦ rw f tt
    | inr f ↦
        let other : other_quote quote ≢ 10 = ground arith in
        rw f (other, HasNoEnd-append l.value (other_quote quote ∷ []) i.1 (other, tt))
  ])
]

pub canonical_code-IsClean : (n : ℕ) (s : Bytes) → HasNoEnd s → IsCleanResult (canonical_code n s)
unfolding canonical_code
canonical_code-IsClean n [] h = tt
canonical_code-IsClean zero (c ∷ s) h = h
canonical_code-IsClean (suc n) (c ∷ s) h = elim (Bool-cases (starts_comment c s)) [
  | inl e ↦ rw e h
  | inr e ↦ elim (Bool-cases (is_quote c)) [
    | inr q ↦ rw e (
        rw q (
          >>=-IsClean (canonical_code n s) (λ out. ok (c ∷ out)) (canonical_code-IsClean n s h.1)
            (λ out k. (h.0, k))))
    | inl q ↦ rw e (
        rw q (
          elim (scan_literal c s)
              as (λ o.
                IsClean o
                → IsCleanResult (elim o [
                  | none ↦ ok (c ∷ s)
                  | some l ↦ do
                    text ← canonical_literal c l
                    out ← canonical_code n l.rest
                    ok (text ++ out)
                ])) [
                  | none ↦ λ i. h
                  | some l ↦ λ i.
                      >>=-IsClean (canonical_literal c l) _
                        (canonical_literal-IsClean c l (quote-HasNoEnd c q) i)
                        λ text t.
                          >>=-IsClean (canonical_code n l.rest) _
                            (canonical_code-IsClean n l.rest i.2)
                            λ out o. HasNoEnd-append text out t o
                ]
            (scan_literal-IsClean c s (quote-HasNoEnd c q) h.1)))
  ]
]
