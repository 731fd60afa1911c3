-- ===== src/SourceFormat/Literals/Tokens.antt =====
-- What code says, as tokens: once by COBOL's rule, by which a doubled quote stands for one inside a
-- literal, and once for the readers behind, which know no such escape.
use cobol_java_transformatio.Common.{
  ℕ, zero, suc, ◌≤◌, ◌≡◌, refl, ap, sym, ◌∙◌, subst, ◌⊎◌, inl, inr, Bool, true, false, ◌&&◌, Option,
  none, some, List, [], ◌∷◌, ◌++◌, append_assoc, length, ◌==◌, ==_iff, if◌then◌else◌, Bool-cases,
  Result, ok, err, ◌>>=◌, Any, arith,
}
use cobol_java_transformatio.Common.Bytes.{Bytes, length-append}
use cobol_java_transformatio.Numeric.Literal.{is_quote}
use cobol_java_transformatio.SourceFormat.Literals.{
  Scanned, written_and, closed, scan_literal, has, other_quote, starts_comment, canonical_code,
  canonical_literals,
}

pub data Token : Type 0 where
  character : ℕ → Token
  literal comment : Bytes → Token

-- a value between quotes, with its quotes doubled
abbrev pub doubled : ℕ → Bytes → Bytes
doubled quote [] = []
doubled quote (c ∷ v) = if c == quote then c ∷ c ∷ doubled quote v else c ∷ doubled quote v

abbrev pub starts_by : ℕ → Bytes → Bool
starts_by quote [] = false
starts_by quote (c ∷ s) = c == quote

-- The code says these tokens by COBOL's rule.
pub data Says : Bytes → List Token → Type 0 where
  finished : Says [] []
  one :
      {c : ℕ} {s : Bytes} {ts : List Token}
      → is_quote c ≡ false
      → starts_comment c s ≡ false
      → Says s ts
      → Says (c ∷ s) (character c ∷ ts)
  remark : {c : ℕ} {s : Bytes} → starts_comment c s ≡ true → Says (c ∷ s) (comment (c ∷ s) ∷ [])
  quoted :
      {code : Bytes} {ts : List Token} (quote : ℕ) (v r : Bytes)
      → is_quote quote ≡ true
      → starts_by quote r ≡ false
      → code ≡ quote ∷ (doubled quote v ++ quote ∷ r)
      → Says r ts
      → Says code (literal v ∷ ts)

-- A reader without escapes finds these tokens: a literal ends at the next quote like its first.
pub data SaysPlainly : Bytes → List Token → Type 0 where
  finished : SaysPlainly [] []
  one :
      {c : ℕ} {s : Bytes} {ts : List Token}
      → is_quote c ≡ false
      → starts_comment c s ≡ false
      → SaysPlainly s ts
      → SaysPlainly (c ∷ s) (character c ∷ ts)
  remark :
      {c : ℕ} {s : Bytes} → starts_comment c s ≡ true → SaysPlainly (c ∷ s) (comment (c ∷ s) ∷ [])
  quoted :
      {code : Bytes} {ts : List Token} (quote : ℕ) (v r : Bytes)
      → is_quote quote ≡ true
      → has quote v ≡ false
      → code ≡ quote ∷ (v ++ quote ∷ r)
      → SaysPlainly r ts
      → SaysPlainly code (literal v ∷ ts)

-- A literal that no single pair of quotes can hold.
abbrev pub HasBothQuotes : Token → Type 0
HasBothQuotes (literal v) = (has 34 v ≡ true) × (has 39 v ≡ true)
HasBothQuotes _ = ⊥

scan_literal-cons :
    (quote c : ℕ) (s : Bytes)
    → (c == quote) ≡ false
    → scan_literal quote (c ∷ s) ≡ written_and (c ∷ []) c (scan_literal quote s)
unfolding scan_literal
scan_literal-cons quote c [] h = rw h refl
scan_literal-cons quote c (d ∷ s) h = rw h refl

scan_literal-pair :
    (quote : ℕ) (s : Bytes)
    → scan_literal quote (quote ∷ quote ∷ s)
      ≡ written_and (quote ∷ quote ∷ []) quote (scan_literal quote s)
unfolding scan_literal
scan_literal-pair quote s = rw ((==_iff quote quote).1 refl) refl

scan_literal-end :
    (quote : ℕ) (r : Bytes)
    → starts_by quote r ≡ false
    → scan_literal quote (quote ∷ r) ≡ closed quote r
unfolding scan_literal
scan_literal-end quote [] h = rw ((==_iff quote quote).1 refl) refl
scan_literal-end quote (d ∷ s) h = rw ((==_iff quote quote).1 refl) (rw h refl)

abbrev scanned : ℕ → Bytes → Bytes → Scanned
scanned quote v r = record { written = doubled quote v ++ quote ∷ []; value = v; rest = r }

scan_literal-doubled :
    (quote : ℕ) (v r : Bytes)
    → starts_by quote r ≡ false
    → scan_literal quote (doubled quote v ++ quote ∷ r) ≡ some (scanned quote v r)
scan_literal-doubled quote [] r h = scan_literal-end quote r h
scan_literal-doubled quote (c ∷ v) r h = elim (Bool-cases (c == quote)) [
  | inl e ↦
      let same : c ≡ quote = (==_iff c quote).0 e in
      rw e (
        subst
          (λ (d : ℕ).
            scan_literal quote (d ∷ d ∷ (doubled quote v ++ quote ∷ r))
            ≡ some (record {
              written = d ∷ d ∷ (doubled quote v ++ quote ∷ []);
              value = d ∷ v;
              rest = r;
            }))
          (sym same)
          (scan_literal-pair quote (doubled quote v ++ quote ∷ r)
            ∙ rw (scan_literal-doubled quote v r h) refl))
  | inr e ↦ rw e (
      scan_literal-cons quote c (doubled quote v ++ quote ∷ r) e
      ∙ rw (scan_literal-doubled quote v r h) refl)
]

doubled-plain : (quote : ℕ) (v : Bytes) → has quote v ≡ false → doubled quote v ≡ v
doubled-plain quote [] h = refl
doubled-plain quote (c ∷ v) h = elim (Bool-cases (c == quote)) [
  | inl e ↦ cc (h, e)
  | inr e ↦ rw e (ap (◌∷◌ c) (doubled-plain quote v (rw e at h)))
]

-- No comment starts in front of a text whose first character another one shares.
pub starts_comment-eq : (c : ℕ) (s : Bytes) → starts_comment c s ≡ (c == 42 && starts_by 62 s)
starts_comment-eq c [] = ground arith
starts_comment-eq c (d ∷ s) = refl

starts_comment-quote : (c : ℕ) (s : Bytes) → is_quote c ≡ true → starts_comment c s ≡ false
starts_comment-quote c s h = rw (starts_comment-eq c s) (ground arith)

abbrev Answers : Bytes → List Token → Result Bytes Bytes → Type 0
Answers code ts (ok out) = (starts_by 62 out ≡ starts_by 62 code) × SaysPlainly out ts
Answers code ts (err written) = Any HasBothQuotes ts

cons-Answers :
    (c : ℕ) (s : Bytes) (ts : List Token) (r : Result Bytes Bytes)
    → is_quote c ≡ false
    → starts_comment c s ≡ false
    → Answers s ts r
    → Answers (c ∷ s) (character c ∷ ts) (r >>= λ out. ok (c ∷ out))
cons-Answers c s ts (ok out) q h (same, says) =
    let still : starts_comment c out ≡ false =
      rw (starts_comment-eq c out) (rw same (rw (starts_comment-eq c s) at h)) in
    (refl, one q still says)
cons-Answers c s ts (err w) q h m = inr m

literal-Answers :
    (quote o : ℕ) (v w r : Bytes) (ts : List Token) (found : Result Bytes Bytes)
    → is_quote quote ≡ true
    → is_quote o ≡ true
    → has o v ≡ false
    → Answers r ts found
    → Answers (quote ∷ w) (literal v ∷ ts) (found >>= λ out. ok ((o ∷ (v ++ o ∷ [])) ++ out))
literal-Answers quote o v w r ts (ok out) q p h (same, says) =
    (ground arith, quoted o v out p h (ap (◌∷◌ o) (append_assoc v (o ∷ []) out)) says)
literal-Answers quote o v w r ts (err e) q p h m = inr m

other_quote-is_quote : (quote : ℕ) → is_quote (other_quote quote) ≡ true
other_quote-is_quote quote = ground arith

both_quotes :
    (quote : ℕ) (v : Bytes)
    → is_quote quote ≡ true
    → has quote v ≡ true
    → has (other_quote quote) v ≡ true
    → HasBothQuotes (literal v)
both_quotes quote v q h k = elim (Bool-cases (quote == 34)) [
  | inl e ↦ (subst (λ (c : ℕ). has c v ≡ true) ((==_iff quote 34).0 e) h, rw e at k)
  | inr e ↦
      let single : quote ≡ 39 = ground arith in
      (rw e at k, subst (λ (c : ℕ). has c v ≡ true) single h)
]

quoted-Answers :
    (n quote : ℕ) (v r : Bytes) (ts : List Token)
    → is_quote quote ≡ true
    → starts_by quote r ≡ false
    → Answers r ts (canonical_code n r)
    → Answers
        (quote ∷ (doubled quote v ++ quote ∷ r))
        (literal v ∷ ts)
        (canonical_code (suc n) (quote ∷ (doubled quote v ++ quote ∷ r)))
unfolding canonical_code
quoted-Answers n quote v r ts q h a =
    let w = doubled quote v ++ quote ∷ r in
    rw (starts_comment-quote quote w q) (
      rw q (
        rw (scan_literal-doubled quote v r h) (elim (Bool-cases (has quote v)) [
          | inl e ↦ elim (Bool-cases (has (other_quote quote) v)) [
            | inl f ↦ rw e (rw f (inl (both_quotes quote v q e f)))
            | inr f ↦ rw e (
                rw f (
                  literal-Answers quote (other_quote quote) v w r ts (canonical_code n r) q
                    (other_quote-is_quote quote) f a))
          ]
          | inr e ↦ rw e (
              rw (doubled-plain quote v e)
                (literal-Answers quote quote v w r ts (canonical_code n r) q q e a))
        ])))

canonical_code-Answers :
    (n : ℕ) {code : Bytes} {ts : List Token}
    → Says code ts
    → length code ≤ n
    → Answers code ts (canonical_code n code)
unfolding canonical_code
canonical_code-Answers zero finished h = (refl, finished)
canonical_code-Answers (suc n) finished h = (refl, finished)
canonical_code-Answers zero (one q k says) h = absurd (omega arith)
canonical_code-Answers (suc n) (one {c} {s} q k says) h = rw k (
    rw q
      (cons-Answers c s _ (canonical_code n s) q k (canonical_code-Answers n says (omega arith))))
canonical_code-Answers zero (remark k) h = absurd (omega arith)
canonical_code-Answers (suc n) (remark {c} {s} k) h = rw k (refl, remark k)
canonical_code-Answers zero (quoted quote v r q k e says) h = absurd (omega (arith, ap length e))
canonical_code-Answers (suc n) {code} {ts} (quoted quote v r q k e says) h =
    let short : length r ≤ n =
      omega (arith, ap length e, length-append (doubled quote v) (quote ∷ r)) in
    subst (λ (c : Bytes). Answers c ts (canonical_code (suc n) c)) (sym e)
      (quoted-Answers n quote v r _ q k (canonical_code-Answers n says short))

abbrev pub Canonical : Bytes → List Token → Bytes × Option Bytes → Type 0
Canonical code ts (out, problem) =
    ((problem ≡ none) × SaysPlainly out ts)
    ⊎ ((out ≡ code) × Any HasBothQuotes ts × ((w : Bytes) × (problem ≡ some w)))

-- Code that says some tokens by COBOL's rule is rewritten so that a reader without escapes finds the
-- same tokens, each literal with its value; or it is left as it is with a problem reported, and then
-- one of its literals has both quotes.
pub canonical_literals-Says :
    {code : Bytes} {ts : List Token} → Says code ts → Canonical code ts (canonical_literals code)
unfolding canonical_literals
canonical_literals-Says {code} {ts} says =
    outcome (canonical_code (length code) code)
      (canonical_code-Answers (length code) says (omega arith))
  where
    outcome :
        (r : Result Bytes Bytes)
        → Answers code ts r
        → Canonical code ts (elim r [ ok out ↦ (out, none) | err written ↦ (code, some written) ])
    outcome (ok out) a = inl (refl, a.1)
    outcome (err w) m = inr (refl, m, (w, refl))
