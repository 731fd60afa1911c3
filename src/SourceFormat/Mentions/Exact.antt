-- ===== src/SourceFormat/Mentions/Exact.antt =====
-- The words that `code_mentions` searches are those outside literals and comments.
use cobol_java_transformatio.Common.{
  ℕ, zero, suc, ◌≤◌, ◌≡◌, refl, ap, sym, ◌∙◌, subst, true, false, some, List, [], ◌∷◌, ◌++◌, length,
  ==_iff, arith,
}
use cobol_java_transformatio.Common.Bytes.{Bytes, length-append}
use cobol_java_transformatio.Numeric.Literal.{is_quote}
use cobol_java_transformatio.SourceFormat.Literals.{has, starts_comment}
use cobol_java_transformatio.SourceFormat.Literals.Tokens.{
  Token, character, literal, comment, starts_by, starts_comment-eq, SaysPlainly, finished, one,
  remark, quoted,
}
use cobol_java_transformatio.SourceFormat.Mentions.{
  behind_quote, blank_literals, before_comment, code_of, last_is, but_last, unquote_literal,
}

-- The code of tokens: a literal is an empty one, a comment is nothing.
unfoldable pub words_of : List Token → Bytes
words_of [] = []
words_of (character c ∷ ts) = c ∷ words_of ts
words_of (literal v ∷ ts) = 39 ∷ 39 ∷ words_of ts
words_of (comment s ∷ ts) = []

behind_quote-append :
    (quote : ℕ) (v r : Bytes) → has quote v ≡ false → behind_quote quote (v ++ quote ∷ r) ≡ some r
unfolding behind_quote
behind_quote-append quote [] r h = rw ((==_iff quote quote).1 refl) refl
behind_quote-append quote (c ∷ v) r h = ground (arith, behind_quote-append quote v r)

-- Blanking literals keeps the first character where it is no quote.
abbrev Reads : Bytes → List Token → Bytes → Type 0
Reads s ts out = (starts_by 62 out ≡ starts_by 62 s) × (before_comment out ≡ words_of ts)

before_comment-cons :
    (c : ℕ) (s : Bytes) → starts_comment c s ≡ false → before_comment (c ∷ s) ≡ c ∷ before_comment s
unfolding before_comment
before_comment-cons c s h = rw h refl

-- A comment starts behind the text as well.
still_comment :
    (n c : ℕ) (s : Bytes)
    → starts_comment c s ≡ true
    → length s ≤ n
    → starts_comment c (blank_literals n s) ≡ true
unfolding blank_literals
still_comment n c [] k h = cc
still_comment zero c (d ∷ s) k h = absurd (omega arith)
still_comment (suc n) c (d ∷ s) k h = let plain : is_quote d ≡ false = ground arith in rw plain k

before_comment-remark :
    (c : ℕ) (s : Bytes) → starts_comment c s ≡ true → before_comment (c ∷ s) ≡ []
unfolding before_comment
before_comment-remark c s h = rw h refl

star-is_quote : (c : ℕ) (s : Bytes) → starts_comment c s ≡ true → is_quote c ≡ false
star-is_quote c [] h = cc
star-is_quote c (d ∷ s) h = ground arith

blanked-Reads :
    (n quote : ℕ) (v r : Bytes) (ts : List Token)
    → is_quote quote ≡ true
    → has quote v ≡ false
    → Reads r ts (blank_literals n r)
    → Reads
        (quote ∷ (v ++ quote ∷ r))
        (literal v ∷ ts)
        (blank_literals (suc n) (quote ∷ (v ++ quote ∷ r)))
unfolding blank_literals words_of
blanked-Reads n quote v r ts q k (same, found) =
    let open_end : starts_comment 39 (blank_literals n r) ≡ false =
      starts_comment-eq 39 (blank_literals n r) in
    rw q (
      rw (behind_quote-append quote v r k) (
        ground arith,
        before_comment-cons 39 (39 ∷ blank_literals n r) refl
            ∙ ap (◌∷◌ 39)
                (before_comment-cons 39 (blank_literals n r) open_end ∙ ap (◌∷◌ 39) found),
      ))

blank_literals-Reads :
    (n : ℕ) {s : Bytes} {ts : List Token}
    → SaysPlainly s ts
    → length s ≤ n
    → Reads s ts (blank_literals n s)
unfolding blank_literals words_of before_comment
blank_literals-Reads n finished h = (refl, refl)
blank_literals-Reads zero (one q k says) h = absurd (omega arith)
blank_literals-Reads (suc n) (one {c} {s} q k says) h =
    let (same, found) = blank_literals-Reads n says (omega arith) in
    let still : starts_comment c (blank_literals n s) ≡ false =
      rw (starts_comment-eq c (blank_literals n s)) (rw same (rw (starts_comment-eq c s) at k)) in
    rw q (refl, before_comment-cons c (blank_literals n s) still ∙ ap (◌∷◌ c) found)
blank_literals-Reads zero (remark k) h = absurd (omega arith)
blank_literals-Reads (suc n) (remark {c} {s} k) h =
    rw (star-is_quote c s k)
      (refl, before_comment-remark c (blank_literals n s) (still_comment n c s k (omega arith)))
blank_literals-Reads zero (quoted quote v r q k e says) h = absurd (omega (arith, ap length e))
blank_literals-Reads (suc n) {s} {ts} (quoted quote v r q k e says) h =
    let short : length r ≤ n = omega (arith, ap length e, length-append v (quote ∷ r)) in
    subst (λ (c : Bytes). Reads c ts (blank_literals (suc n) c)) (sym e)
      (blanked-Reads n quote v r _ q k (blank_literals-Reads n says short))

-- Of a line that says these tokens to a reader without escapes, the words of `code_mentions` are
-- searched in the text of the tokens: each literal empty, and no comment.
pub code_of-words_of :
    {line : Bytes} {ts : List Token} → SaysPlainly line ts → code_of line ≡ words_of ts
unfolding code_of
code_of-words_of {line} says = (blank_literals-Reads (length line) says (omega arith)).1

last_is-append : (o : ℕ) (v : Bytes) → last_is o (v ++ o ∷ []) ≡ true
last_is-append o [] = (==_iff o o).1 refl
last_is-append o (c ∷ []) = (==_iff o o).1 refl
last_is-append o (c ∷ d ∷ v) = last_is-append o (d ∷ v)

but_last-append : (o : ℕ) (v : Bytes) → but_last (v ++ o ∷ []) ≡ v
but_last-append o [] = refl
but_last-append o (c ∷ []) = refl
but_last-append o (c ∷ d ∷ v) = ap (◌∷◌ c) (but_last-append o (d ∷ v))

-- Unquoting what is written between two like quotes gives it back, whatever quotes it holds.
pub unquote_literal-quoted :
    (o : ℕ) (v : Bytes) → is_quote o ≡ true → unquote_literal (o ∷ (v ++ o ∷ [])) ≡ v
unfolding unquote_literal
unquote_literal-quoted o v q = rw q (rw (last_is-append o v) (but_last-append o v))
