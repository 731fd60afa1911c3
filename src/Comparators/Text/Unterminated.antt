-- ===== src/Comparators/Text/Unterminated.antt =====
-- The SORTED ordering on contents whose last line has no line break.
use cobol_java_transformatio.Common.{
  ℕ, ◌≡◌, ◌≢◌, refl, sym, ap, ◌∙◌, false, Option, some, [], ◌∷◌, ◌++◌, append-nil, append_assoc,
  arith, All, ok,
}
use cobol_java_transformatio.Common.Bytes.{Bytes, bytes_le}
use cobol_java_transformatio.Domain.{ArtifactIdentity}
use cobol_java_transformatio.Comparators.Model.{match, ComparatorResult, FailurePolicy}
use cobol_java_transformatio.Comparators.Policy.{splitlines, sorted, insert, concat, lf, cr}
use cobol_java_transformatio.Comparators.Text.{TextComparator, report, compare}
use cobol_java_transformatio.Comparators.Text.Match.{by_lines, report-match, compare-prepared}

-- No line break.
abbrev pub IsPlain : Bytes → Type 0
IsPlain = All (λ c. (c ≢ lf) × (c ≢ cr))

plain_line : (c : ℕ) (s : Bytes) → IsPlain (c ∷ s) → splitlines (c ∷ s) ≡ (c ∷ s) ∷ []
unfolding splitlines
plain_line c [] h = ground arith
plain_line c (d ∷ s) h = ground (arith, plain_line d s h.1)

terminated_line :
    (b s : Bytes) → IsPlain b → splitlines (b ++ lf ∷ s) ≡ (b ++ lf ∷ []) ∷ splitlines s
unfolding splitlines
terminated_line [] s h = refl
terminated_line (c ∷ b) s h = ground (arith, terminated_line b s h.1)

IsPlain-append : (a b : Bytes) → IsPlain a → IsPlain b → IsPlain (a ++ b)
IsPlain-append [] b _ h = h
IsPlain-append (c ∷ a) b h k = (h.0, IsPlain-append a b h.1 k)

last_or : ℕ → Bytes → ℕ
last_or d [] = d
last_or d (c ∷ s) = last_or c s

last_or-append : (d : ℕ) (s t : Bytes) → last_or d (s ++ t) ≡ last_or (last_or d s) t
unfolding last_or
last_or-append d [] t = refl
last_or-append d (c ∷ s) t = last_or-append c s t

last_or-plain : (d : ℕ) (s : Bytes) → d ≢ lf → IsPlain s → last_or d s ≢ lf
unfolding last_or
last_or-plain d [] h _ = h
last_or-plain d (c ∷ s) _ h = last_or-plain c s h.0.0 h.1

-- One content ends in a line with no break, the other in a break.
unterminated-ne :
    (x : ℕ) (a b : Bytes) → IsPlain (x ∷ a) → b ++ lf ∷ x ∷ a ≢ (x ∷ a) ++ b ++ lf ∷ []
unfolding last_or
unterminated-ne x a b h e = last_or-plain x a h.0.0 h.1 (
    sym (last_or-append 0 b (lf ∷ x ∷ a))
    ∙ ap (last_or 0) e
    ∙ last_or-append 0 ((x ∷ a) ++ b) (lf ∷ []))

sort_two : (l k : Bytes) → bytes_le l k ≡ false → concat (sorted (l ∷ k ∷ [])) ≡ k ++ (l ++ [])
unfolding sorted insert concat
sort_two l k h = rw h

sort_one : (l : Bytes) → concat (sorted (l ∷ [])) ≡ l ++ []
unfolding sorted insert concat
sort_one l = refl

no_lines : splitlines [] ≡ []
unfolding splitlines
no_lines = refl

by_line_equal :
    (x : ℕ) (a b : Bytes)
    → IsPlain (x ∷ a)
    → IsPlain b
    → bytes_le (b ++ lf ∷ []) (x ∷ a) ≡ false
    → concat (sorted (splitlines (b ++ lf ∷ x ∷ a)))
      ≡ concat (sorted (splitlines ((x ∷ a) ++ b ++ lf ∷ [])))
by_line_equal x a b ha hb less =
    rw
      (
        terminated_line b (x ∷ a) hb,
        plain_line x a ha,
        sort_two (b ++ lf ∷ []) (x ∷ a) less,
        terminated_line ((x ∷ a) ++ b) [] (IsPlain-append (x ∷ a) b ha hb),
        no_lines,
        sort_one,
        append-nil,
        append-nil,
      )
      (sym (append_assoc (x ∷ a) b (lf ∷ [])))

module _ (t : TextComparator) (oa ca : ArtifactIdentity) where
  -- Two different contents match under the SORTED ordering: a line b with its break followed by a
  -- line a, not empty and without a break, that sorts before it, and the single line made of a and
  -- b. Neither a nor b contains a line break.
  pub compare-sorted_unterminated :
      (policy : Option FailurePolicy) (x : ℕ) (a b : Bytes)
      → IsPlain (x ∷ a)
      → IsPlain b
      → bytes_le (b ++ lf ∷ []) (x ∷ a) ≡ false
      → let o = b ++ lf ∷ x ∷ a in
        let c = (x ∷ a) ++ b ++ lf ∷ [] in
        (o ≢ c)
        × (r : ComparatorResult) × (compare t oa (some o) ca (some c) [] "SORTED" policy ≡ ok r)
        × (r.result ≡ match)
  compare-sorted_unterminated policy x a b ha hb less =
      let same = by_line_equal x a b ha hb less in
      (
        unterminated-ne x a b ha,
        report t oa ca [] "SORTED" _ _,
        compare-prepared t oa ca policy [] "SORTED" _ _ _ _ (by_lines (b ++ lf ∷ x ∷ a))
            (by_lines ((x ∷ a) ++ b ++ lf ∷ [])),
        (report-match t oa ca [] "SORTED" _ _).0.1 same,
      )
