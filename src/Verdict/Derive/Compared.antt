-- ===== src/Verdict/Derive/Compared.antt =====
-- The loop of `derive` over the comparisons, against the results that it reads.
use cobol_java_transformatio.Common.{
  String, ◌≡◌, ◌≢◌, ◌↔◌, refl, Bool, true, false, not, ◌&&◌, ◌||◌, List, [], ◌∷◌, arith, text_eq,
  text_eq_iff, any, All, Any, Elem,
}
use cobol_java_transformatio.Domain.{verified, failed, partial}
use cobol_java_transformatio.Evidence.Model.{ComparisonEvidence}
use cobol_java_transformatio.Verdict.Analysis.{Tally, tally, analyze, final_state, no_findings}

-- The three results that the evidence model knows.
abbrev pub known_results : List String
known_results = "MATCH" ∷ "MISMATCH" ∷ "INCONCLUSIVE" ∷ []

abbrev pub IsMatch : ComparisonEvidence → Type 0
IsMatch c = c.result ≡ "MATCH"

abbrev pub IsMismatch : ComparisonEvidence → Type 0
IsMismatch c = c.result ≡ "MISMATCH"

abbrev pub IsInconclusive : ComparisonEvidence → Type 0
IsInconclusive c = c.result ≡ "INCONCLUSIVE"

abbrev pub IsKnown : ComparisonEvidence → Type 0
IsKnown c = Elem c.result known_results

abbrev reads_mismatch : ComparisonEvidence → Bool
reads_mismatch c = text_eq c.result "MISMATCH"

abbrev reads_inconclusive : ComparisonEvidence → Bool
reads_inconclusive c = not (reads_mismatch c) && text_eq c.result "INCONCLUSIVE"

abbrev reads_unknown : ComparisonEvidence → Bool
reads_unknown c =
    not (reads_mismatch c)
    && not (text_eq c.result "INCONCLUSIVE")
    && not (text_eq c.result "MATCH")

unknown_flag :
    (t : Tally) (cs : List ComparisonEvidence)
    → (analyze t cs).has_unknown ≡ (t.has_unknown || any reads_unknown cs)
unfolding analyze tally
unknown_flag t [] = ground arith
unknown_flag t (c ∷ cs) = ground (arith, unknown_flag (tally t c) cs)

mismatch_flag :
    (t : Tally) (cs : List ComparisonEvidence)
    → (analyze t cs).has_mismatch ≡ (t.has_mismatch || any reads_mismatch cs)
unfolding analyze tally
mismatch_flag t [] = ground arith
mismatch_flag t (c ∷ cs) = ground (arith, mismatch_flag (tally t c) cs)

inconclusive_flag :
    (t : Tally) (cs : List ComparisonEvidence)
    → (analyze t cs).has_inconclusive ≡ (t.has_inconclusive || any reads_inconclusive cs)
unfolding analyze tally
inconclusive_flag t [] = ground arith
inconclusive_flag t (c ∷ cs) = ground (arith, inconclusive_flag (tally t c) cs)

-- The literals differ, so a result reads as one of them at most.
literal_facts :
    (text_eq "MATCH" "MISMATCH" ≡ false)
    × (text_eq "MATCH" "INCONCLUSIVE" ≡ false)
    × (text_eq "INCONCLUSIVE" "MISMATCH" ≡ false)
unfolding text_eq
literal_facts = (refl, refl, refl)

literal_differ : (◌≢◌ {A = String} "MATCH" "MISMATCH") × (◌≢◌ {A = String} "MATCH" "INCONCLUSIVE")
literal_differ = (
  λ e. cc (literal_facts.0, (text_eq_iff "MATCH" "MISMATCH").1 e),
  λ e. cc (literal_facts.1, (text_eq_iff "MATCH" "INCONCLUSIVE").1 e),
)

reads_mismatch_iff :
    (cs : List ComparisonEvidence) → (any reads_mismatch cs ≡ true) ↔ Any IsMismatch cs
reads_mismatch_iff [] = (λ h. cc, λ h. absurd h)
reads_mismatch_iff (c ∷ cs) = ground (arith, reads_mismatch_iff cs, text_eq_iff c.result "MISMATCH")

reads_inconclusive_iff :
    (cs : List ComparisonEvidence) → (any reads_inconclusive cs ≡ true) ↔ Any IsInconclusive cs
reads_inconclusive_iff [] = (λ h. cc, λ h. absurd h)
reads_inconclusive_iff (c ∷ cs) = ground (
  arith,
  reads_inconclusive_iff cs,
  text_eq_iff c.result "MISMATCH",
  text_eq_iff c.result "INCONCLUSIVE",
  literal_facts,
)

reads_unknown_iff : (cs : List ComparisonEvidence) → (any reads_unknown cs ≡ false) ↔ All IsKnown cs
reads_unknown_iff [] = (λ _. tt, λ _. refl)
reads_unknown_iff (c ∷ cs) = ground (
  arith,
  reads_unknown_iff cs,
  text_eq_iff c.result "MISMATCH",
  text_eq_iff c.result "INCONCLUSIVE",
  text_eq_iff c.result "MATCH",
)

-- All results match, in the words of the two flags that can hide a difference.
All-IsMatch_iff :
    (cs : List ComparisonEvidence)
    → All IsMatch cs ↔ (All IsKnown cs × (¬ Any IsMismatch cs) × (¬ Any IsInconclusive cs))
All-IsMatch_iff [] = (λ _. (tt, λ h. h, λ h. h), λ _. tt)
All-IsMatch_iff (c ∷ cs) = ground (arith, All-IsMatch_iff cs, literal_differ)

pub final_state-verified :
    (cs : List ComparisonEvidence)
    → (final_state (analyze no_findings cs) ≡ verified) ↔ All IsMatch cs
unfolding final_state
final_state-verified cs = ground (
  arith,
  unknown_flag no_findings cs,
  mismatch_flag no_findings cs,
  inconclusive_flag no_findings cs,
  reads_unknown_iff cs,
  reads_mismatch_iff cs,
  reads_inconclusive_iff cs,
  All-IsMatch_iff cs,
)

pub final_state-failed :
    (cs : List ComparisonEvidence)
    → (final_state (analyze no_findings cs) ≡ failed) ↔ (All IsKnown cs × Any IsMismatch cs)
unfolding final_state
final_state-failed cs = ground (
  arith,
  unknown_flag no_findings cs,
  mismatch_flag no_findings cs,
  inconclusive_flag no_findings cs,
  reads_unknown_iff cs,
  reads_mismatch_iff cs,
)

pub final_state-partial :
    (cs : List ComparisonEvidence)
    → (final_state (analyze no_findings cs) ≡ partial)
      ↔ (All IsKnown cs × (¬ Any IsMismatch cs) × Any IsInconclusive cs)
unfolding final_state
final_state-partial cs = ground (
  arith,
  unknown_flag no_findings cs,
  mismatch_flag no_findings cs,
  inconclusive_flag no_findings cs,
  reads_unknown_iff cs,
  reads_mismatch_iff cs,
  reads_inconclusive_iff cs,
)
