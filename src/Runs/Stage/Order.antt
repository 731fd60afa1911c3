-- ===== src/Runs/Stage/Order.antt =====
-- Which transitions the state machine of api/store.py permits.
use cobol_java_transformatio.Common.{
  ℕ, zero, suc, ◌≤◌, ◌<◌, ◌≡◌, refl, sym, ◌∙◌, ap, ◌↔◌, ◌⊎◌, inl, inr, true, false, some, List, [],
  ◌∷◌, arith, Bool-cases, ==_iff, ◌==◌,
}
use cobol_java_transformatio.Runs.Stage.{
  RunStage, created, ingesting, discovering, discovery_completed, analyzing, analysis_completed,
  planning, plan_completed, transforming, generating, assembling, assembly_completed, building,
  executing_oracle, executing_generated, comparing, validating_evidence, completed, failed,
  position, stage_eq, stage_index, index_from, is_terminal, forward, is_valid_transition,
}

-- How far a run is: the pipeline's stages in the order in which they run, with both ends last.
unfoldable pub rank : RunStage → ℕ
rank created = 0
rank ingesting = 1
rank discovering = 2
rank discovery_completed = 3
rank analyzing = 4
rank analysis_completed = 5
rank planning = 6
rank plan_completed = 7
rank transforming = 8
rank generating = 9
rank assembling = 10
rank assembly_completed = 11
rank building = 13
rank executing_oracle = 12
rank executing_generated = 14
rank comparing = 15
rank validating_evidence = 16
rank completed = 17
rank failed = 17

members : List RunStage
members =
    created ∷ ingesting ∷ discovering ∷ discovery_completed ∷ analyzing ∷ analysis_completed
    ∷ planning ∷ plan_completed ∷ transforming ∷ generating ∷ assembling ∷ assembly_completed
    ∷ building ∷ executing_oracle ∷ executing_generated ∷ comparing ∷ validating_evidence
    ∷ completed ∷ failed ∷ []

nth : List RunStage → ℕ → RunStage
nth [] n = failed
nth (s ∷ stages) zero = s
nth (s ∷ stages) (suc n) = nth stages n

nth-position : (s : RunStage) → nth members (position s) ≡ s
unfolding nth members position
nth-position created = refl
nth-position ingesting = refl
nth-position discovering = refl
nth-position discovery_completed = refl
nth-position analyzing = refl
nth-position analysis_completed = refl
nth-position planning = refl
nth-position plan_completed = refl
nth-position transforming = refl
nth-position generating = refl
nth-position assembling = refl
nth-position assembly_completed = refl
nth-position building = refl
nth-position executing_oracle = refl
nth-position executing_generated = refl
nth-position comparing = refl
nth-position validating_evidence = refl
nth-position completed = refl
nth-position failed = refl

pub stage_eq_iff : (s t : RunStage) → (stage_eq s t ≡ true) ↔ (s ≡ t)
unfolding stage_eq
stage_eq_iff s t = (
  λ e.
      sym (nth-position s)
      ∙ ap (nth members) ((==_iff (position s) (position t)).0 e)
      ∙ nth-position t,
  λ e. (==_iff (position s) (position t)).1 (ap position e),
)

-- Both descriptions of the order agree, where the code has a place.
pub is_terminal-rank : (s : RunStage) → is_terminal s ≡ (rank s == 17)
unfolding is_terminal stage_eq position rank
is_terminal-rank created = refl
is_terminal-rank ingesting = refl
is_terminal-rank discovering = refl
is_terminal-rank discovery_completed = refl
is_terminal-rank analyzing = refl
is_terminal-rank analysis_completed = refl
is_terminal-rank planning = refl
is_terminal-rank plan_completed = refl
is_terminal-rank transforming = refl
is_terminal-rank generating = refl
is_terminal-rank assembling = refl
is_terminal-rank assembly_completed = refl
is_terminal-rank building = refl
is_terminal-rank executing_oracle = refl
is_terminal-rank executing_generated = refl
is_terminal-rank comparing = refl
is_terminal-rank validating_evidence = refl
is_terminal-rank completed = refl
is_terminal-rank failed = refl

pub rank-le : (s : RunStage) → rank s ≤ 17
unfolding rank
rank-le created = omega arith
rank-le ingesting = omega arith
rank-le discovering = omega arith
rank-le discovery_completed = omega arith
rank-le analyzing = omega arith
rank-le analysis_completed = omega arith
rank-le planning = omega arith
rank-le plan_completed = omega arith
rank-le transforming = omega arith
rank-le generating = omega arith
rank-le assembling = omega arith
rank-le assembly_completed = omega arith
rank-le building = omega arith
rank-le executing_oracle = omega arith
rank-le executing_generated = omega arith
rank-le comparing = omega arith
rank-le validating_evidence = omega arith
rank-le completed = omega arith
rank-le failed = omega arith

by_rank : List RunStage
by_rank =
    created ∷ ingesting ∷ discovering ∷ discovery_completed ∷ analyzing ∷ analysis_completed
    ∷ planning ∷ plan_completed ∷ transforming ∷ generating ∷ assembling ∷ assembly_completed
    ∷ executing_oracle ∷ building ∷ executing_generated ∷ comparing ∷ validating_evidence
    ∷ completed ∷ []

nth-rank : (s : RunStage) → is_terminal s ≡ false → nth by_rank (rank s) ≡ s
unfolding nth by_rank rank is_terminal stage_eq position
nth-rank created h = refl
nth-rank ingesting h = refl
nth-rank discovering h = refl
nth-rank discovery_completed h = refl
nth-rank analyzing h = refl
nth-rank analysis_completed h = refl
nth-rank planning h = refl
nth-rank plan_completed h = refl
nth-rank transforming h = refl
nth-rank generating h = refl
nth-rank assembling h = refl
nth-rank assembly_completed h = refl
nth-rank building h = refl
nth-rank executing_oracle h = refl
nth-rank executing_generated h = refl
nth-rank comparing h = refl
nth-rank validating_evidence h = refl
nth-rank completed h = cc
nth-rank failed h = cc

stage_index-rank : (s : RunStage) → is_terminal s ≡ false → stage_index s ≡ some (rank s)
unfolding stage_index index_from stage_eq position rank is_terminal
stage_index-rank created h = refl
stage_index-rank ingesting h = refl
stage_index-rank discovering h = refl
stage_index-rank discovery_completed h = refl
stage_index-rank analyzing h = refl
stage_index-rank analysis_completed h = refl
stage_index-rank planning h = refl
stage_index-rank plan_completed h = refl
stage_index-rank transforming h = refl
stage_index-rank generating h = refl
stage_index-rank assembling h = refl
stage_index-rank assembly_completed h = refl
stage_index-rank building h = refl
stage_index-rank executing_oracle h = refl
stage_index-rank executing_generated h = refl
stage_index-rank comparing h = refl
stage_index-rank validating_evidence h = refl
stage_index-rank completed h = cc
stage_index-rank failed h = cc

rank_injective :
    (s t : RunStage) → is_terminal s ≡ false → is_terminal t ≡ false → rank s ≡ rank t → s ≡ t
rank_injective s t p q e = sym (nth-rank s p) ∙ ap (nth by_rank) e ∙ nth-rank t q

ends : (s : RunStage) → is_terminal s ≡ true → (s ≡ completed) ⊎ (s ≡ failed)
unfolding is_terminal
ends s h = elim (Bool-cases (stage_eq s completed)) [
  | inl e ↦ inl ((stage_eq_iff s completed).0 e)
  | inr e ↦ inr ((stage_eq_iff s failed).0 (rw e at h))
]

pub running_rank : (s : RunStage) → is_terminal s ≡ false → rank s < 17
running_rank s h = ground (arith, is_terminal-rank s, rank-le s)

terminal_rank : (s : RunStage) → is_terminal s ≡ true → rank s ≡ 17
terminal_rank s h = ground (arith, is_terminal-rank s)

-- A move between two different stages that are not the end.
permitted :
    (s t : RunStage)
    → stage_eq s t ≡ false
    → is_terminal s ≡ false
    → is_terminal t ≡ false
    → (forward (stage_index s) (stage_index t) ≡ true) ↔ (rank s < rank t)
unfolding forward
permitted s t d p q = rw (stage_index-rank s p) (
    rw (stage_index-rank t q)
      (λ h. ground (arith, stage_eq_iff s t, rank_injective s t p q), λ h. ground arith))

running_target :
    (t : RunStage)
    → stage_eq t failed ≡ false
    → stage_eq t completed ≡ false
    → is_terminal t ≡ false
unfolding is_terminal
running_target t a b = rw a (rw b refl)

terminal_target :
    (t : RunStage)
    → (stage_eq t failed ≡ true) ⊎ (stage_eq t completed ≡ true)
    → is_terminal t ≡ true
unfolding is_terminal
terminal_target t (inl e) = ground arith
terminal_target t (inr e) = rw e refl

moves :
    (s t : RunStage) → stage_eq s t ≡ false → (is_valid_transition s t ≡ true) ↔ (rank s < rank t)
unfolding is_valid_transition
moves s t d = rw d (elim (Bool-cases (is_terminal s)) [
  | inl p ↦ rw p (λ h. cc, λ h. absurd (omega (arith, terminal_rank s p, rank-le t)))
  | inr p ↦ elim (Bool-cases (stage_eq t failed)) [
    | inl f ↦
        let low = running_rank s p in
        let top = terminal_rank t (terminal_target t (inl f)) in
        rw p (rw f (λ h. omega arith, λ h. refl))
    | inr f ↦ elim (Bool-cases (stage_eq t completed)) [
      | inl c ↦
          let low = running_rank s p in
          let top = terminal_rank t (terminal_target t (inr c)) in
          rw p (rw f (rw c (λ h. omega arith, λ h. refl)))
      | inr c ↦ rw p (rw f (rw c (permitted s t d p (running_target t f c))))
    ]
  ]
])

-- `is_valid_transition` permits a move exactly where the stage stays the same or the run gets
-- further in the pipeline's order, where COMPLETED and FAILED both come after every other stage
-- and neither comes after the other.
pub is_valid_transition-rank :
    (s t : RunStage) → (is_valid_transition s t ≡ true) ↔ ((s ≡ t) ⊎ (rank s < rank t))
unfolding is_valid_transition
is_valid_transition-rank s t = elim (Bool-cases (stage_eq s t)) [
  | inl e ↦ (λ h. inl ((stage_eq_iff s t).0 e), λ h. rw e refl)
  | inr d ↦ (
    λ h. inr ((moves s t d).0 h),
    elim [ inl e ↦ cc (d, (stage_eq_iff s t).1 e) | inr l ↦ (moves s t d).1 l ],
  )
]
