-- ===== src/Comparators/ExitStatus/Exact.antt =====
-- What the exit-status comparison reports, and which numbers it reads.
use mathlib.Core.Option.{some-injective}
use cobol_java_transformatio.Common.{
  Bool-cases, ℕ, ◌+◌, ◌≤◌, ◌<◌, ◌≡◌, ◌≢◌, ◌↔◌, ◌⊎◌, inl, inr, refl, sym, ◌∙◌, true, false, Option,
  none, some, List, [], ◌∷◌, ◌++◌, length, arith, map, All, ok,
}
use cobol_java_transformatio.Common.Int.{ℤ, pos, neg_ℕ, eq_ℤ, eq_ℤ_iff}
use cobol_java_transformatio.Common.Bytes.{Bytes}
use cobol_java_transformatio.Domain.{ArtifactIdentity}
use cobol_java_transformatio.Comparators.Model.{
  match, mismatch, inconclusive, ComparatorResult, FailurePolicy,
}
use cobol_java_transformatio.Comparators.Policy.{handle_missing}
use cobol_java_transformatio.Comparators.ExitStatus.Parse.{
  int_of_bytes, signed, lstrip, rstrip, digits_of, value, magnitude, max_str_digits, with_sign,
}
use cobol_java_transformatio.Comparators.ExitStatus.{compare_exits, compare}

-- Both contents read as numbers that stand in a relation.
abbrev pub Both : Bytes → Bytes → (ℤ → ℤ → Type 0) → Type 0
Both o c R = (i : ℤ) × (j : ℤ) × (int_of_bytes o ≡ some i) × (int_of_bytes c ≡ some j) × R i j

compare_exits-result :
    (oracle candidate : ArtifactIdentity) (o c : Bytes) (a b : Option ℤ)
    → (((compare_exits oracle candidate o c a b).result ≡ match)
        ↔ ((i : ℤ) × (j : ℤ) × (a ≡ some i) × (b ≡ some j) × (i ≡ j)))
      × (((compare_exits oracle candidate o c a b).result ≡ mismatch)
          ↔ ((i : ℤ) × (j : ℤ) × (a ≡ some i) × (b ≡ some j) × (i ≢ j)))
      × (((compare_exits oracle candidate o c a b).result ≡ inconclusive)
          ↔ ((a ≡ none) ⊎ (b ≡ none)))
unfolding compare_exits
compare_exits-result oracle candidate o c none b = (
  (λ h. cc, λ (i, j, e, f, q). cc e),
  (λ h. cc, λ (i, j, e, f, q). cc e),
  (λ _. inl refl, λ _. refl),
)
compare_exits-result oracle candidate o c (some i) none = (
  (λ h. cc, λ (x, j, e, f, q). cc f),
  (λ h. cc, λ (x, j, e, f, q). cc f),
  (λ _. inr refl, λ _. refl),
)
compare_exits-result oracle candidate o c (some i) (some j) = elim (Bool-cases (eq_ℤ i j)) [
  | inl e ↦
      let same = (eq_ℤ_iff i j).0 e in
      rw e (
        (λ _. (i, j, refl, refl, same), λ _. refl),
        (
          λ h. cc,
          λ (x, y, a, b, n). absurd (n (sym (some-injective _ _ a) ∙ same ∙ some-injective _ _ b)),
        ),
        (λ h. cc, elim [ inl a ↦ cc a | inr b ↦ cc b ]),
      )
  | inr e ↦
      let differ : i ≢ j = λ q. cc (e, (eq_ℤ_iff i j).1 q) in
      rw e (
        (
          λ h. cc,
          λ (x, y, a, b, q).
              absurd (differ (some-injective _ _ a ∙ q ∙ sym (some-injective _ _ b))),
        ),
        (λ _. (i, j, refl, refl, differ), λ _. refl),
        (λ h. cc, elim [ inl a ↦ cc a | inr b ↦ cc b ]),
      )
]

-- Exit-status comparison of two contents that are there never fails: it is a match exactly where
-- both read as the same integer, a mismatch exactly where both read as integers that differ, and
-- inconclusive exactly where one of them is no integer.
pub compare-exit_status :
    (oracle candidate : ArtifactIdentity) (o c : Bytes) (policy : Option FailurePolicy)
    → (r : ComparatorResult) × (compare oracle (some o) candidate (some c) policy ≡ ok r)
      × ((r.result ≡ match) ↔ Both o c (λ i j. i ≡ j))
      × ((r.result ≡ mismatch) ↔ Both o c (λ i j. i ≢ j))
      × ((r.result ≡ inconclusive) ↔ ((int_of_bytes o ≡ none) ⊎ (int_of_bytes c ≡ none)))
unfolding compare handle_missing
compare-exit_status oracle candidate o c policy =
    let (same, differ, unread) =
      compare_exits-result oracle candidate o c (int_of_bytes o) (int_of_bytes c) in
    (
      compare_exits oracle candidate o c (int_of_bytes o) (int_of_bytes c),
      refl,
      same,
      differ,
      unread,
    )

-- The text of decimal digits.
abbrev pub ascii : List ℕ → Bytes
ascii = map (λ d. d + 48)

abbrev pub IsDecimal : List ℕ → Type 0
IsDecimal = All (λ d. d < 10)

digits_of-ascii : (ds : List ℕ) → IsDecimal ds → digits_of true (ascii ds) ≡ some ds
unfolding digits_of
digits_of-ascii [] h = refl
digits_of-ascii (d ∷ ds) h = ground (arith, digits_of-ascii ds h.1, h.0)

rstrip-ascii : (ds : List ℕ) → IsDecimal ds → rstrip (ascii ds) ≡ ascii ds
unfolding rstrip
rstrip-ascii [] h = refl
rstrip-ascii (d ∷ ds) h = ground (arith, rstrip-ascii ds h.1, h.0)

digits_of-start :
    (d : ℕ) (ds : List ℕ) → IsDecimal (d ∷ ds) → digits_of false (ascii (d ∷ ds)) ≡ some (d ∷ ds)
unfolding digits_of
digits_of-start d ds h = ground (arith, digits_of-ascii ds h.1, h.0)

magnitude-ascii :
    (d : ℕ) (ds : List ℕ)
    → IsDecimal (d ∷ ds)
    → length (d ∷ ds) ≤ max_str_digits
    → magnitude (ascii (d ∷ ds)) ≡ some (value 0 (d ∷ ds))
magnitude-ascii d ds h k = let read = digits_of-start d ds h in ground (arith, read, k)

rstrip-line : (ds : List ℕ) → IsDecimal ds → rstrip (ascii ds ++ 10 ∷ []) ≡ ascii ds
unfolding rstrip
rstrip-line [] h = refl
rstrip-line (d ∷ ds) h = ground (arith, rstrip-line ds h.1, h.0)

lstrip-digit : (d : ℕ) (s : Bytes) → d < 10 → lstrip ((d + 48) ∷ s) ≡ (d + 48) ∷ s
unfolding lstrip
lstrip-digit d s h = ground arith

signed-digit :
    (d : ℕ) (s : Bytes) → d < 10 → signed ((d + 48) ∷ s) ≡ with_sign pos (magnitude ((d + 48) ∷ s))
unfolding signed
signed-digit d s h = ground arith

lstrip-minus : (s : Bytes) → lstrip (45 ∷ s) ≡ 45 ∷ s
unfolding lstrip
lstrip-minus s = refl

rstrip-minus :
    (d : ℕ) (ds : List ℕ) → IsDecimal (d ∷ ds) → rstrip (45 ∷ ascii (d ∷ ds)) ≡ 45 ∷ ascii (d ∷ ds)
unfolding rstrip
rstrip-minus d ds h = ground (arith, rstrip-ascii (d ∷ ds) h)

signed-minus : (s : Bytes) → signed (45 ∷ s) ≡ with_sign neg_ℕ (magnitude s)
unfolding signed
signed-minus s = refl

-- What a program prints for its status is read as the number that it stands for: at least one and at
-- most 4300 decimal digits, as they are, behind a minus sign, or in front of a line break.
pub int_of_bytes-ascii :
    (d : ℕ) (ds : List ℕ)
    → IsDecimal (d ∷ ds)
    → length (d ∷ ds) ≤ max_str_digits
    → (int_of_bytes (ascii (d ∷ ds)) ≡ some (pos (value 0 (d ∷ ds))))
      × (int_of_bytes (45 ∷ ascii (d ∷ ds)) ≡ some (neg_ℕ (value 0 (d ∷ ds))))
      × (int_of_bytes (ascii (d ∷ ds) ++ 10 ∷ []) ≡ some (pos (value 0 (d ∷ ds))))
unfolding int_of_bytes
int_of_bytes-ascii d ds h k =
    let number = magnitude-ascii d ds h k in
    (
      rw
          (
            lstrip-digit d (ascii ds) h.0,
            rstrip-ascii (d ∷ ds) h,
            signed-digit d (ascii ds) h.0,
            number,
          )
          refl,
      rw (lstrip-minus (ascii (d ∷ ds)), rstrip-minus d ds h, signed-minus (ascii (d ∷ ds)), number)
          refl,
      rw
          (
            lstrip-digit d (ascii ds ++ 10 ∷ []) h.0,
            rstrip-line (d ∷ ds) h,
            signed-digit d (ascii ds) h.0,
            number,
          )
          refl,
    )
