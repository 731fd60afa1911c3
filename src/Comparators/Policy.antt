-- ===== src/Comparators/Policy.antt =====
-- `TypedComparator` of engine/comparators/framework.py: missing artifacts, line order and
-- normalization, which the comparators share.
pub mod Lines
use cobol_java_transformatio.Common.{
  ℕ, String, Bool, true, false, ◌&&◌, Option, none, some, List, [], ◌∷◌, ◌++◌, text_eq, elem,
  Result, ok, err, ◌==◌, if◌then◌else◌, ◌>>=◌,
}
use cobol_java_transformatio.Common.Bytes.{Bytes, bytes_le}
use cobol_java_transformatio.Domain.{ArtifactIdentity}
use cobol_java_transformatio.Comparators.Model.{
  ComparisonResult, match, mismatch, inconclusive, place, Printed, text, note, ComparatorId,
  ComparatorResult, ValueError, unsupported_ordering, unsupported_normalization, FailurePolicy,
}

abbrev pub missing_policy : Option FailurePolicy → String
missing_policy none = "UNAVAILABLE"
missing_policy (some p) = p.on_missing

abbrev pub presence : Option Bytes → Printed
presence none = text "MISSING"
presence (some b) = text "PRESENT"

abbrev pub missing_note : Option Bytes → Option Bytes → String
missing_note none none = "Both declared artifacts are missing/unavailable"
missing_note none (some b) = "Oracle declared artifact is missing/unavailable"
missing_note (some b) c = "Candidate declared artifact is missing/unavailable"

abbrev pub missing_result :
    ComparatorId
    → ArtifactIdentity
    → ArtifactIdentity
    → Option Bytes
    → Option Bytes
    → Option FailurePolicy
    → ComparatorResult
missing_result id oracle candidate o c policy = record {
  comparator_id = id;
  oracle_artifact = oracle;
  candidate_artifact = candidate;
  result = if text_eq (missing_policy policy) "UNAVAILABLE" then inconclusive else mismatch;
  differences =
      record {
        location = place "artifact";
        expected = presence o;
        actual = presence c;
        description = note (missing_note o c);
      }
      ∷ [];
  normalization_applied = [];
  ordering_applied = "SEQUENTIAL";
  failure_policy = missing_policy policy;
}

-- `_handle_missing`, and the rest of `compare` for the contents that are there.
unfoldable pub handle_missing :
    ComparatorId
    → ArtifactIdentity
    → ArtifactIdentity
    → Option Bytes
    → Option Bytes
    → Option FailurePolicy
    → (Bytes → Bytes → Result ValueError ComparatorResult)
    → Result ValueError ComparatorResult
handle_missing id oracle candidate (some o) (some c) policy compare = compare o c
handle_missing id oracle candidate none c policy compare =
    ok (missing_result id oracle candidate none c policy)
handle_missing id oracle candidate (some o) none policy compare =
    ok (missing_result id oracle candidate (some o) none policy)

abbrev pub lf : ℕ
lf = 10

abbrev pub cr : ℕ
cr = 13

abbrev pub starts_with_lf : Bytes → Bool
starts_with_lf [] = false
starts_with_lf (c ∷ s) = c == lf

-- A byte in front of the first line.
abbrev pub onto_first : ℕ → List Bytes → List Bytes
onto_first c [] = (c ∷ []) ∷ []
onto_first c (l ∷ ls) = (c ∷ l) ∷ ls

-- `content.splitlines(keepends=True)`: lines end in LF, CR or CR LF.
unfoldable pub splitlines : Bytes → List Bytes
splitlines [] = []
splitlines (c ∷ s) =
    let rest = splitlines s in
    if c == lf
    then (c ∷ []) ∷ rest
    else if c == cr
    then if starts_with_lf s then onto_first c rest else (c ∷ []) ∷ rest
    else onto_first c rest

unfoldable pub insert : Bytes → List Bytes → List Bytes
insert l [] = l ∷ []
insert l (k ∷ ks) = if bytes_le l k then l ∷ k ∷ ks else k ∷ insert l ks

-- `sorted` on byte strings
unfoldable pub sorted : List Bytes → List Bytes
sorted [] = []
sorted (l ∷ ls) = insert l (sorted ls)

unfoldable pub concat : List Bytes → Bytes
concat [] = []
concat (l ∷ ls) = l ++ concat ls

unfoldable pub apply_ordering : Bytes → String → Result ValueError Bytes
apply_ordering content ordering =
    if text_eq ordering "SEQUENTIAL"
    then ok content
    else if elem ordering ("SORTED" ∷ "UNORDERED" ∷ [])
    then ok (concat (sorted (splitlines content)))
    else err (unsupported_ordering ordering)

-- `content.replace(b"\r\n", b"\n")`: each CR in front of an LF goes.
unfoldable pub crlf_to_lf : Bytes → Bytes
crlf_to_lf [] = []
crlf_to_lf (c ∷ s) =
    let rest = crlf_to_lf s in if c == cr && starts_with_lf s then rest else c ∷ rest

unfoldable pub normalize : Bytes → List String → Result ValueError Bytes
normalize content [] = ok content
normalize content (norm ∷ norms) =
    let rest = normalize (crlf_to_lf content) norms in
    if text_eq norm "crlf_to_lf" then rest else err (unsupported_normalization norm)
