-- ===== src/Verdict/Analysis.antt =====
-- The private methods of `VerdictDeriver` (engine/verdict/derivation.py) that read the evidence, and
-- the loop of `derive` over the comparisons.
use cobol_java_transformatio.Common.{
  String, Bool, true, false, not, ◌&&◌, ◌||◌, Option, none, some, List, [], ◌∷◌, ◌++◌, map, text_eq,
  has_prefix, elem, any, filter, is_empty, strip, if◌then◌else◌,
}
use cobol_java_transformatio.Domain.{
  VerdictState, verified, partial, failed, unavailable, unsupported, error, OracleIdentity,
  EnvironmentIdentity,
}
use cobol_java_transformatio.Evidence.Model.{
  ExecutionEvidence, ArtifactEvidence, ComparisonEvidence, EvidenceManifest, is_oracle,
  is_candidate,
}
use cobol_java_transformatio.Verdict.Model.{
  Difference, infrastructure_unavailable, oracle_compile_failure, recorded, unknown_result, Scope,
  validation_scope,
}

unfoldable pub candidate_lane : List EnvironmentIdentity → Option String
candidate_lane [] = none
candidate_lane (e ∷ es) =
    let rest = candidate_lane es in
    elim e.os_base [
      | none ↦ rest
      | some b ↦ if has_prefix e.runtime_id "candidate" && not (text_eq b "") then some b else rest
    ]

abbrev pub compiler_text : String → String
compiler_text v = if text_eq v "" then "(unrecorded)" else v

unfoldable pub scope_for : OracleIdentity → EvidenceManifest → Scope
scope_for o m =
    validation_scope (compiler_text o.compiler_version) (candidate_lane m.environment_identities)

unfoldable pub check_for_errors : List ExecutionEvidence → Option VerdictState
check_for_errors [] = none
check_for_errors (e ∷ es) =
    let rest = check_for_errors es in
    if text_eq e.termination_status "error"
    then some error
    else if e.timeout_applied
    then some error
    else rest

abbrev pub status_in : List String → ExecutionEvidence → Bool
status_in statuses e = elem e.termination_status statuses

unfoldable pub check_for_unavailable : EvidenceManifest → Option VerdictState
check_for_unavailable m =
    let oracle_executions = filter is_oracle m.execution_evidence in
    let candidate_executions = filter is_candidate m.execution_evidence in
    if is_empty oracle_executions
    then some unavailable
    else if any (status_in ("error" ∷ "timeout" ∷ "nonzero_exit" ∷ [])) oracle_executions
    then some unavailable
    else if is_empty candidate_executions
    then some unavailable
    else if any (status_in ("error" ∷ "timeout" ∷ [])) candidate_executions
    then some unavailable
    else none

-- `dict.get(key, "")` on a dict that may be None
unfoldable pub get_or_empty : String → List (String × String) → String
get_or_empty k [] = ""
get_or_empty k ((j, v) ∷ d) = if text_eq k j then v else get_or_empty k d

abbrev pub items_of : Option (List (String × String)) → List (String × String)
items_of none = []
items_of (some d) = d

abbrev pub exit_status : ExecutionEvidence → String
exit_status e = strip (get_or_empty "exit_code" (items_of e.compilation_diagnostics))

unfoldable pub unavailable_reason : List ExecutionEvidence → Difference
unavailable_reason [] = infrastructure_unavailable
unavailable_reason (e ∷ es) =
    let rest = unavailable_reason es in
    if not (is_oracle e)
    then rest
    else if not (text_eq (exit_status e) "") && not (text_eq (exit_status e) "0")
    then oracle_compile_failure (exit_status e)
    else rest

abbrev pub supported_types : List String
supported_types =
    "STDOUT" ∷ "STDERR" ∷ "EXIT_STATUS" ∷ "TEXT_FILE" ∷ "FIXED_RECORD" ∷ "BUSINESS_INVARIANT" ∷ []

unfoldable pub check_for_unsupported : List ArtifactEvidence → Option VerdictState
check_for_unsupported [] = none
check_for_unsupported (a ∷ as') =
    if not (elem a.artifact.artifact_type supported_types)
    then some unsupported
    else check_for_unsupported as'

abbrev pub counts_unavailable : ExecutionEvidence → Bool
counts_unavailable e =
    status_in ("error" ∷ "timeout" ∷ []) e
    || is_oracle e && text_eq e.termination_status "nonzero_exit"

-- The four variables of the loop over the comparisons.
pub record Tally : Type 0 where
  pub differences : List Difference
  pub has_mismatch : Bool
  pub has_inconclusive : Bool
  pub has_unknown : Bool

unfoldable pub tally : Tally → ComparisonEvidence → Tally
tally t c =
    if text_eq c.result "MISMATCH"
    then record t { has_mismatch = true; differences = t.differences ++ map recorded c.differences }
    else if text_eq c.result "INCONCLUSIVE"
    then record t { has_inconclusive = true }
    else if not (text_eq c.result "MATCH")
    then record t {
      has_unknown = true;
      differences = t.differences ++ unknown_result c.result c.comparison_id ∷ [];
    }
    else t

unfoldable pub analyze : Tally → List ComparisonEvidence → Tally
analyze t [] = t
analyze t (c ∷ cs) = analyze (tally t c) cs

abbrev pub no_findings : Tally
no_findings = record {
  differences = [];
  has_mismatch = false;
  has_inconclusive = false;
  has_unknown = false;
}

unfoldable pub final_state : Tally → VerdictState
final_state t =
    if t.has_unknown
    then error
    else if t.has_mismatch
    then failed
    else if t.has_inconclusive
    then partial
    else verified
