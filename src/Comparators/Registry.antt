-- ===== src/Comparators/Registry.antt =====
-- `ComparatorRegistry` of engine/comparators/framework.py, and the functions that fill one. A comparator
-- object is its id and type; the dict of the registry is the list of its items, oldest first.
pub mod Laws
use cobol_java_transformatio.Common.{
  String, Bool, true, false, Option, none, some, List, [], ◌∷◌, ◌++◌, Result, ok, err, ◌>>=◌,
  if◌then◌else◌,
}
use cobol_java_transformatio.Comparators.Model.{
  ComparatorId, TypedComparator, ValueError, already_registered,
}
use cobol_java_transformatio.Comparators.Identity.{get?}
use cobol_java_transformatio.Comparators.Text.{
  TextComparator, stdout_comparator, stderr_comparator, text_file_comparator,
}
use cobol_java_transformatio.Comparators.ExitStatus.{exit_status_id}
use cobol_java_transformatio.Comparators.FixedRecord.{fixed_record_id}

abbrev pub ComparatorRegistry : Type 0
ComparatorRegistry = List (String × TypedComparator)

abbrev pub get : ComparatorRegistry → String → Option TypedComparator
get r artifact_type = get? artifact_type r

unfoldable pub is_registered : ComparatorRegistry → String → Bool
is_registered r artifact_type = elim (get r artifact_type) [ none ↦ false | some c ↦ true ]

unfoldable pub register :
    TypedComparator → ComparatorRegistry → Result ValueError ComparatorRegistry
register c r =
    if is_registered r c.artifact_type
    then err (already_registered c.artifact_type)
    else ok (r ++ (c.artifact_type, c) ∷ [])

abbrev pub text_object : TextComparator → TypedComparator
text_object t = record { id = t.id; artifact_type = t.artifact_type }

abbrev pub exit_status_comparator : TypedComparator
exit_status_comparator = record { id = exit_status_id; artifact_type = "EXIT_STATUS" }

abbrev pub fixed_record_comparator : TypedComparator
fixed_record_comparator = record { id = fixed_record_id; artifact_type = "FIXED_RECORD" }

abbrev pub business_invariant_comparator : TypedComparator
business_invariant_comparator = record {
  id = record { comparator_id = "BUSINESS_INVARIANT_COMPARATOR"; version = "1.0.0" };
  artifact_type = "BUSINESS_INVARIANT";
}

unfoldable pub create_default_registry : Result ValueError ComparatorRegistry
create_default_registry = do
  with_stdout ← register (text_object stdout_comparator) []
  with_stderr ← register (text_object stderr_comparator) with_stdout
  with_exit ← register exit_status_comparator with_stderr
  with_text ← register (text_object text_file_comparator) with_exit
  register fixed_record_comparator with_text

unfoldable pub create_verification_registry : Result ValueError ComparatorRegistry
create_verification_registry = do
  registry ← create_default_registry
  register business_invariant_comparator registry

unfoldable pub register_business_invariant_comparator :
    ComparatorRegistry → Result ValueError ComparatorRegistry
register_business_invariant_comparator r =
    if is_registered r "BUSINESS_INVARIANT" then ok r else register business_invariant_comparator r
