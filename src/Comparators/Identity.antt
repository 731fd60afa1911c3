-- ===== src/Comparators/Identity.antt =====
-- The comparator ids of engine/comparators/framework.py: which comparator is registered for an
-- artifact type, and the older names under which workloads declare it.
use cobol_java_transformatio.Common.{
  String, Option, none, some, List, [], ◌∷◌, text_eq, strip, if◌then◌else◌,
}

unfoldable pub get? : {A : Type 0} → String → List (String × A) → Option A
get? k [] = none
get? k ((j, v) ∷ d) = if text_eq k j then some v else get? k d

-- `dict.get(key, default)`
abbrev pub get_or : String → List (String × String) → String → String
get_or k d default = elim (get? k d) [ none ↦ default | some v ↦ v ]

abbrev pub canonical_comparator_ids : List (String × String)
canonical_comparator_ids =
    ("STDOUT", "STDOUT_COMPARATOR")
    ∷ ("STDERR", "STDERR_COMPARATOR")
    ∷ ("EXIT_STATUS", "EXIT_STATUS_COMPARATOR")
    ∷ ("TEXT_FILE", "TEXT_FILE_COMPARATOR")
    ∷ ("FIXED_RECORD", "FIXED_RECORD_COMPARATOR")
    ∷ ("BUSINESS_INVARIANT", "BUSINESS_INVARIANT_COMPARATOR")
    ∷ []

abbrev pub comparator_id_aliases : List (String × String)
comparator_id_aliases =
    ("stdout-exact", "STDOUT_COMPARATOR")
    ∷ ("stderr-exact", "STDERR_COMPARATOR")
    ∷ ("exit-status-exact", "EXIT_STATUS_COMPARATOR")
    ∷ ("text-file-exact", "TEXT_FILE_COMPARATOR")
    ∷ ("fixed-record-exact", "FIXED_RECORD_COMPARATOR")
    ∷ ("business-invariant-exact", "BUSINESS_INVARIANT_COMPARATOR")
    ∷ []

unfoldable pub resolve_comparator_id : String → String
resolve_comparator_id declared_id =
    get_or (strip declared_id) comparator_id_aliases (strip declared_id)
