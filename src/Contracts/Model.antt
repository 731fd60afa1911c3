-- ===== src/Contracts/Model.antt =====
-- engine/contracts/models.py: the contracts, with the checks of their parts at construction.
use cobol_java_transformatio.Common.{
  ℕ, String, Bool, true, false, not, ◌&&◌, ◌||◌, Option, none, some, List, [], ◌∷◌, ◌++◌, any, elem,
  text_eq, has_prefix, if◌then◌else◌, report_if, Result, ok, ◌>>◌, raise_if, ◌==◌,
}

-- The texts of the exceptions.
pub data Reason : Type 0 where
  bad_artifact_type forbidden_normalization invalid_ordering : String → Reason
  invalid_on_missing invalid_on_malformed unsupported_version required : String → Reason
  unsupported_artifact_type no_comparator : String → Reason
  comparator_mismatch : String → String → Reason
  missing_contracts : List String → Reason

-- `ContractValidationError`, `NoContractError`, and what Python raises itself
pub data ContractError : Type 0 where
  contract_validation : String → Reason → ContractError
  no_contract : String → ContractError
  value_error : Reason → ContractError
  key_error : String → ContractError

pub record ArtifactType : Type 0 where
  pub name : String
  pub compared_as : String
  pub notes : String

abbrev pub valid_types : List String
valid_types = "STDOUT" ∷ "STDERR" ∷ "EXIT_STATUS" ∷ "TEXT_FILE" ∷ "FIXED_RECORD" ∷ []

unfoldable pub artifact_type : String → String → String → Result Reason ArtifactType
artifact_type name compared_as notes = do
  raise_if (not (elem name valid_types)) (bad_artifact_type name)
  ok record { name = name; compared_as = compared_as; notes = notes }

abbrev pub forbidden : List String
forbidden =
    "case_folding" ∷ "whitespace_normalization" ∷ "encoding_conversion"
    ∷ "trailing_whitespace_removal" ∷ "trailing_newline_removal" ∷ "substring_containment" ∷ []

-- `NormalizationPolicy.__post_init__`
unfoldable pub check_normalizations : List String → Result Reason (Unit {0})
check_normalizations [] = ok tt
check_normalizations (n ∷ norms) = do
  raise_if (elem n forbidden) (forbidden_normalization n)
  check_normalizations norms

abbrev pub orderings : List String
orderings = "SEQUENTIAL" ∷ "SORTED" ∷ "UNORDERED" ∷ []

unfoldable pub check_ordering : String → Result Reason (Unit {0})
check_ordering order = raise_if (not (elem order orderings)) (invalid_ordering order)

abbrev pub missing_policies : List String
missing_policies = "UNAVAILABLE" ∷ "FAILED" ∷ []

abbrev pub malformed_policies : List String
malformed_policies = "INCONCLUSIVE" ∷ "MISMATCH" ∷ []

unfoldable pub check_failure : String → String → Result Reason (Unit {0})
check_failure on_missing on_malformed = do
  raise_if (not (elem on_missing missing_policies)) (invalid_on_missing on_missing)
  raise_if (not (elem on_malformed malformed_policies)) (invalid_on_malformed on_malformed)

-- A comparator with its three policies.
pub record ComparatorSpec : Type 0 where
  pub comparator_id : String
  pub version : String
  pub artifact_type : String
  pub normalizations : List String
  pub ordering : String
  pub on_missing : String
  pub on_malformed : String

pub record ArtifactContract : Type 0 where
  pub contract_id : String
  pub artifact_types : List ArtifactType
  pub comparators : List ComparatorSpec

unfoldable pub first_of_type : String → List ComparatorSpec → Option ComparatorSpec
first_of_type t [] = none
first_of_type t (c ∷ comparators) =
    let rest = first_of_type t comparators in if text_eq c.artifact_type t then some c else rest

abbrev pub get_comparator : ArtifactContract → String → Option ComparatorSpec
get_comparator c t = first_of_type t c.comparators

abbrev pub is_type_supported : ArtifactContract → String → Bool
is_type_supported c t = any (λ (a : ArtifactType). text_eq t a.name) c.artifact_types

pub record OracleContract : Type 0 where
  pub contract_id : String
  pub oracle_id : String
  pub compiler_version : String
  pub preprocessor_version : Option String
  pub base_image : Option String

unfoldable pub validate_identity : OracleContract → String → String → Bool
validate_identity c oracle_id image_digest =
    text_eq oracle_id c.oracle_id && has_prefix image_digest "sha256:"

pub record CandidateContract : Type 0 where
  pub contract_id : String
  pub requires_build_system : Bool
  pub requires_external_dependencies : Bool
  pub requires_network : Bool

unfoldable pub validate_candidate_shape : CandidateContract → Bool → Bool → Bool
validate_candidate_shape c has_build_files has_external_deps =
    if has_build_files && not c.requires_build_system
    then false
    else not has_external_deps || c.requires_external_dependencies

pub record VerdictContract : Type 0 where
  pub contract_id : String
  pub allowed_states : List String

abbrev pub is_valid_state : VerdictContract → String → Bool
is_valid_state c state = elem state c.allowed_states

unfoldable pub validate_derivation : ℕ → Bool → Bool
validate_derivation executed_checks has_evidence =
    if executed_checks == 0 then false else has_evidence

pub record ProducerContract : Type 0 where
  pub contract_id : String
  pub requires_manifest : Bool
  pub requires_mutation_regeneration : Bool

pub record ContractRegistry : Type 0 where
  pub artifact : Option ArtifactContract
  pub oracle : Option OracleContract
  pub candidate : Option CandidateContract
  pub verdict : Option VerdictContract
  pub producer : Option ProducerContract

abbrev pub is_none {ℓ} : {A : Type ℓ} → Option A → Bool
is_none none = true
is_none (some a) = false

unfoldable pub is_complete : ContractRegistry → Bool
is_complete r =
    not (is_none r.artifact)
    && not (is_none r.oracle)
    && not (is_none r.candidate)
    && not (is_none r.verdict)
    && not (is_none r.producer)

unfoldable pub get_missing_contracts : ContractRegistry → List String
get_missing_contracts r =
    report_if (is_none r.artifact) "ARTIFACT"
    ++ (report_if (is_none r.oracle) "ORACLE"
        ++ (report_if (is_none r.candidate) "JAVA_CANDIDATE"
            ++ (report_if (is_none r.verdict) "VERDICT"
                ++ report_if (is_none r.producer) "PRODUCER")))
