-- ===== src/Contracts/Load.antt =====
-- The loaders of engine/contracts/validator.py. A dictionary is a record of its keys, `none` for a key
-- that is not there; a value of another type than the code expects is not modelled.
use cobol_java_transformatio.Common.{
  String, Bool, true, false, not, Option, none, some, List, [], ◌∷◌, text_eq, Result, ok, err,
  ◌>>=◌, ◌>>◌, raise_if,
}
use cobol_java_transformatio.Contracts.Model.{
  Reason, unsupported_version, required, ContractError, contract_validation, value_error, key_error,
  ArtifactType, artifact_type, check_normalizations, check_ordering, check_failure, ComparatorSpec,
  ArtifactContract, OracleContract, CandidateContract, VerdictContract, ProducerContract,
}

abbrev pub get_or {ℓ} : {A : Type ℓ} → A → Option A → A
get_or d none = d
get_or d (some a) = a

-- `data["key"]`
abbrev pub key : {A : Type 0} → String → Option A → Result ContractError A
key k none = err (key_error k)
key k (some a) = ok a

-- a `ValueError` as it is, and wrapped by the loader
abbrev pub as_value_error : {A : Type 0} → Result Reason A → Result ContractError A
as_value_error (ok a) = ok a
as_value_error (err r) = err (value_error r)

abbrev pub as_validation_error : {A : Type 0} → String → Result Reason A → Result ContractError A
as_validation_error t (ok a) = ok a
as_validation_error t (err r) = err (contract_validation t r)

unfoldable pub load_contract_version : String → Option String → Result ContractError (Unit {0})
load_contract_version t version =
    raise_if (not (text_eq (get_or "1.0" version) "1.0"))
      (contract_validation t (unsupported_version (get_or "1.0" version)))

pub record TypeData : Type 0 where
  pub name : Option String
  pub compared_as : Option String
  pub notes : Option String

pub record ComparatorData : Type 0 where
  pub comparator_id : Option String
  pub version : Option String
  pub artifact_type : Option String
  pub normalizations : Option (List String)
  pub ordering : Option String
  pub on_missing : Option String
  pub on_malformed : Option String

pub record ArtifactData : Type 0 where
  pub version : Option String
  pub contract_id : Option String
  pub artifact_types : Option (List TypeData)
  pub comparators : Option (List ComparatorData)

unfoldable pub load_type : TypeData → Result ContractError ArtifactType
load_type d = do
  name ← key "name" d.name
  as_validation_error "ARTIFACT" (artifact_type name (get_or "" d.compared_as) (get_or "" d.notes))

unfoldable pub load_comparator : ComparatorData → Result ContractError ComparatorSpec
load_comparator d = do
  as_value_error (check_normalizations (get_or [] d.normalizations))
  as_value_error (check_ordering (get_or "SEQUENTIAL" d.ordering))
  as_value_error
      (check_failure (get_or "UNAVAILABLE" d.on_missing) (get_or "INCONCLUSIVE" d.on_malformed))
  comparator_id ← key "comparator_id" d.comparator_id
  type_name ← key "artifact_type" d.artifact_type
  ok record {
    comparator_id = comparator_id;
    version = get_or "1.0.0" d.version;
    artifact_type = type_name;
    normalizations = get_or [] d.normalizations;
    ordering = get_or "SEQUENTIAL" d.ordering;
    on_missing = get_or "UNAVAILABLE" d.on_missing;
    on_malformed = get_or "INCONCLUSIVE" d.on_malformed;
  }

unfoldable pub load_each :
    {A B : Type 0} → (A → Result ContractError B) → List A → Result ContractError (List B)
load_each f [] = ok []
load_each f (x ∷ xs) = do y ← f x; ys ← load_each f xs; ok (y ∷ ys)

unfoldable pub load_artifact_contract : ArtifactData → Result ContractError ArtifactContract
load_artifact_contract d = do
  load_contract_version "ARTIFACT" d.version
  types ← load_each load_type (get_or [] d.artifact_types)
  comparators ← load_each load_comparator (get_or [] d.comparators)
  ok record {
    contract_id = get_or "artifact-v1" d.contract_id;
    artifact_types = types;
    comparators = comparators;
  }

pub record OracleData : Type 0 where
  pub version : Option String
  pub contract_id : Option String
  pub oracle_id : Option String
  pub compiler_version : Option String
  pub preprocessor_version : Option String
  pub base_image : Option String

unfoldable pub load_oracle_contract : OracleData → Result ContractError OracleContract
load_oracle_contract d = do
  load_contract_version "ORACLE" d.version
  raise_if (text_eq (get_or "" d.oracle_id) "")
      (contract_validation "ORACLE" (required "oracle_id"))
  raise_if (text_eq (get_or "" d.compiler_version) "")
      (contract_validation "ORACLE" (required "compiler_version"))
  ok record {
    contract_id = get_or "oracle-v1" d.contract_id;
    oracle_id = get_or "" d.oracle_id;
    compiler_version = get_or "" d.compiler_version;
    preprocessor_version = d.preprocessor_version;
    base_image = d.base_image;
  }

pub record CandidateData : Type 0 where
  pub version : Option String
  pub contract_id : Option String
  pub requires_build_system : Option Bool
  pub requires_external_dependencies : Option Bool
  pub requires_network : Option Bool

unfoldable pub load_candidate_contract : CandidateData → Result ContractError CandidateContract
load_candidate_contract d = do
  load_contract_version "JAVA_CANDIDATE" d.version
  ok record {
    contract_id = get_or "candidate-v1" d.contract_id;
    requires_build_system = get_or false d.requires_build_system;
    requires_external_dependencies = get_or false d.requires_external_dependencies;
    requires_network = get_or false d.requires_network;
  }

pub record VerdictData : Type 0 where
  pub version : Option String
  pub contract_id : Option String
  pub allowed_states : Option (List String)

unfoldable pub load_verdict_contract : VerdictData → Result ContractError VerdictContract
load_verdict_contract d = do
  load_contract_version "VERDICT" d.version
  ok record {
    contract_id = get_or "verdict-v1" d.contract_id;
    allowed_states =
        get_or
          ("VERIFIED" ∷ "PARTIAL" ∷ "FAILED" ∷ "UNPROVEN" ∷ "UNAVAILABLE" ∷ "UNSUPPORTED" ∷ "ERROR"
            ∷ [])
          d.allowed_states;
  }

pub record ProducerData : Type 0 where
  pub version : Option String
  pub contract_id : Option String
  pub requires_manifest : Option Bool
  pub requires_mutation_regeneration : Option Bool

unfoldable pub load_producer_contract : ProducerData → Result ContractError ProducerContract
load_producer_contract d = do
  load_contract_version "PRODUCER" d.version
  ok record {
    contract_id = get_or "producer-v1" d.contract_id;
    requires_manifest = get_or true d.requires_manifest;
    requires_mutation_regeneration = get_or true d.requires_mutation_regeneration;
  }
