-- ===== src/Examples/Agreements.antt =====
-- A small artifact contract, and the theorem at it.
use cobol_java_transformatio.Common.{◌≡◌, refl, none, some, [], ◌∷◌, ok, Any, text_eq}
use cobol_java_transformatio.Contracts.Model.{
  artifact_type, check_normalizations, check_ordering, check_failure, ComparatorSpec,
  ArtifactContract, first_of_type, ContractRegistry,
}
use cobol_java_transformatio.Contracts.Load.{
  load_type, load_comparator, load_each, load_contract_version, ArtifactData,
  load_artifact_contract,
}
use cobol_java_transformatio.Contracts.Validator.{
  require_artifact_contract, same_id, validate_comparator,
}
use cobol_java_transformatio.Contracts.Closed.{IsClosed, validate_comparator-IsClosed}

abbrev document : ArtifactData
document = record {
  version = none;
  contract_id = none;
  artifact_types = some (record { name = some "STDOUT"; compared_as = none; notes = none } ∷ []);
  comparators = some (
      record {
        comparator_id = some "STDOUT_COMPARATOR";
        version = none;
        artifact_type = some "STDOUT";
        normalizations = some ("crlf_to_lf" ∷ []);
        ordering = none;
        on_missing = none;
        on_malformed = none;
      }
      ∷ []);
}

abbrev spec : ComparatorSpec
spec = record {
  comparator_id = "STDOUT_COMPARATOR";
  version = "1.0.0";
  artifact_type = "STDOUT";
  normalizations = "crlf_to_lf" ∷ [];
  ordering = "SEQUENTIAL";
  on_missing = "UNAVAILABLE";
  on_malformed = "INCONCLUSIVE";
}

abbrev contract : ArtifactContract
contract = record {
  contract_id = "artifact-v1";
  artifact_types = record { name = "STDOUT"; compared_as = ""; notes = "" } ∷ [];
  comparators = spec ∷ [];
}

abbrev registry : ContractRegistry
registry = record {
  artifact = some contract;
  oracle = none;
  candidate = none;
  verdict = none;
  producer = none;
}

loaded : load_artifact_contract document ≡ ok contract
unfolding load_artifact_contract load_contract_version load_each load_type artifact_type
    load_comparator check_normalizations check_ordering check_failure text_eq
loaded = refl

answered : validate_comparator registry "STDOUT_COMPARATOR" "STDOUT" ≡ ok spec
unfolding validate_comparator require_artifact_contract first_of_type same_id text_eq
answered = refl

validate_comparator-IsClosed_example :
    (spec.comparator_id ≡ "STDOUT_COMPARATOR")
    × (spec.artifact_type ≡ "STDOUT")
    × Any (λ x. spec ≡ x) contract.comparators
    × IsClosed spec
validate_comparator-IsClosed_example =
    validate_comparator-IsClosed document registry loaded refl "STDOUT_COMPARATOR" "STDOUT" answered
