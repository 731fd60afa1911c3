-- ===== src/Contracts/Validator.antt =====
-- `ContractValidator` of engine/contracts/validator.py.
use cobol_java_transformatio.Common.{
  String, not, Option, none, some, text_eq, is_empty, Result, ok, err, ◌>>=◌, ◌>>◌, raise_if,
}
use cobol_java_transformatio.Contracts.Model.{
  ContractError, contract_validation, no_contract, missing_contracts, unsupported_artifact_type,
  no_comparator, comparator_mismatch, ComparatorSpec, ArtifactContract, OracleContract,
  CandidateContract, VerdictContract, ProducerContract, ContractRegistry, get_missing_contracts,
  get_comparator, is_type_supported,
}

-- The contract that is loaded, or the refusal NO_CONTRACT.
abbrev pub require : {A : Type 0} → String → Option A → Result ContractError A
require t none = err (no_contract t)
require t (some c) = ok c

unfoldable pub require_artifact_contract : ContractRegistry → Result ContractError ArtifactContract
require_artifact_contract r = require "ARTIFACT" r.artifact

unfoldable pub require_oracle_contract : ContractRegistry → Result ContractError OracleContract
require_oracle_contract r = require "ORACLE" r.oracle

unfoldable pub require_candidate_contract :
    ContractRegistry → Result ContractError CandidateContract
require_candidate_contract r = require "JAVA_CANDIDATE" r.candidate

unfoldable pub require_verdict_contract : ContractRegistry → Result ContractError VerdictContract
require_verdict_contract r = require "VERDICT" r.verdict

unfoldable pub require_producer_contract : ContractRegistry → Result ContractError ProducerContract
require_producer_contract r = require "PRODUCER" r.producer

unfoldable pub require_all_contracts : ContractRegistry → Result ContractError (Unit {0})
require_all_contracts r =
    raise_if (not (is_empty (get_missing_contracts r)))
      (contract_validation "REGISTRY" (missing_contracts (get_missing_contracts r)))

unfoldable pub validate_artifact_type : ContractRegistry → String → Result ContractError (Unit {0})
validate_artifact_type r t = do
  c ← require_artifact_contract r
  raise_if (not (is_type_supported c t))
      (contract_validation "ARTIFACT" (unsupported_artifact_type t))

unfoldable pub same_id : String → ComparatorSpec → Result ContractError ComparatorSpec
same_id comparator_id spec = do
  raise_if (not (text_eq spec.comparator_id comparator_id))
      (contract_validation "ARTIFACT" (comparator_mismatch spec.comparator_id comparator_id))
  ok spec

unfoldable pub validate_comparator :
    ContractRegistry → String → String → Result ContractError ComparatorSpec
validate_comparator r comparator_id t = do
  c ← require_artifact_contract r
  elim (get_comparator c t) [
    | none ↦ err (contract_validation "ARTIFACT" (no_comparator t))
    | some spec ↦ same_id comparator_id spec
  ]
