-- ===== src/Domain.antt =====
-- engine/domain/identities.py: the value objects that evidence and verdicts are made of. An id of
-- one text field is that text. `__post_init__` is a check that raises or passes; sha256 is a
-- parameter.
use Prim.Native.String.{count, ◌++◌ as ◌<>◌}
use cobol_java_transformatio.Common.{
  ℕ, String, Bool, not, ◌||◌, Option, List, [], ◌∷◌, text_eq, has_prefix, elem, Result, ok, err,
  raise_if, ◌>>◌, ◌==◌, ◌&&◌, if◌then◌else◌,
}

abbrev pub WorkloadId : Type 0
WorkloadId = String

abbrev pub RunId : Type 0
RunId = String

abbrev pub ExecutionId : Type 0
ExecutionId = String

-- The `ValueError`s of the constructors.
pub data ValueError : Type 0 where
  unsupported_algorithm bad_digest_length empty_value bad_artifact_type bad_producer_role :
      ValueError
  not_sha256_pinned : ValueError

-- `WorkloadId`, `RunId` and `ExecutionId` refuse the empty text alike.
unfoldable pub checked_id : String → Result ValueError String
checked_id value = if text_eq value "" then err empty_value else ok value

pub record ContentHash : Type 0 where
  pub digest : String
  pub algorithm : String

unfoldable pub content_hash : String → String → Result ValueError ContentHash
content_hash digest algorithm = do
  raise_if (not (text_eq algorithm "sha256")) unsupported_algorithm
  raise_if (not (count digest == 64)) bad_digest_length
  ok (record { digest = digest; algorithm = algorithm })

-- `str(hash)`
abbrev pub show_hash : ContentHash → String
show_hash h = "sha256:" <> h.digest

-- The equality of the frozen dataclass.
abbrev pub hash_eq : ContentHash → ContentHash → Bool
hash_eq g h = text_eq g.digest h.digest && text_eq g.algorithm h.algorithm

pub record SourceIdentity : Type 0 where
  pub source_id : String
  pub source_hash : ContentHash
  pub file_count : ℕ
  pub total_size_bytes : ℕ

pub record CandidateIdentity : Type 0 where
  pub candidate_id : String
  pub candidate_hash : ContentHash
  pub source_hash : ContentHash
  pub file_count : ℕ
  pub total_size_bytes : ℕ

pub record OracleIdentity : Type 0 where
  pub oracle_id : String
  pub image_digest : String
  pub compiler_version : String
  pub preprocessor_version : Option String
  pub base_image : Option String

unfoldable pub oracle_identity : OracleIdentity → Result ValueError OracleIdentity
oracle_identity o = do
  raise_if (text_eq o.oracle_id "") empty_value
  raise_if (not (has_prefix o.image_digest "sha256:")) not_sha256_pinned
  raise_if (text_eq o.compiler_version "") empty_value
  ok o

pub record EnvironmentIdentity : Type 0 where
  pub runtime_id : String
  pub java_version : Option String
  pub cobol_compiler : Option String
  pub os_base : Option String
  pub network_policy : String
  pub resource_limits : List (String × String)

pub record InputIdentity : Type 0 where
  pub input_id : String
  pub stdin_hash : Option ContentHash
  pub input_files : List (String × ContentHash)

-- Effects that no comparator observes.
abbrev pub unobserved_effect_types : List String
unobserved_effect_types = "DATABASE_STATE" ∷ "TRANSACTION_EFFECTS" ∷ "MESSAGE_QUEUE_EFFECTS" ∷ []

abbrev pub observed_types : List String
observed_types =
    "STDOUT" ∷ "STDERR" ∷ "EXIT_STATUS" ∷ "TEXT_FILE" ∷ "FIXED_RECORD" ∷ "BUSINESS_INVARIANT" ∷ []

pub record ArtifactIdentity : Type 0 where
  pub artifact_id : String
  pub artifact_type : String
  pub logical_name : String
  pub producer_role : String
  pub content_hash : ContentHash
  pub size_bytes : ℕ
  pub record_count : Option ℕ

unfoldable pub artifact_identity : ArtifactIdentity → Result ValueError ArtifactIdentity
artifact_identity a = do
  raise_if
      (not (elem a.artifact_type observed_types || elem a.artifact_type unobserved_effect_types))
      bad_artifact_type
  raise_if (not (elem a.producer_role ("ORACLE" ∷ "CANDIDATE" ∷ []))) bad_producer_role
  ok a

pub data VerdictState : Type 0 where
  verified partial failed unproven unavailable unsupported error : VerdictState
