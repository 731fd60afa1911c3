-- ===== src/Runs/Stage.antt =====
-- `RunStage` of api/models.py, and the state machine of api/store.py. An enum member is compared
-- by its position in the enum.
pub mod Order
use cobol_java_transformatio.Common.{
  ℕ, suc, String, Bool, true, false, ◌||◌, Option, none, some, List, [], ◌∷◌, leb, ◌==◌,
  if◌then◌else◌,
}

pub data RunStage : Type 0 where
  created ingesting discovering discovery_completed analyzing analysis_completed : RunStage
  planning plan_completed transforming generating assembling assembly_completed : RunStage
  building executing_oracle executing_generated comparing validating_evidence : RunStage
  completed failed : RunStage

unfoldable pub position : RunStage → ℕ
position created = 0
position ingesting = 1
position discovering = 2
position discovery_completed = 3
position analyzing = 4
position analysis_completed = 5
position planning = 6
position plan_completed = 7
position transforming = 8
position generating = 9
position assembling = 10
position assembly_completed = 11
position building = 12
position executing_oracle = 13
position executing_generated = 14
position comparing = 15
position validating_evidence = 16
position completed = 17
position failed = 18

unfoldable pub stage_eq : RunStage → RunStage → Bool
stage_eq s t = position s == position t

-- `stage.value`
unfoldable pub value : RunStage → String
value created = "CREATED"
value ingesting = "INGESTING"
value discovering = "DISCOVERING"
value discovery_completed = "DISCOVERY_COMPLETED"
value analyzing = "ANALYZING"
value analysis_completed = "ANALYSIS_COMPLETED"
value planning = "PLANNING"
value plan_completed = "PLAN_COMPLETED"
value transforming = "TRANSFORMING"
value generating = "GENERATING"
value assembling = "ASSEMBLING"
value assembly_completed = "ASSEMBLY_COMPLETED"
value building = "BUILDING"
value executing_oracle = "EXECUTING_ORACLE"
value executing_generated = "EXECUTING_GENERATED"
value comparing = "COMPARING"
value validating_evidence = "VALIDATING_EVIDENCE"
value completed = "COMPLETED"
value failed = "FAILED"

abbrev pub stage_order : List RunStage
stage_order =
    created ∷ ingesting ∷ discovering ∷ discovery_completed ∷ analyzing ∷ analysis_completed
    ∷ planning ∷ plan_completed ∷ transforming ∷ generating ∷ assembling ∷ assembly_completed
    ∷ executing_oracle ∷ building ∷ executing_generated ∷ comparing ∷ validating_evidence
    ∷ completed ∷ []

-- `{stage: index for index, stage in enumerate(stages, i)}`, looked up
unfoldable pub index_from : ℕ → List RunStage → RunStage → Option ℕ
index_from i [] s = none
index_from i (t ∷ stages) s =
    let rest = index_from (suc i) stages s in if stage_eq s t then some i else rest

unfoldable pub stage_index : RunStage → Option ℕ
stage_index s = index_from 0 stage_order s

-- `stage in TERMINAL_STAGES`
unfoldable pub is_terminal : RunStage → Bool
is_terminal s = stage_eq s completed || stage_eq s failed

-- `target_index >= current_index`, where both are known
unfoldable pub forward : Option ℕ → Option ℕ → Bool
forward (some i) (some j) = leb i j
forward _ _ = false

unfoldable pub is_valid_transition : RunStage → RunStage → Bool
is_valid_transition current target =
    if stage_eq current target
    then true
    else if is_terminal current
    then false
    else if stage_eq target failed
    then true
    else if stage_eq target completed
    then true
    else forward (stage_index current) (stage_index target)

-- the new anchor for the last stage that was not terminal
unfoldable pub last_stage_anchor : RunStage → Option String → Option String
last_stage_anchor stage previous = if is_terminal stage then previous else some (value stage)
