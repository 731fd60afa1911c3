-- ===== src/Runs.antt =====
-- The lifecycle of a validation run: `RunStage` of api/models.py and the run table of
-- api/store.py.
pub mod Stage
pub mod Model
pub mod Table
pub mod Store
pub mod Step
pub mod Attempt
