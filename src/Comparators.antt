-- ===== src/Comparators.antt =====
-- engine/comparators: typed comparison of artifacts, and the ids that bind evidence to it.
pub mod Identity
pub mod Model
pub mod Policy
pub mod Text
pub mod FixedRecord
pub mod ExitStatus
pub mod Registry
pub mod IndexedRecords
pub mod RelativeRecords
