-- ===== src/Evidence.antt =====
-- engine/evidence: the evidence model and the admission layer in front of verdict derivation.
pub mod Model
pub mod Graph
pub mod Violation
pub mod Bindings
pub mod Pairing
pub mod Completeness
pub mod Integrity
pub mod Admission
