-- ===== src/Contracts.antt =====
-- engine/contracts: the contracts that govern a validation, and how they are loaded and required.
pub mod Model
pub mod Load
pub mod Validator
pub mod Closed
