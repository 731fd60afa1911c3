-- ===== src/Verdict.antt =====
-- engine/verdict: the verdict model, the deriver, and what holds of both.
pub mod Model
pub mod Analysis
pub mod Derive
