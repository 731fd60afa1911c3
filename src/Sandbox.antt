-- ===== src/Sandbox.antt =====
-- engine/execution: what the host takes out of a sandbox.
pub mod Files
