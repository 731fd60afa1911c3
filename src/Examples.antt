-- ===== src/Examples.antt =====
-- Concrete evidence and contents, and the theorems at them.
mod Fixtures
mod Admissions
mod Verdicts
mod Comparisons
mod Numerals
mod Lifecycles
mod Images
mod Groups
mod Agreements
mod Sources
mod Outputs
mod Overlays
