-- ===== src/Certification.antt =====
-- The path from raw evidence to a verdict: engine/evidence/integrity.py in front of
-- engine/verdict/derivation.py, as the pipeline runs them.
pub mod Certified
pub mod Tamper
