-- ===== src/Numeric.antt =====
-- engine/transformation/numeric_semantics.py: COBOL numeric literals as Java literal text.
pub mod Literal
pub mod Value
pub mod RoundTrip
pub mod Ends
pub mod Normal
pub mod Canonical
pub mod Picture
