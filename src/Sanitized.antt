-- ===== src/Sanitized.antt =====
-- models/sanitized.py and models/constraints.py: branded strings, their checks and their provenance.
pub mod Refs
pub mod Components
pub mod Patterns
pub mod Check
pub mod Names
pub mod Values
pub mod Brand
pub mod SingleLine
pub mod Bounds
pub mod Paths
mod Tests
