-- ===== src/Reliability.antt =====
-- domain/reliability: the gate that a candidate's risk model passes.
pub mod Types
pub mod Classify
pub mod Defaults
pub mod Gate
pub mod Passed
mod Tests
