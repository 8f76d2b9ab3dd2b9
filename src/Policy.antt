-- ===== src/Policy.antt =====
-- domain/policy: which actions may run, and the confirmations that bind to one concrete action.
pub mod Types
pub mod Fingerprint
pub mod State
pub mod Service
pub mod Execution
pub mod Schedule
pub mod Tools
