-- ===== src/Governance.antt =====
-- domain/governance, generated-runtime and activation-compatibility: what may be activated and removed.
pub mod Types
pub mod Trust
pub mod Compatibility
pub mod Dependents
pub mod State
pub mod Fingerprint
pub mod Eligibility
pub mod Approvals
pub mod Running
pub mod Schedule
pub mod Gate
pub mod Preserves
pub mod Granted
pub mod Frame
pub mod Keeps
pub mod Activation
pub mod Removal
pub mod SafeMode
mod Tests
