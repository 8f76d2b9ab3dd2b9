-- ===== src/Candidate.antt =====
-- domain/candidate: plugin versions that are being built and validated.
pub mod Types
