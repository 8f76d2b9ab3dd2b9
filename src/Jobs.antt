-- ===== src/Jobs.antt =====
-- domain/jobs: workflows that run as jobs of the host.
pub mod Service
pub mod Fresh
pub mod Bounds
pub mod Finished
mod Tests
