-- ===== src/Registry.antt =====
-- domain/registry: which plugin version owns which capability.
pub mod Types
pub mod Identity
pub mod Normalize
pub mod Service
pub mod Bootstrap
pub mod Queries
pub mod Conflicts
