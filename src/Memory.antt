-- ===== src/Memory.antt =====
-- domain/memory: the durable personal memory.
pub mod Types
pub mod Normalize
pub mod Conflicts
pub mod Service
pub mod Query
pub mod Render
