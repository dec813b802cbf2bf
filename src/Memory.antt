-- ===== src/Memory.antt =====
-- Memory: src/memory/mod.rs and src/context/memory.rs.
pub mod Holes
pub mod PageInfo
pub mod Span
pub mod Grants
pub mod Sections
pub mod Buddy
