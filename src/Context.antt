-- ===== src/Context.antt =====
-- Contexts: src/context.
pub mod FdTbl
pub mod Switch
pub mod Timeout
