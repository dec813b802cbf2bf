-- ===== src/Sync.antt =====
-- src/sync: what the kernel blocks on.
pub mod WaitCondition
pub mod WaitQueue
mod Tests
