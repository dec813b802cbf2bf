-- ===== src/Syscall.antt =====
-- System calls: src/syscall.
pub mod UserCopy
pub mod Futex
