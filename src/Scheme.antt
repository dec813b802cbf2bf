-- ===== src/Scheme.antt =====
-- Schemes of the kernel: src/scheme.
pub mod Pipe
