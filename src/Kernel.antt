-- ===== src/Kernel.antt =====
-- The kernel, impl/x86_64.
pub mod Work
pub mod Fd
pub mod Completion
mod Tests
