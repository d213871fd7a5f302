-- ===== src/Tmpfs.antt =====
-- The file system in memory, module/tmpfs/src/tmpfs.c.
pub mod Account
pub mod File
pub mod Name
pub mod Options
pub mod Tree
mod Tests
