-- ===== src/Libc.antt =====
-- The C library, libc/src.
mod Tests
pub mod Memory
pub mod Word
pub mod Cpu
pub mod Copy
pub mod Fill
pub mod Scan
pub mod Text
pub mod Compare
pub mod Number
pub mod Search
pub mod Build
pub mod ByteSet
pub mod Last
pub mod Print
