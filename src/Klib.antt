-- ===== src/Klib.antt =====
-- The kernel's library: strings and memory, and formatted output.
pub mod Strings
pub mod Format
mod Tests
