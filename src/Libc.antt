-- ===== src/Libc.antt =====
-- The C library of the user programs.
pub mod Heap
pub mod Printf
mod Tests
