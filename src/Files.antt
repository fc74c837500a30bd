-- ===== src/Files.antt =====
-- Files: src/kernel/vfs (ramfs.c, tarfs.c, lseek.c, vfs.c, namei.c, fd.c). A file's bytes are a function of the
-- offset. A C `long` is its 32-bit pattern, and -1 is `word_max`.
pub mod Data
pub mod Seek
pub mod Vfs
pub mod Open
pub mod Write
pub mod Tree
pub mod Descriptors
mod Tests
