-- ===== src/Fs/Vfs.antt =====
-- The virtual file system, fs/vfs.c and include/minix/vfs.h: the tables of file systems and mounts,
-- path lookup, and the calls on files, above the operations that a file system gives.
pub mod Types
pub mod Mounts
pub mod Path
pub mod Calls
mod Tests
