-- ===== src/Fs.antt =====
-- The file systems under fs/ and the layer above them.
pub mod Base
pub mod Ramfs
pub mod Vfs
pub mod Devfs
