-- ===== src/Mm.antt =====
-- Memory management.
pub mod Buddy
pub mod PageTable
pub mod Slab
pub mod Vmalloc
