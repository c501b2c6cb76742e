-- ===== src/Sstable.antt =====
-- Tables: sstable/.
pub mod Block
