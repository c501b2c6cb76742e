-- ===== src/Compaction.antt =====
-- Compactions: compaction_iter.go.
pub mod Iter
