-- ===== src/Compaction/Iter.antt =====
-- The iterator that collapses entries during a compaction: compaction_iter.go.
mod Stripe
mod Methods
pub mod Collapse
pub mod Snapshots
pub mod View
pub mod Total
unfoldable pub use Stripe.*
unfoldable pub use Methods.*
