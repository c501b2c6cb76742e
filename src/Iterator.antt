-- ===== src/Iterator.antt =====
-- The iterator of a DB's user: iterator.go, over the contract of the internal iterator
-- (internal/base/iterator.go) and of the merge operator (internal/base/merger.go).
pub mod Internal
pub mod Merging
pub mod Search
pub mod Reverse
pub mod Calls
pub mod Rows
pub mod Groups
pub mod Skip
pub mod Refine
pub mod Compacted
pub mod MergeKey
mod Examples
