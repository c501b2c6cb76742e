-- ===== src/Batch.antt =====
-- Write batches: batch.go. A batch without an index, its operations as appended records, its
-- binary form and the reader of that form.
pub mod Varint
mod Defs
pub mod Lengths
pub mod Records
pub mod RoundTrip
pub mod Repr
pub mod Apply
pub mod Corrupt
mod Examples
unfoldable pub use Varint.*
unfoldable pub use Defs.*
