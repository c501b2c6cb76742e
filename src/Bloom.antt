-- ===== src/Bloom.antt =====
-- Bloom filters of tables: bloom/bloom.go.
mod Hash
mod Defs
pub mod Probes
pub mod Contains
mod Examples
unfoldable pub use Hash.*
unfoldable pub use Defs.*
