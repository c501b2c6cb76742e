-- ===== src/Key.antt =====
-- Internal keys: internal/base/internal.go. A user key followed by a 64-bit trailer that holds a
-- 56-bit sequence number over an 8-bit kind. Masks and shifts of disjoint bit fields are written
-- as arithmetic modulo 2 ^ 64.
mod Defs
pub mod Fields
pub mod Order
pub mod TotalOrder
pub mod Codec
pub mod Bytewise
mod Examples
unfoldable pub use Defs.*
