-- ===== src/Iterator/Refine.antt =====
-- The positioning methods of iterator.go implement the cursor over the rows.
pub mod Standing
pub mod Operands
pub mod Neighbours
pub mod Rounds
pub mod Forward
pub mod Walk
pub mod Backward
pub mod Locate
pub mod Bounds
pub mod Enter
pub mod Passing
pub mod Steps
pub mod Methods
pub mod Seeks
pub mod Runs
pub mod SetBounds
