-- ===== src/Commit/Progress.antt =====
-- The argument in the comments of publish (commit.go), as a step that is possible: the pipeline does
-- not deadlock. Nothing here bounds how many steps a commit takes.
use pebble.Prelude.{ℕ}
use pebble.Commit.{CommitPipeline, Advance}

-- Some goroutine that has entered can take a step.
abbrev pub CanAdvance : CommitPipeline → Type 0
CanAdvance s = (k : ℕ) × (t : CommitPipeline) × Advance s k t
