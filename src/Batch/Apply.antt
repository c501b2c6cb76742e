-- ===== src/Batch/Apply.antt =====
-- Batch.Apply of batch.go on a receiver without an index that is not the argument: the records of
-- the argument are appended.
pub mod Concat
use pebble.Prelude.{
  ℕ, ◌+◌, ◌%◌, ◌^◌, Bool, true, false, List, ◌++◌, length, drop, ltb, ◌==◌, if◌then◌else◌,
}
use pebble.Prelude.Outcome.{Outcome, ok, ◌>>=◌}
use pebble.Batch.Defs.{Batch, batch_header_len, with_header, entries}
use pebble.Batch.Repr.{count_of, count_entries}

-- What is counted of the appended records, in a batch of a database.
unfoldable pub track_entries : List ℕ → Batch → Outcome Batch
unfolding count_entries
track_entries r b =
    if b.has_db then entries (length r + 1) r >>= (λ es. ok (count_entries es b)) else ok b

-- True is the error of an invalid batch.
unfoldable pub apply : List ℕ → Batch → Batch → Outcome (Batch × Bool)
unfolding with_header count_of track_entries
apply raw batch b =
    if length batch.data_bytes == 0
    then ok (b, false)
    else if ltb (length batch.data_bytes) batch_header_len
    then ok (b, true)
    else let offset = if length b.data_bytes == 0 then batch_header_len else length b.data_bytes in
      let h = with_header raw b in
      let bytes = h.data_bytes ++ drop batch_header_len batch.data_bytes in
      count_of h >>= (λ n. count_of batch >>= (λ m.
        track_entries (drop offset bytes)
          (record h { data_bytes = bytes; count = (n + m) % 2 ^ 32 })
        >>= (λ b'. ok (b', false))))
