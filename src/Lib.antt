-- ===== src/Lib.antt =====
-- Pebble, a key-value store over a log-structured merge tree: the internal keys, the batch that
-- carries writes, the iterator of a reader, the iterator that a compaction drains, the range
-- tombstones that it consults, the blocks and the Bloom filters of tables, the pipeline that
-- orders commits, the tracker of acknowledged sequence numbers and the queue of log files kept for
-- reuse. A write goes into a batch, whose records become internal keys (a user key with a sequence
-- number and a kind); a compaction reads sorted internal keys, drops the entries that no snapshot
-- can see, and writes the rest; a reader's iterator resolves the internal keys of each user key to
-- a row.
--
-- - Prelude: shared names, Boolean tests, lists over the native numbers, little-endian bytes, and
--   Outcome: a result, a Go panic, or `stuck`, which stands for a loop whose fuel ran out.
-- - Key (internal/base/internal.go, internal/base/comparer.go): InternalKey, its constructors,
--   getters, setters and codec, InternalCompare, Separator and Successor. A trailer is a number
--   with the wrap-around of 64 bits written out; the `int` of a Compare is its sign. The user's
--   Compare, Separator and Successor are arguments. Key.Bytewise gives one Compare that has the
--   properties which internal/base/comparer.go asks for.
-- - Rangedel (internal/rangedel/tombstone.go, internal/rangedel/fragmenter.go): Tombstone and the
--   Fragmenter: Deleted in the parent; Add, FlushTo, TruncateAndFlushTo, Finish, Empty and Start
--   in Rangedel.Fragment, with the panics; Overlap is about Tombstone.Overlaps. The chunks passed
--   to Emit are returned, the two sorts are arguments, of which Prelude.Sort states what sort.Sort
--   documents, and the loop of flush takes the length of the buffer as fuel, enough since each
--   round drops a tombstone.
-- - Commit (commit.go, with fields of batch.go and the Done of internal/record/log_writer.go):
--   Commit.Queue has commitQueue, Commit the functions of Commit, prepare, publish and
--   AllocateSeqNum, with the panics, and Advance, the steps between the states of the pipeline, which
--   goroutines take in any order. Reach starts from a new pipeline; it has ratchetSeqNum as a step
--   too, but only while no batch is between prepare and the return of its Commit, which the callers
--   (flush_external.go, for internal/replay) have to see to, since ratchetSeqNum waits for nothing.
--   Invariant, Frames, Moves, Publish, Queued, Enqueue and Settled carry the proofs, Safety and
--   Progress what follows. An enqueue, a dequeue, a
--   compare-and-swap loop and a critical section that does not wait are one step each; write and
--   apply of the environment either succeed or fail. Sequence numbers wrap around at 2^64, and the
--   theorems are about the time before that.
-- - Compaction.Iter (compaction_iter.go): Stripe has the fields of compactionIter, snapshotIndex,
--   nextInStripe and skipInStripe; Methods has mergeNext, singleDeleteNext, maybeZeroSeqnum, First
--   and Next. The wrapped internalIterator is the list of entries it has still to yield, and the
--   merge operator (internal/base/merger.go) and elideTombstone are fields of the configuration.
--   Loops that advance the wrapped iterator recur on that list; the loop of Next takes one more
--   than its length as fuel, and Compaction.Iter.Total shows that this never runs out. Collapse is
--   a reference definition of the output for Sets and Deletes, Snapshots has the facts on stripes,
--   and View has point reads at a snapshot.
-- - LogRecycler (log_recycler.go): the limit, the queue and the largest number seen; add, peek,
--   count and pop. A method is one critical section of the mutex, so calls are a sequence.
-- - Batch (batch.go, with maxBatchSize of open.go and memTableEntrySize of mem_table.go): Varint
--   has length-prefixed strings, Defs the batch, Set, Merge, Delete, SingleDelete, DeleteRange,
--   LogData, Reader and BatchReader.Next, Repr has Repr, SetRepr, Count, Reset and the sequence
--   number, Apply has Batch.Apply on a receiver without an index that is not the argument. `raw`
--   is the content of the unset memory that the header's count occupies until Repr. A uint32
--   length takes at most four rounds of the varint loop before the last byte. The loop over a
--   reader takes one more than the number of its bytes as fuel, enough since a record has bytes.
-- - Bloom (bloom/bloom.go): Hash has `hash`, Defs the table filter's writer and its reader, Probes
--   and Contains the proofs. A filter is its bytes, a bit outside of it is a panic, and the
--   floating-point product in calculateProbes is an argument. A count of bits is not wrapped to 64
--   bits. The filter of less than 2^32 bits is one of less than 512 MB.
-- - Sstable.Block (sstable/block.go): blockWriter, and init, First and Next of blockIter with
--   readFirstKey, readEntry and decodeInternalKey. Writing, Reading and Opening carry the proofs.
--   The inlined varints are those of Batch.Varint. Offsets are not wrapped to 32 bits: the block
--   is shorter than 2^31 bytes. A read outside of the block, which Go does through an unsafe
--   pointer, is a panic.
-- - Iterator (iterator.go, with internal/base/iterator.go and internal/base/merger.go): Internal is
--   the contract of the internal iterator, a cursor over the entries between its bounds; Merging
--   has the interface of merge operators and the default one; Search has the state, nextUserKey,
--   prevUserKey, mergeNext and findNextEntry, Reverse findPrevEntry, Calls the positioning methods.
--   Rows is the reference: the rows of the entries and a cursor over them. Groups, Skip and Refine
--   carry the proofs. iterKey and iterValue are the entry at the position of the internal iterator.
--   The merge operator is an argument; what is said of any operator is said of Sets and Deletes, and
--   of the default one with operands, since findNextEntry calls Merge before it has saved the
--   key, which MergeKey is about.
--   The loop of findNextEntry takes one more than the number of the entries that are left as fuel,
--   enough since a round passes an entry; the other loops recur on the entries. An iterator of the
--   model has no readState, so that reads are not sampled, and the internal iterator does not fail.
--   Compacted puts an iterator behind Compaction.Iter: it reads the visible entries of its output.
-- - AckSeq (internal/ackseq/ackseq.go): the window of acknowledged numbers; New, Next and Ack. The
--   window is a function from byte indices to bytes. The loop of Ack takes one more than the
--   number of the window's bits as fuel, enough since it stops when it comes back to a bit that it
--   cleared. The base wraps around at 2^64.
--
-- Not modelled: SeekPrefixGE, Close and Clone of Iterator, buffers and their reuse,
-- Error and Close of the compaction iterator and the errors of wrapped iterators, the forwarding of
-- range tombstones to the output, indexed batches and flushable batches, searches in range
-- tombstones, and the parts of the store behind these: mem_table.go, tables beyond their blocks and
-- searches in those, the record format, versions, the iterators that merge levels, and the file
-- system.
pub mod Prelude
pub mod Key
pub mod Rangedel
pub mod Compaction
pub mod LogRecycler
pub mod Batch
pub mod Bloom
pub mod AckSeq
pub mod Commit
pub mod Sstable
pub mod Iterator
