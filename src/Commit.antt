-- ===== src/Commit.antt =====
-- The commit pipeline: commit.go. Each goroutine commits one batch, and both have the same number.
-- The functions are the atomic parts of Commit, publish and AllocateSeqNum, which Advance lets the
-- goroutines take in any order, and ratchetSeqNum.
pub mod Queue
pub mod Invariant
pub mod Frames
pub mod Moves
pub mod Publish
pub mod Queued
pub mod Enqueue
pub mod Settled
pub mod Safety
pub mod Progress
mod Examples
use pebble.Prelude.{
  ℕ, ◌+◌, ◌-◌, ◌%◌, ◌^◌, ◌<◌, ◌≡◌, Bool, true, false, Option, none, some, List, [], ◌∷◌, ◌==◌, leb,
  if◌then◌else◌,
}
use pebble.Prelude.Family.{put}
use pebble.Prelude.Outcome.{Outcome, ok, panic, ◌>>=◌}
use Queue.{CommitQueue, sync_concurrency, new_queue, enqueue, dequeue}

-- Where the goroutine is: before Commit; behind the semaphore; back with ErrInvalidBatch; back with
-- an error of write or apply; between prepare and apply; in the spin of AllocateSeqNum on this log
-- sequence number; at the top of the loop of publish; with a dequeued batch, before and after its
-- number is published; in commit.Wait; back from Commit.
pub data Phase : Type 0 where
  idle entered invalid failed prepared : Phase
  settling : ℕ → Phase
  publishing : Phase
  holding signalling : ℕ → Phase
  waiting returned : Phase

-- `waits` is the counter of the WaitGroup, `unsynced` its part that is left to the sync of the WAL.
pub record CommitBatch : Type 0 where
  pub seq : ℕ
  pub count : ℕ
  pub applied : Bool
  pub waits : ℕ
  pub unsynced : ℕ

-- `used` is the number of tokens in `sem`, `mu` the goroutine that keeps the mutex from one step to
-- the next, and `wal` the sequence numbers that were written, the latest first.
pub record CommitPipeline : Type 0 where
  pub queue : CommitQueue
  pub log_seq : ℕ
  pub visible : ℕ
  pub used : ℕ
  pub mu : Option ℕ
  pub wal : List ℕ
  pub batches : ℕ → CommitBatch
  pub phase : ℕ → Phase

-- The batch count that stands for an invalid batch.
abbrev pub invalid_batch_count : ℕ
invalid_batch_count = 2 ^ 32 - 1

abbrev pub no_batch : CommitBatch
no_batch = record { seq = 0; count = 0; applied = false; waits = 0; unsynced = 0 }

unfoldable pub new_commit_pipeline : ℕ → CommitPipeline
new_commit_pipeline seq = record {
  queue = new_queue;
  log_seq = seq;
  visible = seq;
  used = 0;
  mu = none;
  wal = [];
  batches = λ i. no_batch;
  phase = λ i. idle;
}

-- `p.sem <- struct{}{}`.
unfoldable pub enter : ℕ → CommitPipeline → CommitPipeline
enter i s = record s { used = s.used + 1; phase = put i entered s.phase }

-- prepare on a batch of `n` operations; `wrote` is whether the write of the environment succeeds.
unfoldable pub prepare : ℕ → ℕ → Bool → Bool → CommitPipeline → Outcome CommitPipeline
prepare i n sync wrote s =
    if n == invalid_batch_count
    then ok (record s { phase = put i invalid s.phase })
    else enqueue i s.queue >>= (λ q.
      let next = (s.log_seq + n) % 2 ^ 64 in
      let seq = (next + 2 ^ 64 - n) % 2 ^ 64 in
      let syncs = if sync then 1 else 0 in
      ok (record s {
        queue = q;
        log_seq = next;
        wal = if wrote then seq ∷ s.wal else s.wal;
        batches =
            put i
              (record {
                seq = seq;
                count = n;
                applied = false;
                waits = 1 + syncs;
                unsynced = syncs;
              })
              s.batches;
        phase = put i (if wrote then prepared else failed) s.phase;
      }))

-- The environment's apply, and then the first line of publish.
unfoldable pub apply : ℕ → Bool → CommitPipeline → CommitPipeline
apply i applied s =
    if applied
    then record s {
      batches = put i (record (s.batches i) { applied = true }) s.batches;
      phase = put i publishing s.phase;
    }
    else record s { phase = put i failed s.phase }

-- The dequeue of publish, which goes to commit.Wait on nil, and the check that the batch is applied.
unfoldable pub take_batch : ℕ → CommitPipeline → Outcome CommitPipeline
take_batch i s = elim (dequeue (λ b. (s.batches b).applied) s.queue) [
  | none ↦ ok (record s { phase = put i waiting s.phase })
  | some r ↦
      if (s.batches (r.0)).applied
      then ok (record s { queue = r.1; phase = put i (holding (r.0)) s.phase })
      else panic
]

-- The compare-and-swap loop of publish, as the swap that succeeds.
unfoldable pub ratchet : ℕ → ℕ → CommitPipeline → CommitPipeline
ratchet i t s =
    let next = ((s.batches t).seq + (s.batches t).count) % 2 ^ 64 in
    record s {
      visible = if leb next s.visible then s.visible else next;
      phase = put i (signalling t) s.phase;
    }

-- Done of a WaitGroup panics below zero.
unfoldable pub signal : ℕ → ℕ → CommitPipeline → Outcome CommitPipeline
signal i t s =
    let b = s.batches t in
    if b.waits == 0
    then panic
    else ok (record s {
      batches = put t (record b { waits = b.waits - 1 }) s.batches;
      phase = put i publishing s.phase;
    })

-- The log writer's Done for a batch that is synced.
unfoldable pub sync_done : ℕ → CommitPipeline → Outcome CommitPipeline
sync_done t s =
    let b = s.batches t in
    if b.waits == 0
    then panic
    else ok (record s {
      batches = put t (record b { waits = b.waits - 1; unsynced = b.unsynced - 1 }) s.batches;
    })

-- `<-p.sem` and the return.
unfoldable pub leave : ℕ → CommitPipeline → CommitPipeline
leave i s = record s { used = s.used - 1; phase = put i returned s.phase }

-- AllocateSeqNum up to its spin. The number 0 is skipped.
unfoldable pub allocate : ℕ → ℕ → CommitPipeline → Outcome CommitPipeline
allocate i n s = enqueue i s.queue >>= (λ q.
    let next = (s.log_seq + n) % 2 ^ 64 in
    let start = (next + 2 ^ 64 - n) % 2 ^ 64 in
    ok (record s {
      queue = q;
      log_seq = if start == 0 then (next + 1) % 2 ^ 64 else next;
      mu = some i;
      batches =
          put i
            (record {
              seq = if start == 0 then start + 1 else start;
              count = n % 2 ^ 32;
              applied = false;
              waits = 1;
              unsynced = 0;
            })
            s.batches;
      phase = put i (settling start) s.phase;
    }))

-- The end of the spin, the callback and the unlock.
unfoldable pub settle : ℕ → CommitPipeline → CommitPipeline
settle i s = record s { mu = none; phase = put i prepared s.phase }

-- ratchetSeqNum, all under the mutex.
unfoldable pub ratchet_seq_num : ℕ → CommitPipeline → CommitPipeline
ratchet_seq_num next s =
    let count = next - s.log_seq in
    if leb next s.log_seq
    then s
    else record s { log_seq = (s.log_seq + count) % 2 ^ 64; visible = next }

-- The goroutine has no batch between prepare and the return of Commit or AllocateSeqNum.
abbrev pub is_clear : Phase → Bool
is_clear idle = true
is_clear entered = true
is_clear invalid = true
is_clear returned = true
is_clear failed = false
is_clear prepared = false
is_clear (settling n) = false
is_clear publishing = false
is_clear (holding t) = false
is_clear (signalling t) = false
is_clear waiting = false

-- A step of a goroutine that has entered; the number bounds the sequence numbers it allocates.
-- ratchetSeqNum, which no commit calls, is a step of Reach.
pub data Advance (s : CommitPipeline) : ℕ → CommitPipeline → Type 0 where
  does_prepare :
      (i n : ℕ) (sync wrote : Bool) (t : CommitPipeline)
      → s.phase i ≡ entered
      → s.mu ≡ none
      → n < 2 ^ 32
      → prepare i n sync wrote s ≡ ok t
      → Advance s n t
  does_apply : (i : ℕ) (applied : Bool) → s.phase i ≡ prepared → Advance s 0 (apply i applied s)
  does_take :
      (i : ℕ) (t : CommitPipeline) → s.phase i ≡ publishing → take_batch i s ≡ ok t → Advance s 0 t
  does_ratchet : (i t : ℕ) → s.phase i ≡ holding t → Advance s 0 (ratchet i t s)
  does_signal :
      (i b : ℕ) (t : CommitPipeline)
      → s.phase i ≡ signalling b
      → signal i b s ≡ ok t
      → Advance s 0 t
  does_sync :
      (i : ℕ) (t : CommitPipeline)
      → 0 < (s.batches i).unsynced
      → sync_done i s ≡ ok t
      → Advance s 0 t
  does_leave : (i : ℕ) → s.phase i ≡ waiting → (s.batches i).waits ≡ 0 → Advance s 0 (leave i s)
  does_allocate :
      (i n : ℕ) (t : CommitPipeline)
      → s.phase i ≡ entered
      → s.mu ≡ none
      → n < 2 ^ 32
      → allocate i n s ≡ ok t
      → Advance s (n + 1) t
  does_settle : (i : ℕ) → s.phase i ≡ settling s.visible → Advance s 0 (settle i s)

-- An operation that panics where a goroutine calls it.
pub data Panics (s : CommitPipeline) : Type 0 where
  panics_prepare :
      (i n : ℕ) (sync wrote : Bool)
      → s.phase i ≡ entered
      → prepare i n sync wrote s ≡ panic
      → Panics s
  panics_allocate : (i n : ℕ) → s.phase i ≡ entered → allocate i n s ≡ panic → Panics s
  panics_take : (i : ℕ) → s.phase i ≡ publishing → take_batch i s ≡ panic → Panics s
  panics_signal : (i b : ℕ) → s.phase i ≡ signalling b → signal i b s ≡ panic → Panics s
  panics_sync : (i : ℕ) → 0 < (s.batches i).unsynced → sync_done i s ≡ panic → Panics s

-- What can be reached from a new pipeline; the number bounds the log sequence number. ratchetSeqNum
-- is called while no batch is between prepare and the return of its Commit: the source does not
-- check this, and the replay tool is its only caller.
pub data Reach (start : ℕ) : ℕ → CommitPipeline → Type 0 where
  begins : Reach start start (new_commit_pipeline start)
  enters :
      (n i : ℕ) (s : CommitPipeline)
      → Reach start n s
      → s.phase i ≡ idle
      → s.used < sync_concurrency - 1
      → Reach start n (enter i s)
  advances :
      (n k : ℕ) (s t : CommitPipeline) → Reach start n s → Advance s k t → Reach start (n + k) t
  ratchets :
      (n next : ℕ) (s : CommitPipeline)
      → Reach start n s
      → s.mu ≡ none
      → ((i : ℕ) → is_clear (s.phase i) ≡ true)
      → Reach start (n + (next - s.log_seq)) (ratchet_seq_num next s)
