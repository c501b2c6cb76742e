-- ===== src/Commit/Enqueue.antt =====
-- The steps of the commit pipeline (commit.go) that put a batch into the queue: prepare and
-- AllocateSeqNum.
use pebble.Prelude.{
  ℕ, ◌+◌, ◌-◌, ◌%◌, ◌^◌, ◌≤◌, ◌<◌, ◌≡◌, ◌≢◌, refl, sym, ap, ◌∙◌, inl, inr, Bool, Bool-cases, false,
  none, some, ◌∷◌, ◌==◌, if◌then◌else◌, arith,
}
use mathlib.Core.Path.{subst}
use pebble.Prelude.Family.{put, put_here}
use pebble.Prelude.Outcome.{ok, panic}
use pebble.Commit.Queue.{enqueue-IsQueue}
use pebble.Commit.{
  entered, invalid, failed, prepared, settling, CommitBatch, CommitPipeline, invalid_batch_count,
  prepare, allocate,
}
use pebble.Commit.Invariant.{IsRunning, IsNext}
use pebble.Commit.Moves.{invalid-IsRunning}
use pebble.Commit.Queued.{
  zero_of, if-true, if-false, ok_ne_panic, settling_inj, some_inj, has_room, queued-IsRunning,
}

module _ (s : CommitPipeline) (r : IsRunning s) (k : ℕ) (e : s.phase k ≡ entered) where
  -- prepare goes on, with an error or with the batch in the queue.
  pub prepare-IsRunning :
      (n : ℕ) (sync wrote : Bool)
      → s.mu ≡ none
      → s.log_seq + n < 2 ^ 64
      → (t : CommitPipeline) × (prepare k n sync wrote s ≡ ok t)
        × IsRunning t
        × (t.log_seq ≤ s.log_seq + n)
  unfolding prepare
  prepare-IsRunning n sync wrote mu small = elim (Bool-cases (n == invalid_batch_count)) [
    | inl c ↦ (
      record s { phase = put k invalid s.phase },
      rw c refl,
      invalid-IsRunning s r k e,
      omega arith,
    )
    | inr c ↦
        let (q, d, iq) = enqueue-IsQueue k s.queue r.pend r.queue (has_room s r k e) in
        let next = (s.log_seq + n) % 2 ^ 64 in
        let seq = (next + 2 ^ 64 - n) % 2 ^ 64 in
        let syncs = if sync then 1 else 0 in
        let b : CommitBatch = record {
          seq = seq;
          count = n;
          applied = false;
          waits = 1 + syncs;
          unsynced = syncs;
        } in
        let wal = if wrote then seq ∷ s.wal else s.wal in
        (
          record s {
            queue = q;
            log_seq = next;
            wal = wal;
            batches = put k b s.batches;
            phase = put k (if wrote then prepared else failed) s.phase;
          },
          rw (c, d) refl,
          elim (Bool-cases wrote) [
            | inl w ↦ rw w (
                queued-IsRunning s r k e prepared b q s.mu (seq ∷ s.wal) next (omega arith) refl
                  refl (λ t h. cc, λ t h. cc) (λ t h. cc) refl (omega arith) (inl (omega arith)) iq
                  (λ j h. cc (h, mu)))
            | inr w ↦ rw w (
                queued-IsRunning s r k e failed b q s.mu s.wal next (omega arith) refl refl
                  (λ t h. cc, λ t h. cc) (λ t h. cc) refl (omega arith) (inl (omega arith)) iq
                  (λ j h. cc (h, mu)))
          ],
          omega arith,
        )
  ]

  pub prepare-ne_panic : (n : ℕ) (sync wrote : Bool) → prepare k n sync wrote s ≢ panic
  unfolding prepare
  prepare-ne_panic n sync wrote p =
      let (q, d, iq) = enqueue-IsQueue k s.queue r.pend r.queue (has_room s r k e) in
      elim (Bool-cases (n == invalid_batch_count)) [
        | inl c ↦ ok_ne_panic _ (rw c at p)
        | inr c ↦ ok_ne_panic _ (rw (c, d) at p)
      ]

  pub allocate-ne_panic : (n : ℕ) → allocate k n s ≢ panic
  unfolding allocate
  allocate-ne_panic n p =
      let (q, d, iq) = enqueue-IsQueue k s.queue r.pend r.queue (has_room s r k e) in
      ok_ne_panic _ (rw d at p)

  pub allocate-IsRunning :
      (n : ℕ)
      → s.mu ≡ none
      → n < 2 ^ 32
      → s.log_seq + (n + 1) < 2 ^ 64
      → (t : CommitPipeline) × (allocate k n s ≡ ok t)
        × IsRunning t
        × (t.log_seq ≤ s.log_seq + (n + 1))
  unfolding allocate
  allocate-IsRunning n mu few small =
      let (q, d, iq) = enqueue-IsQueue k s.queue r.pend r.queue (has_room s r k e) in
      let next = (s.log_seq + n) % 2 ^ 64 in
      let start = (next + 2 ^ 64 - n) % 2 ^ 64 in
      let log = if start == 0 then (next + 1) % 2 ^ 64 else next in
      let seq = if start == 0 then start + 1 else start in
      let b : CommitBatch = record {
        seq = seq;
        count = n % 2 ^ 32;
        applied = false;
        waits = 1;
        unsynced = 0;
      } in
      let same : start ≡ s.log_seq = omega arith in
      let ends : seq + n % 2 ^ 32 ≡ log = grind arith in
      let follows : IsNext s.log_seq seq = elim (Bool-cases (start == 0)) [
        | inl z ↦ inr (
          sym same ∙ zero_of start z,
          if-true (start == 0) (start + 1) start z ∙ ap (λ x. x + 1) (zero_of start z),
        )
        | inr z ↦ inl (if-false (start == 0) (start + 1) start z ∙ same)
      ] in
      (
        record s {
          queue = q;
          log_seq = log;
          mu = some k;
          batches = put k b s.batches;
          phase = put k (settling start) s.phase;
        },
        rw d refl,
        queued-IsRunning s r k e (settling start) b q (some k) s.wal log ends refl refl
            (λ t h. cc, λ t h. cc) (λ t h. settling_inj (sym h) ∙ same) refl refl follows iq
            (λ j h. (
              start,
              subst (λ x. put k (settling start) s.phase x ≡ settling start) (some_inj h)
                  (put_here k (settling start) s.phase),
            )),
        grind arith,
      )
