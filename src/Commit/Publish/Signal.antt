-- ===== src/Commit/Publish/Signal.antt =====
-- The steps that count down the WaitGroup of a batch (commit.go).
use pebble.Prelude.{
  ℕ, suc, ◌-◌, ◌≤◌, ◌<◌, ◌≡◌, ◌≢◌, refl, sym, ap, ◌∙◌, inl, inr, false, ◌==◌, arith,
}
use mathlib.Core.Path.{subst}
use pebble.Prelude.Family.{put, put_here, put_away, put-keeps}
use pebble.Prelude.Outcome.{ok}
use pebble.Commit.{
  settling, publishing, holding, signalling, returned, CommitBatch, CommitPipeline, signal,
  sync_done,
}
use pebble.Commit.Invariant.{
  stage, is_live, end_of, Place, unqueued, queued, held_by, signal_by, spent, Fits, IsRunning,
  after,
}
use pebble.Commit.Frames.{Fits-phase, Chain-same}
use pebble.Commit.Moves.{HeadCared-put, IsTop-put, put-before, mutex-put, still_live}
use pebble.Commit.Publish.{
  same-put, All-queued-put, HeadCared-same, IsTop-same, signalling_inj, signal_by_inj, absent,
  Fits-as,
}

module _ (s : CommitPipeline) (r : IsRunning s) (k : ℕ) where
  -- Done of the goroutine that published batch `t` finds a count above zero.
  pub signal-IsRunning :
      (t : ℕ)
      → s.phase k ≡ signalling t
      → (u : CommitPipeline) × (signal k t s ≡ ok u) × IsRunning u
  unfolding signal
  signal-IsRunning t e =
      let sits = r.signaller k t e in
      let (q, w, l, c) = Fits-as s r k t (signal_by k) sits in
      let b : CommitBatch = record (s.batches t) { waits = (s.batches t).waits - 1 } in
      let batches = put t b s.batches in
      let phase = put k publishing s.phase in
      let place = put t spent r.place in
      let left : b.waits ≡ b.unsynced = omega (arith, w) in
      let away : (j u : ℕ) → r.place u ≡ held_by j → u ≢ t =
        λ j u h d. cc (sits, h, ap r.place d) in
      (
        record s { batches = batches; phase = phase },
        rw (some_left t w) refl,
        record {
          pend = r.pend;
          rest = r.rest;
          low = r.low;
          place = place;
          queue = r.queue;
          room = r.room;
          used_small = r.used_small;
          live = still_live s r k publishing (ap is_live e);
          chain =
              Chain-same s.phase phase s.batches batches r.low s.log_seq r.pend
                (λ x m n d. (put-before s.phase k publishing x (settling n) (λ h. cc) d).1)
                (λ x m.
                  same-put (λ c d. (c.seq ≡ d.seq) × (c.count ≡ d.count)) t b s.batches (refl, refl)
                    (λ c. (refl, refl)) x)
                r.chain;
          behind = r.behind;
          fits =
              put-keeps (λ i c. Fits phase c r.pend r.low s.visible i (place i)) t b s.batches
                (subst (Fits phase b r.pend r.low s.visible t) (sym (put_here t spent r.place))
                  (left, l, after-put t c))
                (λ i n.
                  subst (Fits phase (s.batches i) r.pend r.low s.visible i)
                    (sym (put_away t spent r.place i n))
                    (Fits-phase s.phase k publishing (s.batches i) r.pend r.low s.visible i
                      (r.place i) (inr (sym (ap stage e))) (λ h. cc (e, h))
                      (λ h. n (signalling_inj (sym h ∙ e))) (r.fits i)));
          all_queued =
              All-queued-put r.place t spent r.pend (absent s r k t (λ h. cc (sits, h)))
                r.all_queued;
          distinct = r.distinct;
          holder = λ j u d.
              let h =
                r.holder j u ((put-before s.phase k publishing j (holding u) (λ x. cc) d).1) in
              put_away t spent r.place u (away j u h) ∙ h;
          signaller = λ j u d.
              let (n, f) = put-before s.phase k publishing j (signalling u) (λ x. cc) d in
              let h = r.signaller j u f in
              put_away t spent r.place u (λ x. n (signal_by_inj (sym h ∙ ap r.place x ∙ sits))) ∙ h;
          cared =
              HeadCared-same phase s.batches batches r.pend
                (same-put (λ c d. c.applied ≡ d.applied) t b s.batches refl (λ c. refl))
                (HeadCared-put s.phase s.batches k publishing r.pend (λ h. refl) r.cared);
          top =
              IsTop-same phase s.batches batches r.low s.visible
                (same-put (λ c d. end_of c ≡ end_of d) t b s.batches refl (λ c. refl))
                (IsTop-put s.phase s.batches r.low s.visible k publishing (λ u h. cc (e, h)) r.top);
          mutex = mutex-put s.phase k publishing s.mu (λ n h. cc (e, h)) r.mutex;
          ended = λ i d.
              let (n, f) = put-before s.phase k publishing i returned (λ h. cc) d in
              omega (
                arith,
                r.ended i f,
                same-put (λ c d. end_of c ≡ end_of d) t b s.batches refl (λ c. refl) i,
              );
          synced =
              put-keeps (λ i c. c.unsynced ≤ c.waits) t b s.batches (omega (arith, left))
                (λ i n. r.synced i);
        },
      )
    where
      some_left :
          (t : ℕ)
          → (s.batches t).waits ≡ suc (s.batches t).unsynced
          → ((s.batches t).waits == 0) ≡ false
      some_left t w = grind arith

      after-put : (t : ℕ) → stage (s.phase t) ≡ after → stage (put k publishing s.phase t) ≡ after
      after-put t c =
          put-keeps (λ i p. stage (s.phase i) ≡ after → stage p ≡ after) k publishing s.phase
            (λ h. refl) (λ i n h. h) t c

  -- What the log writer's Done leaves of the place of a batch.
  Fits-synced :
      (t : ℕ) (b : CommitBatch) (at_place : Place)
      → b.seq ≡ (s.batches t).seq
      → b.count ≡ (s.batches t).count
      → b.applied ≡ (s.batches t).applied
      → suc b.waits ≡ (s.batches t).waits
      → suc b.unsynced ≡ (s.batches t).unsynced
      → Fits s.phase (s.batches t) r.pend r.low s.visible t at_place
      → Fits s.phase b r.pend r.low s.visible t at_place
  Fits-synced t b unqueued sq ct ad w u f = f
  Fits-synced t b queued sq ct ad w u (m, h, inl (c, d)) =
      (m, omega (arith, w, u, h), inl (c, ad ∙ d))
  Fits-synced t b queued sq ct ad w u (m, h, inr (c, d)) =
      (m, omega (arith, w, u, h), inr (c, ad ∙ d))
  Fits-synced t b (held_by j) sq ct ad w u (p, h, l, c) =
      (p, omega (arith, w, u, h), omega (arith, sq, ct, l), c)
  Fits-synced t b (signal_by j) sq ct ad w u (p, h, l, c) =
      (p, omega (arith, w, u, h), omega (arith, sq, ct, l), c)
  Fits-synced t b spent sq ct ad w u (h, l, c) =
      (omega (arith, w, u, h), omega (arith, sq, ct, l), c)

  pub sync_done-IsRunning :
      0 < (s.batches k).unsynced → (u : CommitPipeline) × (sync_done k s ≡ ok u) × IsRunning u
  unfolding sync_done
  sync_done-IsRunning e =
      let b : CommitBatch = record (s.batches k) {
        waits = (s.batches k).waits - 1;
        unsynced = (s.batches k).unsynced - 1;
      } in
      let batches = put k b s.batches in
      (
        record s { batches = batches },
        rw (some_left) refl,
        record {
          pend = r.pend;
          rest = r.rest;
          low = r.low;
          place = r.place;
          queue = r.queue;
          room = r.room;
          used_small = r.used_small;
          live = r.live;
          chain =
              Chain-same s.phase s.phase s.batches batches r.low s.log_seq r.pend (λ x m n d. d)
                (λ x m.
                  same-put (λ c d. (c.seq ≡ d.seq) × (c.count ≡ d.count)) k b s.batches (refl, refl)
                    (λ c. (refl, refl)) x)
                r.chain;
          behind = r.behind;
          fits =
              put-keeps (λ i c. Fits s.phase c r.pend r.low s.visible i (r.place i)) k b s.batches
                (Fits-synced k b (r.place k) refl refl refl (omega (arith, e, r.synced k))
                  (omega (arith, e)) (r.fits k))
                (λ i n. r.fits i);
          all_queued = r.all_queued;
          distinct = r.distinct;
          holder = r.holder;
          signaller = r.signaller;
          cared =
              HeadCared-same s.phase s.batches batches r.pend
                (same-put (λ c d. c.applied ≡ d.applied) k b s.batches refl (λ c. refl)) r.cared;
          top =
              IsTop-same s.phase s.batches batches r.low s.visible
                (same-put (λ c d. end_of c ≡ end_of d) k b s.batches refl (λ c. refl)) r.top;
          mutex = r.mutex;
          ended = λ i d. omega (
            arith,
            r.ended i d,
            same-put (λ c d. end_of c ≡ end_of d) k b s.batches refl (λ c. refl) i,
          );
          synced =
              put-keeps (λ i c. c.unsynced ≤ c.waits) k b s.batches (omega (arith, e, r.synced k))
                (λ i n. r.synced i);
        },
      )
    where
      some_left : ((s.batches k).waits == 0) ≡ false
      some_left = let h = r.synced k in grind arith
