-- ===== src/Commit/Publish/Apply.antt =====
-- The step from apply to publish, which marks the batch (commit.go).
use pebble.Prelude.{ℕ, ◌≤◌, ◌≡◌, refl, sym, ap, inl, inr, true, List, [], ◌∷◌, arith}
use mathlib.Core.Path.{subst}
use pebble.Prelude.Family.{put, put_here, put_away, put-keeps}
use pebble.Commit.{
  prepared, settling, publishing, holding, signalling, returned, CommitBatch, CommitPipeline, apply,
}
use pebble.Commit.Invariant.{
  stage, is_live, is_publishing, end_of, queued, Fits, HeadCared, IsRunning,
}
use pebble.Commit.Frames.{Fits-phase, Chain-same}
use pebble.Commit.Moves.{IsTop-put, put-before, mutex-put, still_live}
use pebble.Commit.Publish.{same-put, IsTop-same, unapplied_queued, Fits-as}

module _ (s : CommitPipeline) (r : IsRunning s) (k : ℕ) where
  pub applied-IsRunning : s.phase k ≡ prepared → IsRunning (apply k true s)
  unfolding apply
  applied-IsRunning e =
      let (m, w, c) = Fits-as s r k k queued (unapplied_queued s r k (ap stage e)) in
      let b : CommitBatch = record (s.batches k) { applied = true } in
      let phase = put k publishing s.phase in
      record {
        pend = r.pend;
        rest = r.rest;
        low = r.low;
        place = r.place;
        queue = r.queue;
        room = r.room;
        used_small = r.used_small;
        live = still_live s r k publishing (ap is_live e);
        chain =
            Chain-same s.phase phase s.batches (put k b s.batches) r.low s.log_seq r.pend
              (λ x m n d. (put-before s.phase k publishing x (settling n) (λ h. cc) d).1)
              (λ x m.
                same-put (λ c d. (c.seq ≡ d.seq) × (c.count ≡ d.count)) k b s.batches (refl, refl)
                  (λ c. (refl, refl)) x)
              r.chain;
        behind = r.behind;
        fits =
            put-keeps (λ i c. Fits phase c r.pend r.low s.visible i (r.place i)) k b s.batches
              (subst (Fits phase b r.pend r.low s.visible k)
                (sym (unapplied_queued s r k (ap stage e)))
                (m, w, inr (ap stage (put_here k publishing s.phase), refl)))
              (λ i n.
                Fits-phase s.phase k publishing (s.batches i) r.pend r.low s.visible i (r.place i)
                  (inl n) (λ h. cc (e, h)) (λ h. cc (e, h)) (r.fits i));
        all_queued = r.all_queued;
        distinct = r.distinct;
        holder =
            λ j t d. r.holder j t ((put-before s.phase k publishing j (holding t) (λ h. cc) d).1);
        signaller = λ j t d.
            r.signaller j t ((put-before s.phase k publishing j (signalling t) (λ h. cc) d).1);
        cared = cared_by r.pend;
        top =
            IsTop-same phase s.batches (put k b s.batches) r.low s.visible
              (same-put (λ c d. end_of c ≡ end_of d) k b s.batches refl (λ c. refl))
              (IsTop-put s.phase s.batches r.low s.visible k publishing (λ t h. cc (e, h)) r.top);
        mutex = mutex-put s.phase k publishing s.mu (λ n h. cc (e, h)) r.mutex;
        ended = λ i d.
            let (n, f) = put-before s.phase k publishing i returned (λ h. cc) d in
            omega (arith, r.ended i f, ap end_of (put_away k b s.batches i n));
        synced =
            put-keeps (λ i c. c.unsynced ≤ c.waits) k b s.batches (r.synced k) (λ i n. r.synced i);
      }
    where
      cared_by :
          (pend : List ℕ)
          → HeadCared
              (put k publishing s.phase)
              (put k (record (s.batches k) { applied = true }) s.batches)
              pend
      cared_by [] = tt
      cared_by (x ∷ xs) = λ a. (k, ap is_publishing (put_here k publishing s.phase))
