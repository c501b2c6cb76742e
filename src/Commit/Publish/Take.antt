-- ===== src/Commit/Publish/Take.antt =====
-- The step of publish that dequeues a batch (commit.go).
use pebble.Prelude.{
  ℕ, ◌≤◌, ◌≡◌, ◌⊎◌, refl, sym, ap, ◌∙◌, inl, inr, true, false, List, [], ◌∷◌, length, All, All-at,
  Among, arith,
}
use mathlib.Core.Path.{subst}
use native.Mathlib.Decide.{ℕ_discrete}
use pebble.Prelude.Family.{put, put_here, put_away, put-keeps}
use pebble.Commit.Queue.{IsQueue, CommitQueue}
use pebble.Commit.{settling, publishing, holding, signalling, returned, CommitPipeline}
use pebble.Commit.Invariant.{
  stage, is_live, is_publishing, end_of, queued, held_by, Fits, Chain, Distinct, HeadCared,
  IsRunning, unapplied, after,
}
use pebble.Commit.Frames.{Fits-phase, Fits-mono, Chain-same}
use pebble.Commit.Moves.{put-before, mutex-put, still_live}
use pebble.Commit.Publish.{All-queued-put, holding_inj, Fits-as}

module _ (s : CommitPipeline) (r : IsRunning s) (k : ℕ) where
  pub take_some :
      (x : ℕ) (xs : List ℕ) (q : CommitQueue)
      → s.phase k ≡ publishing
      → r.pend ≡ x ∷ xs
      → (s.batches x).applied ≡ true
      → IsQueue q xs
      → IsRunning (record s { queue = q; phase = put k (holding x) s.phase })
  take_some x xs q e pe a iq =
      let sits : r.place x ≡ queued =
        All-at (λ i. r.place i ≡ queued) x r.pend r.all_queued
          (subst (Among x) (sym pe) (inl refl)) in
      let (m, w, st) = Fits-as s r k x queued sits in
      let ch = subst (λ p. Chain s.phase s.batches r.low p s.log_seq) pe r.chain in
      let dis = subst Distinct pe r.distinct in
      let all = subst (All (λ i. r.place i ≡ queued)) pe r.all_queued in
      let first : r.low ≤ (s.batches x).seq = elim (ch.0) [
        | inl p ↦ omega (arith, p)
        | inr (p, z) ↦ omega (arith, p)
      ] in
      let phase = put k (holding x) s.phase in
      let place = put x (held_by k) r.place in
      let low = end_of (s.batches x) in
      record {
        pend = xs;
        rest = x ∷ r.rest;
        low = low;
        place = place;
        queue = iq;
        room = omega (arith, r.room, ap length pe);
        used_small = r.used_small;
        live = λ i h. elim (still_live s r k (holding x) (ap is_live e) i h) [
          | inl p ↦ elim (subst (Among i) pe p) [ inl z ↦ inr (inl z) | inr z ↦ inl z ]
          | inr p ↦ inr (inr p)
        ];
        chain =
            Chain-same s.phase phase s.batches s.batches low s.log_seq xs
              (λ y n v d. (put-before s.phase k (holding x) y (settling v) (λ h. cc) d).1)
              (λ y n. (refl, refl)) (ch.2);
        behind = omega (arith, r.behind, first);
        fits = λ i. elim (ℕ_discrete i x) [
          | yes d ↦
              subst (λ y. Fits phase (s.batches y) xs low s.visible y (place y)) (sym d)
                (subst (Fits phase (s.batches x) xs low s.visible x)
                  (sym (put_here x (held_by k) r.place))
                  (put_here k (holding x) s.phase, w, omega arith, after-put x (was_after x a st)))
          | no n ↦
              subst (Fits phase (s.batches i) xs low s.visible i)
                (sym (put_away x (held_by k) r.place i n))
                (Fits-mono phase (s.batches i) r.pend xs r.low low s.visible s.visible i (r.place i)
                  (λ p. elim (subst (Among i) pe p) [ inl z ↦ absurd (n z) | inr z ↦ z ])
                  (omega (arith, first)) (omega arith)
                  (Fits-phase s.phase k (holding x) (s.batches i) r.pend r.low s.visible i
                    (r.place i) (inr (sym (ap stage e))) (λ h. cc (e, h)) (λ h. cc (e, h))
                    (r.fits i)))
        ];
        all_queued = All-queued-put r.place x (held_by k) xs (dis.0) (all.1);
        distinct = dis.1;
        holder =
            put-keeps (λ j p. (u : ℕ) → p ≡ holding u → place u ≡ held_by j) k (holding x) s.phase
              (λ u d. ap place (holding_inj (sym d)) ∙ put_here x (held_by k) r.place)
              (λ j n u d.
                put_away x (held_by k) r.place u (λ z. cc (sits, r.holder j u d, ap r.place z))
                ∙ r.holder j u d);
        signaller = λ j u d.
            let h =
              r.signaller j u ((put-before s.phase k (holding x) j (signalling u) (λ z. cc) d).1) in
            put_away x (held_by k) r.place u (λ z. cc (sits, h, ap r.place z)) ∙ h;
        cared = cared_by xs;
        top = inr (k, x, put_here k (holding x) s.phase, refl);
        mutex = mutex-put s.phase k (holding x) s.mu (λ n h. cc (e, h)) r.mutex;
        ended = λ i d.
            let (n, f) = put-before s.phase k (holding x) i returned (λ h. cc) d in r.ended i f;
        synced = r.synced;
      }
    where
      cared_by : (pend : List ℕ) → HeadCared (put k (holding x) s.phase) s.batches pend
      cared_by [] = tt
      cared_by (y ∷ ys) = λ b. (k, ap is_publishing (put_here k (holding x) s.phase))

      after-put : (t : ℕ) → stage (s.phase t) ≡ after → stage (put k (holding x) s.phase t) ≡ after
      after-put t c =
          put-keeps (λ i p. stage (s.phase i) ≡ after → stage p ≡ after) k (holding x) s.phase
            (λ h. refl) (λ i n h. h) t c

      was_after :
          (x : ℕ)
          → (s.batches x).applied ≡ true
          → ((stage (s.phase x) ≡ unapplied) × ((s.batches x).applied ≡ false))
            ⊎ ((stage (s.phase x) ≡ after) × ((s.batches x).applied ≡ true))
          → stage (s.phase x) ≡ after
      was_after x a (inl (c, d)) = absurd (cc (a, d))
      was_after x a (inr (c, d)) = c
