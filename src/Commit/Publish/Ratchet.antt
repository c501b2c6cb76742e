-- ===== src/Commit/Publish/Ratchet.antt =====
-- The step of publish that raises the visible sequence number (commit.go).
use pebble.Prelude.{
  ℕ, ◌+◌, ◌%◌, ◌^◌, ◌≤◌, ◌<◌, ◌≡◌, refl, sym, ap, ◌∙◌, inl, inr, leb, if◌then◌else◌, arith,
}
use mathlib.Core.Path.{subst}
use native.Mathlib.Decide.{ℕ_discrete}
use pebble.Prelude.Family.{put, put_here, put_away, put-keeps}
use pebble.Commit.{settling, holding, signalling, returned, CommitPipeline, ratchet}
use pebble.Commit.Invariant.{stage, is_live, end_of, held_by, signal_by, Fits, IsRunning, after}
use pebble.Commit.Frames.{Fits-phase, Fits-mono, Chain-same, Chain-low}
use pebble.Commit.Moves.{HeadCared-put, put-before, mutex-put, still_live}
use pebble.Commit.Publish.{
  All-queued-put, holding_inj, signalling_inj, held_by_inj, absent, Fits-as,
}

module _ (s : CommitPipeline) (r : IsRunning s) (k : ℕ) where
  -- Publishing the number of the batch that the goroutine holds.
  pub ratchet-IsRunning :
      (t : ℕ) → s.phase k ≡ holding t → s.log_seq < 2 ^ 64 → IsRunning (ratchet k t s)
  unfolding ratchet
  ratchet-IsRunning t e small =
      let sits = r.holder k t e in
      let (q, w, l, c) = Fits-as s r k t (held_by k) sits in
      let high = Chain-low s.phase s.batches r.low s.log_seq r.pend r.chain in
      let next = ((s.batches t).seq + (s.batches t).count) % 2 ^ 64 in
      let visible = if leb next s.visible then s.visible else next in
      let up : s.visible ≤ visible = grind arith in
      let reach : next ≤ visible = grind arith in
      let exact : end_of (s.batches t) ≡ next = omega (arith, high, l, small) in
      let seen : end_of (s.batches t) ≤ visible = omega (arith, exact, reach) in
      let low : visible ≤ r.low = below next s.visible r.low (omega (arith, exact, l)) r.behind in
      let phase = put k (signalling t) s.phase in
      let place = put t (signal_by k) r.place in
      record {
        pend = r.pend;
        rest = r.rest;
        low = r.low;
        place = place;
        queue = r.queue;
        room = r.room;
        used_small = r.used_small;
        live = still_live s r k (signalling t) (ap is_live e);
        chain =
            Chain-same s.phase phase s.batches s.batches r.low s.log_seq r.pend
              (λ x m n d. (put-before s.phase k (signalling t) x (settling n) (λ h. cc) d).1)
              (λ x m. (refl, refl)) r.chain;
        behind = low;
        fits = λ i. elim (ℕ_discrete i t) [
          | yes d ↦
              subst (λ x. Fits phase (s.batches x) r.pend r.low visible x (place x)) (sym d)
                (subst (Fits phase (s.batches t) r.pend r.low visible t)
                  (sym (put_here t (signal_by k) r.place))
                  (put_here k (signalling t) s.phase, w, seen, after-put t c))
          | no n ↦
              subst (Fits phase (s.batches i) r.pend r.low visible i)
                (sym (put_away t (signal_by k) r.place i n))
                (Fits-mono phase (s.batches i) r.pend r.pend r.low r.low s.visible visible i
                  (r.place i) (λ m. m) (omega arith) up
                  (Fits-phase s.phase k (signalling t) (s.batches i) r.pend r.low s.visible i
                    (r.place i) (inr (sym (ap stage e))) (λ h. n (holding_inj (sym h ∙ e)))
                    (λ h. cc (e, h)) (r.fits i)))
        ];
        all_queued =
            All-queued-put r.place t (signal_by k) r.pend (absent s r k t (λ h. cc (sits, h)))
              r.all_queued;
        distinct = r.distinct;
        holder = λ j u d.
            let (n, f) = put-before s.phase k (signalling t) j (holding u) (λ x. cc) d in
            let h = r.holder j u f in
            put_away t (signal_by k) r.place u (λ x. n (held_by_inj (sym h ∙ ap r.place x ∙ sits)))
            ∙ h;
        signaller =
            put-keeps (λ j p. (u : ℕ) → p ≡ signalling u → place u ≡ signal_by j) k (signalling t)
              s.phase (λ u d. ap place (signalling_inj (sym d)) ∙ put_here t (signal_by k) r.place)
              (λ j n u d.
                put_away t (signal_by k) r.place u (λ x. cc (sits, r.signaller j u d, ap r.place x))
                ∙ r.signaller j u d);
        cared = HeadCared-put s.phase s.batches k (signalling t) r.pend (λ h. refl) r.cared;
        top = elim r.top [
          | inl h ↦ inl (omega (arith, h, up))
          | inr (j, u, f, d) ↦ elim (ℕ_discrete j k) [
            | yes x ↦
                let same : u ≡ t = holding_inj (sym f ∙ ap s.phase x ∙ e) in
                let g : end_of (s.batches t) ≡ r.low =
                  ap (λ z. end_of (s.batches z)) (sym same) ∙ d in
                inl (omega (arith, g, seen))
            | no n ↦ inr (j, u, put_away k (signalling t) s.phase j n ∙ f, d)
          ]
        ];
        mutex = mutex-put s.phase k (signalling t) s.mu (λ n h. cc (e, h)) r.mutex;
        ended = λ i d.
            let (n, f) = put-before s.phase k (signalling t) i returned (λ h. cc) d in
            omega (arith, r.ended i f, up);
        synced = r.synced;
      }
    where
      below : (a v l : ℕ) → a ≤ l → v ≤ l → (if leb a v then v else a) ≤ l
      below a v l h g = grind arith

      after-put :
          (t : ℕ) → stage (s.phase t) ≡ after → stage (put k (signalling t) s.phase t) ≡ after
      after-put t c =
          put-keeps (λ i p. stage (s.phase i) ≡ after → stage p ≡ after) k (signalling t) s.phase
            (λ h. refl) (λ i n h. h) t c
