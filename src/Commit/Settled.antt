-- ===== src/Commit/Settled.antt =====
-- The commit pipeline (commit.go) while no batch is between prepare and the return of its Commit, and
-- ratchetSeqNum there.
use pebble.Prelude.{
  ℕ, ◌+◌, ◌-◌, ◌%◌, ◌^◌, ◌≤◌, ◌<◌, ◌≡◌, refl, sym, ap, inl, inr, Bool-cases, true, List, [], ◌∷◌,
  leb, All-at, Among, arith,
}
use mathlib.Core.Path.{subst}
use pebble.Commit.{
  Phase, idle, entered, invalid, failed, prepared, settling, publishing, holding, signalling,
  waiting, returned, CommitPipeline, is_clear, ratchet_seq_num,
}
use pebble.Commit.Invariant.{
  stage, is_publishing, queued, Fits, Chain, HeadCared, IsRunning, unapplied,
}
use pebble.Commit.Frames.{Fits-mono}

clear-ne-unapplied : (p : Phase) → is_clear p ≡ true → stage p ≡ unapplied → ⊥
clear-ne-unapplied idle c e = cc
clear-ne-unapplied entered c e = cc
clear-ne-unapplied invalid c e = cc
clear-ne-unapplied returned c e = cc
clear-ne-unapplied failed c e = cc
clear-ne-unapplied prepared c e = cc
clear-ne-unapplied (settling n) c e = cc
clear-ne-unapplied publishing c e = cc
clear-ne-unapplied (holding t) c e = cc
clear-ne-unapplied (signalling t) c e = cc
clear-ne-unapplied waiting c e = cc

clear-ne-publishing : (p : Phase) → is_clear p ≡ true → is_publishing p ≡ true → ⊥
clear-ne-publishing idle c e = cc
clear-ne-publishing entered c e = cc
clear-ne-publishing invalid c e = cc
clear-ne-publishing returned c e = cc
clear-ne-publishing failed c e = cc
clear-ne-publishing prepared c e = cc
clear-ne-publishing (settling n) c e = cc
clear-ne-publishing publishing c e = cc
clear-ne-publishing (holding t) c e = cc
clear-ne-publishing (signalling t) c e = cc
clear-ne-publishing waiting c e = cc

module _ (s : CommitPipeline) (r : IsRunning s)
    (clear : (i : ℕ) → is_clear (s.phase i) ≡ true) where
  pending-empty : r.pend ≡ []
  pending-empty = go r.pend refl
    where
      go : (pend : List ℕ) → r.pend ≡ pend → r.pend ≡ []
      go [] pe = pe
      go (x ∷ xs) pe =
          let place : r.place x ≡ queued =
            All-at (λ i. r.place i ≡ queued) x r.pend r.all_queued
              (subst (Among x) (sym pe) (inl refl)) in
          let (m, w, st) =
            subst (Fits s.phase (s.batches x) r.pend r.low s.visible x) place (r.fits x) in
          let cared = subst (HeadCared s.phase s.batches) pe r.cared in
          elim st [
            | inl (c, a) ↦ absurd (clear-ne-unapplied (s.phase x) (clear x) c)
            | inr (c, a) ↦
                let (j, p) = cared a in absurd (clear-ne-publishing (s.phase j) (clear j) p)
          ]

  low-log : r.low ≡ s.log_seq
  low-log = subst (λ p. Chain s.phase s.batches r.low p s.log_seq) pending-empty r.chain

  pub settled : s.visible ≡ s.log_seq
  settled = elim r.top [
    | inl t ↦ omega (arith, t, r.behind, low-log)
    | inr (j, t, d, g) ↦ absurd (clear-ne-publishing (s.phase j) (clear j) (ap is_publishing d))
  ]

  raised-IsRunning :
      (next : ℕ) → s.log_seq < next → IsRunning (record s { log_seq = next; visible = next })
  raised-IsRunning next up =
      let low_up : r.low ≤ next = omega (arith, low-log, up) in
      let visible_up : s.visible ≤ next = omega (arith, settled, up) in
      record {
        pend = r.pend;
        rest = r.rest;
        low = next;
        place = r.place;
        queue = r.queue;
        room = r.room;
        used_small = r.used_small;
        live = r.live;
        chain = subst (λ p. Chain s.phase s.batches next p next) (sym pending-empty) refl;
        behind = omega arith;
        fits = λ i.
            Fits-mono s.phase (s.batches i) r.pend r.pend r.low next s.visible next i (r.place i)
              (λ m. m) low_up visible_up (r.fits i);
        all_queued = r.all_queued;
        distinct = r.distinct;
        holder = r.holder;
        signaller = r.signaller;
        cared = r.cared;
        top = inl (omega arith);
        mutex = r.mutex;
        ended = λ i h. omega (arith, r.ended i h, visible_up);
        synced = r.synced;
      }

  -- ratchetSeqNum keeps the invariant.
  pub ratchet_seq_num-IsRunning :
      (n next : ℕ)
      → s.log_seq ≤ n
      → n + (next - s.log_seq) < 2 ^ 64
      → IsRunning (ratchet_seq_num next s)
        × ((ratchet_seq_num next s).log_seq ≤ n + (next - s.log_seq))
  unfolding ratchet_seq_num
  ratchet_seq_num-IsRunning n next l b = elim (Bool-cases (leb next s.log_seq)) [
    | inl c ↦ rw c (r, omega (arith, l))
    | inr c ↦
        let up : s.log_seq < next = ground arith in
        let same : next ≡ (s.log_seq + (next - s.log_seq)) % 2 ^ 64 = omega (arith, up, l, b) in
        rw c (
          subst (λ x. IsRunning (record s { log_seq = x; visible = next })) same
              (raised-IsRunning next up),
          omega (arith, same, up, l),
        )
  ]
