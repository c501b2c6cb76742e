-- ===== src/Commit/Moves.antt =====
-- Steps of the commit pipeline (commit.go) that change the phase of one goroutine and no batch.
use pebble.Prelude.{
  ℕ, suc, ◌+◌, ◌-◌, ◌≤◌, ◌<◌, ◌≡◌, ◌≢◌, ◌⊎◌, refl, sym, ap, ◌∙◌, inl, inr, true, Option, none, some,
  List, [], ◌∷◌, length, All-at, Among, arith,
}
use native.Mathlib.Decide.{ℕ_discrete}
use pebble.Prelude.Family.{put, put_here, put_away, put-keeps}
use pebble.Commit.Queue.{sync_concurrency}
use pebble.Commit.{
  Phase, idle, entered, invalid, failed, prepared, settling, publishing, holding, signalling,
  waiting, returned, CommitBatch, CommitPipeline, enter, leave, settle,
}
use pebble.Commit.Invariant.{
  stage, is_live, is_publishing, end_of, Place, unqueued, queued, held_by, signal_by, spent, Fits,
  HeadCared, IsTop, IsRunning, after,
}
use pebble.Commit.Frames.{Fits-phase, Chain-same, Among-remove, live-put}

-- The goroutine has no dequeued batch.
abbrev pub IsQuiet : Phase → Type 0
IsQuiet p = ((t : ℕ) → p ≢ holding t) × ((t : ℕ) → p ≢ signalling t)

pub HeadCared-put :
    (phase : ℕ → Phase) (batches : ℕ → CommitBatch) (k : ℕ) (p : Phase) (pend : List ℕ)
    → (is_publishing (phase k) ≡ true → is_publishing p ≡ true)
    → HeadCared phase batches pend
    → HeadCared (put k p phase) batches pend
HeadCared-put phase batches k p [] f h = tt
HeadCared-put phase batches k p (x ∷ xs) f h = λ a.
    let (j, e) = h a in
    elim (ℕ_discrete j k) [
      | yes d ↦ (
        k,
        ap is_publishing (put_here k p phase) ∙ f (ap (λ z. is_publishing (phase z)) (sym d) ∙ e),
      )
      | no n ↦ (j, ap is_publishing (put_away k p phase j n) ∙ e)
    ]

pub IsTop-put :
    (phase : ℕ → Phase) (batches : ℕ → CommitBatch) (low visible k : ℕ) (p : Phase)
    → ((t : ℕ) → phase k ≢ holding t)
    → IsTop phase batches low visible
    → IsTop (put k p phase) batches low visible
IsTop-put phase batches low visible k p h (inl l) = inl l
IsTop-put phase batches low visible k p h (inr (j, t, e, d)) =
    inr (j, t, put_away k p phase j (λ x. h t (sym (ap phase x) ∙ e)) ∙ e, d)

-- Who comes to hold a batch held it before, if the new phase holds none.
pub put-before :
    (phase : ℕ → Phase) (k : ℕ) (p : Phase) (j : ℕ) (q : Phase)
    → p ≢ q
    → put k p phase j ≡ q
    → (j ≢ k) × (phase j ≡ q)
put-before phase k p j q h e = elim (ℕ_discrete j k) [
  | yes d ↦ absurd (h (sym (put_here k p phase) ∙ ap (put k p phase) (sym d) ∙ e))
  | no n ↦ (n, sym (put_away k p phase j n) ∙ e)
]

pub mutex-put :
    (phase : ℕ → Phase) (k : ℕ) (p : Phase) (mu : Option ℕ)
    → ((n : ℕ) → phase k ≢ settling n)
    → ((j : ℕ) → mu ≡ some j → (n : ℕ) × (phase j ≡ settling n))
    → (j : ℕ) → mu ≡ some j
    → (n : ℕ) × (put k p phase j ≡ settling n)
mutex-put phase k p mu h f j e =
    let (n, d) = f j e in (n, put_away k p phase j (λ x. h n (sym (ap phase x) ∙ d)) ∙ d)

module _ (s : CommitPipeline) (r : IsRunning s) (k : ℕ) (p : Phase) where
  pub move-IsRunning :
      (used : ℕ) (mu : Option ℕ) (rest : List ℕ)
      → stage p ≡ stage (s.phase k)
      → IsQuiet (s.phase k)
      → IsQuiet p
      → ((n : ℕ) → p ≢ settling n)
      → (length r.pend + length rest ≡ used) × (suc used ≤ sync_concurrency)
      → ((i : ℕ) → is_live (put k p s.phase i) ≡ true → Among i r.pend ⊎ Among i rest)
      → HeadCared (put k p s.phase) s.batches r.pend
      → (p ≡ returned → end_of (s.batches k) ≤ s.visible)
      → ((j : ℕ) → mu ≡ some j → (n : ℕ) × (put k p s.phase j ≡ settling n))
      → IsRunning (record s { used = used; mu = mu; phase = put k p s.phase })
  move-IsRunning used mu rest same (hold, sign) (hold', sign') settles (room, small) live cared done
        mutex =
      record {
        pend = r.pend;
        rest = rest;
        low = r.low;
        place = r.place;
        queue = r.queue;
        room = room;
        used_small = small;
        live = live;
        chain =
            Chain-same s.phase (put k p s.phase) s.batches s.batches r.low s.log_seq r.pend
              (λ x m n e. (put-before s.phase k p x (settling n) (settles n) e).1)
              (λ x m. (refl, refl)) r.chain;
        behind = r.behind;
        fits = λ i.
            Fits-phase s.phase k p (s.batches i) r.pend r.low s.visible i (r.place i) (inr same)
              (hold i) (sign i) (r.fits i);
        all_queued = r.all_queued;
        distinct = r.distinct;
        holder = λ j t e. r.holder j t ((put-before s.phase k p j (holding t) (hold' t) e).1);
        signaller =
            λ j t e. r.signaller j t ((put-before s.phase k p j (signalling t) (sign' t) e).1);
        cared = cared;
        top = IsTop-put s.phase s.batches r.low s.visible k p hold r.top;
        mutex = mutex;
        ended =
            put-keeps (λ i q. q ≡ returned → end_of (s.batches i) ≤ s.visible) k p s.phase done
              (λ i n. r.ended i);
        synced = r.synced;
      }

-- Phases that are spelled out.
pub IsQuiet-of : (p q : Phase) → p ≡ q → IsQuiet q → IsQuiet p
IsQuiet-of p q e (f, g) = (λ t h. f t (sym e ∙ h), λ t h. g t (sym e ∙ h))

module _ (s : CommitPipeline) (r : IsRunning s) (k : ℕ) where
  -- A goroutine that is already counted.
  pub still_live :
      (p : Phase)
      → is_live (s.phase k) ≡ true
      → (i : ℕ) → is_live (put k p s.phase i) ≡ true
      → Among i r.pend ⊎ Among i r.rest
  still_live p h =
      live-put (λ i. Among i r.pend ⊎ Among i r.rest) s.phase k p (λ l. r.live k h)
        (λ i n l. r.live i l)

  pub enter-IsRunning : s.phase k ≡ idle → s.used < sync_concurrency - 1 → IsRunning (enter k s)
  unfolding enter
  enter-IsRunning e u =
      move-IsRunning s r k entered (s.used + 1) s.mu (k ∷ r.rest) (sym (ap stage e))
        (IsQuiet-of (s.phase k) idle e (λ t h. cc, λ t h. cc)) (λ t h. cc, λ t h. cc) (λ n h. cc)
        (omega (arith, r.room), omega arith)
        (live-put (λ i. Among i r.pend ⊎ Among i (k ∷ r.rest)) s.phase k entered
          (λ l. inr (inl refl))
          (λ i n l. elim (r.live i l) [ inl m ↦ inl m | inr m ↦ inr (inr m) ]))
        (HeadCared-put s.phase s.batches k entered r.pend (λ h. cc (h, ap is_publishing e)) r.cared)
        (λ h. cc) (mutex-put s.phase k entered s.mu (λ n h. cc (h, e)) r.mutex)

  pub invalid-IsRunning :
      s.phase k ≡ entered → IsRunning (record s { phase = put k invalid s.phase })
  invalid-IsRunning e =
      move-IsRunning s r k invalid s.used s.mu r.rest (sym (ap stage e))
        (IsQuiet-of (s.phase k) entered e (λ t h. cc, λ t h. cc)) (λ t h. cc, λ t h. cc) (λ n h. cc)
        (r.room, r.used_small) (still_live invalid (ap is_live e))
        (HeadCared-put s.phase s.batches k invalid r.pend (λ h. cc (h, ap is_publishing e)) r.cared)
        (λ h. cc) (mutex-put s.phase k invalid s.mu (λ n h. cc (h, e)) r.mutex)

  pub failed-IsRunning :
      s.phase k ≡ prepared → IsRunning (record s { phase = put k failed s.phase })
  failed-IsRunning e =
      move-IsRunning s r k failed s.used s.mu r.rest (sym (ap stage e))
        (IsQuiet-of (s.phase k) prepared e (λ t h. cc, λ t h. cc)) (λ t h. cc, λ t h. cc)
        (λ n h. cc) (r.room, r.used_small) (still_live failed (ap is_live e))
        (HeadCared-put s.phase s.batches k failed r.pend (λ h. cc (h, ap is_publishing e)) r.cared)
        (λ h. cc) (mutex-put s.phase k failed s.mu (λ n h. cc (h, e)) r.mutex)

  pub settle-IsRunning : (n : ℕ) → s.phase k ≡ settling n → IsRunning (settle k s)
  unfolding settle
  settle-IsRunning n e =
      move-IsRunning s r k prepared s.used none r.rest (sym (ap stage e))
        (IsQuiet-of (s.phase k) (settling n) e (λ t h. cc, λ t h. cc)) (λ t h. cc, λ t h. cc)
        (λ n h. cc) (r.room, r.used_small) (still_live prepared (ap is_live e))
        (HeadCared-put s.phase s.batches k prepared r.pend (λ h. cc (h, ap is_publishing e))
          r.cared)
        (λ h. cc) (λ j h. cc)

  -- A goroutine waits where no applied batch is at the head of the queue.
  pub waiting-IsRunning :
      s.phase k ≡ publishing
      → HeadCared (put k waiting s.phase) s.batches r.pend
      → IsRunning (record s { phase = put k waiting s.phase })
  waiting-IsRunning e cared =
      move-IsRunning s r k waiting s.used s.mu r.rest (sym (ap stage e))
        (IsQuiet-of (s.phase k) publishing e (λ t h. cc, λ t h. cc)) (λ t h. cc, λ t h. cc)
        (λ n h. cc) (r.room, r.used_small) (still_live waiting (ap is_live e)) cared (λ h. cc)
        (mutex-put s.phase k waiting s.mu (λ n h. cc (h, e)) r.mutex)

  -- A batch that nothing is waited for is not in the queue.
  not_pending : (s.batches k).waits ≡ 0 → Among k r.pend → ⊥
  not_pending w m =
      go (r.place k) (All-at (λ i. r.place i ≡ queued) k r.pend r.all_queued m) (r.fits k)
    where
      go :
          (at_place : Place)
          → at_place ≡ queued
          → Fits s.phase (s.batches k) r.pend r.low s.visible k at_place
          → ⊥
      go queued e (a, h, f) = omega (arith, w, h)
      go unqueued e f = cc
      go (held_by j) e f = cc
      go (signal_by j) e f = cc
      go spent e f = cc

  -- Nothing is waited for, so the batch is published.
  published : stage (s.phase k) ≡ after → (s.batches k).waits ≡ 0 → end_of (s.batches k) ≤ s.visible
  published e w = go (r.place k) (r.fits k)
    where
      go :
          (at_place : Place)
          → Fits s.phase (s.batches k) r.pend r.low s.visible k at_place
          → end_of (s.batches k) ≤ s.visible
      go unqueued f = absurd (cc (e, f))
      go queued (m, h, f) = absurd (omega (arith, w, h))
      go (held_by j) (q, h, l, c) = absurd (omega (arith, w, h))
      go (signal_by j) (q, h, l, c) = l
      go spent (h, l, c) = l

  pub leave-IsRunning : s.phase k ≡ waiting → (s.batches k).waits ≡ 0 → IsRunning (leave k s)
  unfolding leave
  leave-IsRunning e w =
      let in_rest : Among k r.rest = elim (r.live k (ap is_live e)) [
        | inl m ↦ absurd (not_pending w m)
        | inr m ↦ m
      ] in
      let (rest, l, f) = Among-remove k r.rest in_rest in
      move-IsRunning s r k returned (s.used - 1) s.mu rest (sym (ap stage e))
        (IsQuiet-of (s.phase k) waiting e (λ t h. cc, λ t h. cc)) (λ t h. cc, λ t h. cc) (λ n h. cc)
        (omega (arith, r.room, l), omega (arith, r.used_small))
        (live-put (λ i. Among i r.pend ⊎ Among i rest) s.phase k returned (λ h. cc)
          (λ i n h. elim (r.live i h) [
            | inl m ↦ inl m
            | inr m ↦ elim (f i m) [ inl q ↦ absurd (n q) | inr q ↦ inr q ]
          ]))
        (HeadCared-put s.phase s.batches k returned r.pend (λ h. cc (h, ap is_publishing e))
          r.cared)
        (λ h. published (ap stage e) w)
        (mutex-put s.phase k returned s.mu (λ n h. cc (h, e)) r.mutex)
