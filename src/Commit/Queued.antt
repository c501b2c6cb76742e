-- ===== src/Commit/Queued.antt =====
-- A batch goes behind the queue of pending batches: commit.go.
use pebble.Prelude.{
  ℕ, suc, ◌≤◌, ◌<◌, ◌≡◌, ◌≢◌, ◌⊎◌, refl, sym, ap, ◌∙◌, inl, inr, Bool, true, false, Option, some,
  List, [], ◌∷◌, ◌++◌, length, length-append, All, All-at, Among, Among-append_left,
  Among-append_right, ◌==◌, if◌then◌else◌, arith,
}
use mathlib.Core.Path.{subst}
use pebble.Prelude.Family.{put, put_here, put_away, put-keeps}
use pebble.Prelude.Outcome.{ok, panic}
use pebble.Commit.Queue.{sync_concurrency, IsQueue, CommitQueue}
use pebble.Commit.{
  Phase, entered, settling, holding, signalling, returned, CommitBatch, CommitPipeline,
}
use pebble.Commit.Invariant.{
  stage, is_live, is_publishing, end_of, Place, unqueued, queued, held_by, signal_by, spent, Fits,
  Chain, Distinct, HeadCared, IsRunning, unapplied, IsNext,
}
use pebble.Commit.Frames.{Fits-phase, Fits-mono, Chain-same, Chain-append, Among-remove, live-put}
use pebble.Commit.Moves.{IsQuiet, HeadCared-put, put-before}

Distinct-append : (xs : List ℕ) (i : ℕ) → (Among i xs → ⊥) → Distinct xs → Distinct (xs ++ (i ∷ []))
Distinct-append [] i h d = (λ m. m, tt)
Distinct-append (x ∷ xs) i h (n, d) = (
  λ m. elim (Among-split x xs i m) [ inl p ↦ n p | inr p ↦ h (inl (sym p)) ],
  Distinct-append xs i (λ m. h (inr m)) d,
)
  where
    Among-split : (x : ℕ) (xs : List ℕ) (i : ℕ) → Among x (xs ++ (i ∷ [])) → Among x xs ⊎ (x ≡ i)
    Among-split x [] i (inl e) = inr e
    Among-split x [] i (inr m) = absurd m
    Among-split x (y ∷ ys) i (inl e) = inl (inl e)
    Among-split x (y ∷ ys) i (inr m) = elim (Among-split x ys i m) [
      | inl p ↦ inl (inr p)
      | inr p ↦ inr p
    ]

All-queued-append :
    (place : ℕ → Place) (i : ℕ) (pend : List ℕ)
    → All (λ x. place x ≡ queued) pend
    → All (λ x. put i queued place x ≡ queued) (pend ++ (i ∷ []))
All-queued-append place i [] a = (put_here i queued place, tt)
All-queued-append place i (x ∷ xs) (e, a) = (
  put-keeps (λ j p. place j ≡ queued → p ≡ queued) i queued place (λ h. refl) (λ j n h. h) x e,
  All-queued-append place i xs a,
)

-- The head is one that was there, or one that is not applied.
HeadCared-append :
    (phase : ℕ → Phase) (batches : ℕ → CommitBatch) (i : ℕ) (p : Phase) (b : CommitBatch)
    (pend : List ℕ)
    → b.applied ≡ false
    → (Among i pend → ⊥)
    → HeadCared (put i p phase) batches pend
    → HeadCared (put i p phase) (put i b batches) (pend ++ (i ∷ []))
HeadCared-append phase batches i p b [] e n h =
    λ a. absurd (cc (a, e, ap (λ c. c.applied) (put_here i b batches)))
HeadCared-append phase batches i p b (x ∷ xs) e n h =
    λ a. h (ap (λ c. c.applied) (sym (put_away i b batches x (λ d. n (inl (sym d))))) ∙ a)

pub zero_of : (n : ℕ) → (n == 0) ≡ true → n ≡ 0
zero_of n h = grind arith

pub if-true : (c : Bool) (x y : ℕ) → c ≡ true → (if c then x else y) ≡ x
if-true c x y e = rw e refl

pub if-false : (c : Bool) (x y : ℕ) → c ≡ false → (if c then x else y) ≡ y
if-false c x y e = rw e refl

pub ok_ne_panic : (s : CommitPipeline) → ok s ≢ panic
ok_ne_panic s e = cc

pub settling_inj : {t u : ℕ} → settling t ≡ settling u → t ≡ u
settling_inj e = cc

pub some_inj : {t u : ℕ} → some t ≡ some u → t ≡ u
some_inj e = cc

module _ (s : CommitPipeline) (r : IsRunning s) (k : ℕ) (e : s.phase k ≡ entered) where
  is_unqueued : r.place k ≡ unqueued
  is_unqueued = go (r.place k) (r.fits k)
    where
      go :
          (at_place : Place)
          → Fits s.phase (s.batches k) r.pend r.low s.visible k at_place
          → at_place ≡ unqueued
      go unqueued f = refl
      go queued (a, w, inl (c, d)) = absurd (cc (c, ap stage e))
      go queued (a, w, inr (c, d)) = absurd (cc (c, ap stage e))
      go (held_by j) (a, b, c, d) = absurd (cc (d, ap stage e))
      go (signal_by j) (a, b, c, d) = absurd (cc (d, ap stage e))
      go spent (a, b, d) = absurd (cc (d, ap stage e))

  absent : Among k r.pend → ⊥
  absent m = cc (is_unqueued, All-at (λ i. r.place i ≡ queued) k r.pend r.all_queued m)

  in_rest : Among k r.rest
  in_rest = elim (r.live k (ap is_live e)) [ inl m ↦ absurd (absent m) | inr m ↦ m ]

  pub has_room : length r.pend < sync_concurrency
  has_room = omega (arith, r.room, r.used_small)

  -- A batch that is not applied yet goes behind the queue, with the next sequence number.
  pub queued-IsRunning :
      (p : Phase) (b : CommitBatch) (q : CommitQueue) (mu : Option ℕ) (wal : List ℕ) (high : ℕ)
      → end_of b ≡ high
      → stage p ≡ unapplied
      → is_live p ≡ true
      → IsQuiet p
      → ((n : ℕ) → p ≡ settling n → n ≡ s.log_seq)
      → b.applied ≡ false
      → b.waits ≡ suc b.unsynced
      → IsNext s.log_seq b.seq
      → IsQueue q (r.pend ++ (k ∷ []))
      → ((j : ℕ) → mu ≡ some j → (n : ℕ) × (put k p s.phase j ≡ settling n))
      → IsRunning (record s {
        queue = q;
        log_seq = high;
        mu = mu;
        wal = wal;
        batches = put k b s.batches;
        phase = put k p s.phase;
      })
  queued-IsRunning p b q mu wal high ends st alive (hold, sign) settles na ws next iq mutex =
      let (rest, l, f) = Among-remove k r.rest in_rest in
      let phase = put k p s.phase in
      let batches = put k b s.batches in
      let place = put k queued r.place in
      let pend = r.pend ++ (k ∷ []) in
      let other : (x : ℕ) → Among x r.pend → x ≢ k =
        λ x m d. absent (subst (λ y. Among y r.pend) d m) in
      let here = put_here k b s.batches in
      record {
        pend = pend;
        rest = rest;
        low = r.low;
        place = place;
        queue = iq;
        room = omega (arith, r.room, l, length-append r.pend (k ∷ []));
        used_small = r.used_small;
        live =
            live-put (λ i. Among i pend ⊎ Among i rest) s.phase k p
              (λ h. inl (Among-append_right k r.pend (k ∷ []) (inl refl)))
              (λ i n h. elim (r.live i h) [
                | inl m ↦ inl (Among-append_left i r.pend (k ∷ []) m)
                | inr m ↦ elim (f i m) [ inl d ↦ absurd (n d) | inr d ↦ inr d ]
              ]);
        chain = subst (Chain phase batches r.low pend) (ap end_of here ∙ ends) (
            Chain-append phase batches r.low s.log_seq r.pend k
              (subst (λ z. IsNext s.log_seq z.seq) (sym here) next)
              (λ n d. settles n (sym (put_here k p s.phase) ∙ d))
              (Chain-same s.phase phase s.batches batches r.low s.log_seq r.pend
                (λ x m n d. sym (put_away k p s.phase x (other x m)) ∙ d)
                (λ x m. (
                  ap (λ c. c.seq) (put_away k b s.batches x (other x m)),
                  ap (λ c. c.count) (put_away k b s.batches x (other x m)),
                ))
                r.chain));
        behind = r.behind;
        fits =
            put-keeps (λ i c. Fits phase c pend r.low s.visible i (place i)) k b s.batches
              (subst (Fits phase b pend r.low s.visible k) (sym (put_here k queued r.place)) (
                Among-append_right k r.pend (k ∷ []) (inl refl),
                ws,
                inl (ap stage (put_here k p s.phase) ∙ st, na),
              ))
              (λ i n.
                subst (Fits phase (s.batches i) pend r.low s.visible i)
                  (sym (put_away k queued r.place i n))
                  (Fits-mono phase (s.batches i) r.pend pend r.low r.low s.visible s.visible i
                    (r.place i) (Among-append_left i r.pend (k ∷ [])) (omega arith) (omega arith)
                    (Fits-phase s.phase k p (s.batches i) r.pend r.low s.visible i (r.place i)
                      (inl n) (λ h. cc (e, h)) (λ h. cc (e, h)) (r.fits i))));
        all_queued = All-queued-append r.place k r.pend r.all_queued;
        distinct = Distinct-append r.pend k absent r.distinct;
        holder = λ j t d.
            let h = r.holder j t ((put-before s.phase k p j (holding t) (hold t) d).1) in
            put_away k queued r.place t (λ x. cc (is_unqueued, h, ap r.place x)) ∙ h;
        signaller = λ j t d.
            let h = r.signaller j t ((put-before s.phase k p j (signalling t) (sign t) d).1) in
            put_away k queued r.place t (λ x. cc (is_unqueued, h, ap r.place x)) ∙ h;
        cared =
            HeadCared-append s.phase s.batches k p b r.pend na absent (
              HeadCared-put s.phase s.batches k p r.pend (λ h. cc (h, ap is_publishing e)) r.cared);
        top = elim r.top [
          | inl h ↦ inl h
          | inr (j, t, h, d) ↦ inr (
            j,
            t,
            put_away k p s.phase j (λ x. cc (e, h, ap s.phase x)) ∙ h,
            ap end_of
                  (put_away k b s.batches t (λ x. cc (is_unqueued, r.holder j t h, ap r.place x)))
                ∙ d,
          )
        ];
        mutex = mutex;
        ended = λ i d.
            let (n, f) = put-before s.phase k p i returned (λ h. cc (st, h)) d in
            omega (arith, r.ended i f, ap end_of (put_away k b s.batches i n));
        synced =
            put-keeps (λ i c. c.unsynced ≤ c.waits) k b s.batches (omega (arith, ws))
              (λ i n. r.synced i);
      }
