-- ===== src/Commit/Safety.antt =====
-- The two promises that commit.go makes of the visible sequence number.
use pebble.Prelude.{
  ℕ, ◌+◌, ◌^◌, ◌≤◌, ◌<◌, ◌≡◌, refl, sym, ap, ◌∙◌, inl, inr, Bool, Bool-cases, true, false, List, [],
  ◌∷◌, if◌then◌else◌, arith,
}
use mathlib.Core.Path.{subst}
use pebble.Prelude.Family.{put}
use pebble.Commit.Settled.{ratchet_seq_num-IsRunning}
use pebble.Prelude.Outcome.{ok, panic}
use pebble.Commit.Queue.{IsQueue, dequeue-none, dequeue_empty, dequeue-IsQueue, new_queue-IsQueue}
use pebble.Commit.{
  publishing, CommitPipeline, new_commit_pipeline, apply, take_batch, ratchet, signal, sync_done,
  leave, settle, enter, Advance, does_prepare, does_apply, does_take, does_ratchet, does_signal,
  does_sync, does_leave, does_allocate, does_settle, Reach, begins, enters, advances, ratchets,
  waiting, holding,
}
use pebble.Commit.Invariant.{unqueued, HeadCared, IsRunning}
use pebble.Commit.Moves.{
  enter-IsRunning, failed-IsRunning, settle-IsRunning, waiting-IsRunning, leave-IsRunning,
}
use pebble.Commit.Publish.Apply.{applied-IsRunning}
use pebble.Commit.Publish.Signal.{signal-IsRunning, sync_done-IsRunning}
use pebble.Commit.Publish.Ratchet.{ratchet-IsRunning}
use pebble.Commit.Publish.Take.{take_some}
use pebble.Commit.Enqueue.{prepare-IsRunning, allocate-IsRunning}

ok_inj : {a b : CommitPipeline} → ok a ≡ ok b → a ≡ b
ok_inj {a} e = ap (λ o. elim o as (λ x. CommitPipeline) [ ok c ↦ c | _ ↦ a ]) e

new-IsRunning : (start : ℕ) → IsRunning (new_commit_pipeline start)
unfolding new_commit_pipeline
new-IsRunning start = record {
  pend = [];
  rest = [];
  low = start;
  place = λ i. unqueued;
  queue = new_queue-IsQueue;
  room = refl;
  used_small = omega arith;
  live = λ i h. cc;
  chain = refl;
  behind = omega arith;
  fits = λ i. refl;
  all_queued = tt;
  distinct = tt;
  holder = λ j t h. cc;
  signaller = λ j t h. cc;
  cared = tt;
  top = inl (omega arith);
  mutex = λ k h. cc;
  ended = λ i h. cc;
  synced = λ i. omega arith;
}

pub take_batch-IsRunning :
    (s : CommitPipeline) (k : ℕ)
    → IsRunning s
    → s.phase k ≡ publishing
    → (t : CommitPipeline) × (take_batch k s ≡ ok t) × IsRunning t × (t.log_seq ≡ s.log_seq)
unfolding take_batch
take_batch-IsRunning s k r e = go r.pend refl
  where
    applied : ℕ → Bool
    applied b = (s.batches b).applied

    go :
        (pend : List ℕ)
        → r.pend ≡ pend
        → (t : CommitPipeline) × (take_batch k s ≡ ok t) × IsRunning t × (t.log_seq ≡ s.log_seq)
    go [] pe = (
      record s { phase = put k waiting s.phase },
      rw (dequeue_empty applied s.queue (subst (IsQueue s.queue) pe r.queue), take_batch) refl,
      waiting-IsRunning s r k e (subst (HeadCared _ s.batches) (sym pe) tt),
      refl,
    )
    go (x ∷ xs) pe = elim (Bool-cases (applied x)) [
      | inl a ↦
          let (q, d, iq) =
            dequeue-IsQueue applied s.queue x xs (subst (IsQueue s.queue) pe r.queue) a in
          (
            record s { queue = q; phase = put k (holding x) s.phase },
            rw (d, take_batch, a) refl,
            take_some s r k x xs q e pe a iq,
            refl,
          )
      | inr a ↦ (
        record s { phase = put k waiting s.phase },
        rw (dequeue-none applied s.queue x xs (subst (IsQueue s.queue) pe r.queue) a, take_batch)
            refl,
        waiting-IsRunning s r k e
            (subst (HeadCared _ s.batches) (sym pe) (λ b. absurd (cc (a, b)))),
        refl,
      )
    ]

-- What an outcome that is a panic or a state comes to.
ok_of : (c : Bool) (a b : CommitPipeline) → (if c then panic else ok a) ≡ ok b → a ≡ b
ok_of true a b e = cc
ok_of false a b e = ok_inj e

signal-log : (s t : CommitPipeline) (i u : ℕ) → signal i u s ≡ ok t → t.log_seq ≡ s.log_seq
unfolding signal
signal-log s t i u e = sym (ap (λ x. x.log_seq) (ok_of _ _ t e))

sync_done-log : (s t : CommitPipeline) (i : ℕ) → sync_done i s ≡ ok t → t.log_seq ≡ s.log_seq
unfolding sync_done
sync_done-log s t i e = sym (ap (λ x. x.log_seq) (ok_of _ _ t e))

-- The step keeps the invariant and the bound.
Advance-IsRunning :
    (s t : CommitPipeline) (n k : ℕ)
    → IsRunning s
    → s.log_seq ≤ n
    → n + k < 2 ^ 64
    → Advance s k t
    → IsRunning t × (t.log_seq ≤ n + k)
Advance-IsRunning s t n k r l b (does_prepare i c sync wrote u e mu small d) =
    let (v, f, rv, lv) = prepare-IsRunning s r i e c sync wrote mu (omega arith) in
    let same = ok_inj (sym f ∙ d) in
    (subst IsRunning same rv, omega (arith, ap (λ x. x.log_seq) same, lv))
Advance-IsRunning s t n k r l b (does_apply i true e) =
    (applied-IsRunning s r i e, unfold apply in omega arith)
Advance-IsRunning s t n k r l b (does_apply i false e) =
    (unfold apply in failed-IsRunning s r i e, unfold apply in omega arith)
Advance-IsRunning s t n k r l b (does_take i v e d) =
    let (w, f, rw', g) = take_batch-IsRunning s i r e in
    let same = ok_inj (sym f ∙ d) in
    (subst IsRunning same rw', omega (arith, ap (λ x. x.log_seq) same, g))
Advance-IsRunning s t n k r l b (does_ratchet i u e) =
    (ratchet-IsRunning s r i u e (omega arith), unfold ratchet in omega arith)
Advance-IsRunning s t n k r l b (does_signal i u v e d) =
    let (w, f, rw') = signal-IsRunning s r i u e in
    let same = ok_inj (sym f ∙ d) in (subst IsRunning same rw', omega (arith, signal-log s v i u d))
Advance-IsRunning s t n k r l b (does_sync i v e d) =
    let (w, f, rw') = sync_done-IsRunning s r i e in
    (subst IsRunning (ok_inj (sym f ∙ d)) rw', omega (arith, sync_done-log s v i d))
Advance-IsRunning s t n k r l b (does_leave i e w) =
    (leave-IsRunning s r i e w, unfold leave in omega arith)
Advance-IsRunning s t n k r l b (does_allocate i c v e mu small d) =
    let (w, f, rv, lv) = allocate-IsRunning s r i e c mu small (omega arith) in
    let same = ok_inj (sym f ∙ d) in
    (subst IsRunning same rv, omega (arith, ap (λ x. x.log_seq) same, lv))
Advance-IsRunning s t n k r l b (does_settle i e) =
    (settle-IsRunning s r i s.visible e, unfold settle in omega arith)

enter-log : (s : CommitPipeline) (i n : ℕ) → s.log_seq ≤ n → (enter i s).log_seq ≤ n
unfolding enter
enter-log s i n l = l

-- The pipeline is sound wherever it can get to before a sequence number reaches 2^64.
pub Reach-IsRunning :
    (start n : ℕ) (s : CommitPipeline)
    → Reach start n s
    → n < 2 ^ 64
    → IsRunning s × (s.log_seq ≤ n)
Reach-IsRunning start n s begins b =
    (new-IsRunning start, unfold new_commit_pipeline in omega arith)
Reach-IsRunning start n s (enters m i u h e w) b =
    let (r, l) = Reach-IsRunning start n u h b in (enter-IsRunning u r i e w, enter-log u i n l)
Reach-IsRunning start n s (advances m k u t h a) b =
    let (r, l) = Reach-IsRunning start m u h (omega arith) in Advance-IsRunning u s m k r l b a
Reach-IsRunning start n s (ratchets m next u h mu clear) b =
    let (r, l) = Reach-IsRunning start m u h (omega arith) in
    ratchet_seq_num-IsRunning u r clear m next l b
