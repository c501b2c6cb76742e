-- ===== src/Commit/Publish.antt =====
-- What the steps of publish (commit.go) share, which change a batch or the visible sequence number.
pub mod Apply
pub mod Signal
pub mod Ratchet
pub mod Take
use pebble.Prelude.{
  ℕ, suc, ◌+◌, ◌-◌, ◌%◌, ◌^◌, ◌≤◌, ◌<◌, ◌≡◌, ◌≢◌, ◌⊎◌, refl, sym, ap, ◌∙◌, inl, inr, Bool, true,
  false, Option, none, some, List, [], ◌∷◌, ◌++◌, length, All, All-at, Among, ◌==◌, leb,
  if◌then◌else◌, arith,
}
use mathlib.Core.Path.{subst}
use native.Mathlib.Decide.{ℕ_discrete}
use pebble.Prelude.Family.{put, put_here, put_away, put-keeps}
use pebble.Prelude.Outcome.{Outcome, ok}
use pebble.Commit.Queue.{
  sync_concurrency, IsQueue, dequeue, dequeue-none, dequeue_empty, dequeue-IsQueue, CommitQueue,
}
use pebble.Commit.{
  Phase, idle, entered, invalid, failed, prepared, settling, publishing, holding, signalling,
  waiting, returned, CommitBatch, CommitPipeline, apply, take_batch, ratchet, signal, sync_done,
}
use pebble.Commit.Invariant.{
  stage, is_live, is_publishing, end_of, Place, unqueued, queued, held_by, signal_by, spent, Fits,
  Chain, Distinct, HeadCared, IsTop, IsRunning, outside, unapplied, after,
}
use pebble.Commit.Frames.{Fits-phase, Fits-mono, Chain-same, Chain-low}
use pebble.Commit.Moves.{
  HeadCared-put, IsTop-put, put-before, mutex-put, still_live, failed-IsRunning, waiting-IsRunning,
}

-- A batch that is changed keeps what the predicate says of it.
same-put :
    (P : CommitBatch → CommitBatch → Type 0) (t : ℕ) (b : CommitBatch) (batches : ℕ → CommitBatch)
    → P b (batches t)
    → ((c : CommitBatch) → P c c)
    → (x : ℕ) → P (put t b batches x) (batches x)
same-put P t b batches h g = put-keeps (λ x c. P c (batches x)) t b batches h (λ j n. g (batches j))

All-queued-put :
    (place : ℕ → Place) (t : ℕ) (at_place : Place) (pend : List ℕ)
    → (Among t pend → ⊥)
    → All (λ i. place i ≡ queued) pend
    → All (λ i. put t at_place place i ≡ queued) pend
All-queued-put place t at_place [] h a = tt
All-queued-put place t at_place (x ∷ xs) h (e, a) = (
  put_away t at_place place x (λ d. h (inl (sym d))) ∙ e,
  All-queued-put place t at_place xs (λ m. h (inr m)) a,
)

HeadCared-same :
    (phase : ℕ → Phase) (batches batches' : ℕ → CommitBatch) (pend : List ℕ)
    → ((x : ℕ) → (batches' x).applied ≡ (batches x).applied)
    → HeadCared phase batches pend
    → HeadCared phase batches' pend
HeadCared-same phase batches batches' [] f h = tt
HeadCared-same phase batches batches' (x ∷ xs) f h = λ a. h (sym (f x) ∙ a)

IsTop-same :
    (phase : ℕ → Phase) (batches batches' : ℕ → CommitBatch) (low visible : ℕ)
    → ((x : ℕ) → end_of (batches' x) ≡ end_of (batches x))
    → IsTop phase batches low visible
    → IsTop phase batches' low visible
IsTop-same phase batches batches' low visible f (inl l) = inl l
IsTop-same phase batches batches' low visible f (inr (j, t, e, d)) = inr (j, t, e, f t ∙ d)

holding_inj : {t u : ℕ} → holding t ≡ holding u → t ≡ u
holding_inj e = cc

signalling_inj : {t u : ℕ} → signalling t ≡ signalling u → t ≡ u
signalling_inj e = cc

held_by_inj : {t u : ℕ} → held_by t ≡ held_by u → t ≡ u
held_by_inj e = cc

signal_by_inj : {t u : ℕ} → signal_by t ≡ signal_by u → t ≡ u
signal_by_inj e = cc

module _ (s : CommitPipeline) (r : IsRunning s) (k : ℕ) where
  -- A batch in the queue is in its place, and one with another place is not in the queue.
  absent : (t : ℕ) → r.place t ≢ queued → Among t r.pend → ⊥
  absent t h m = h (All-at (λ i. r.place i ≡ queued) t r.pend r.all_queued m)

  -- A batch that is to be applied is in the queue.
  unapplied_queued : stage (s.phase k) ≡ unapplied → r.place k ≡ queued
  unapplied_queued e = go (r.place k) (r.fits k)
    where
      go :
          (at_place : Place)
          → Fits s.phase (s.batches k) r.pend r.low s.visible k at_place
          → at_place ≡ queued
      go queued f = refl
      go unqueued f = absurd (cc (f, e))
      go (held_by j) (a, b, c, d) = absurd (cc (d, e))
      go (signal_by j) (a, b, c, d) = absurd (cc (d, e))
      go spent (a, b, d) = absurd (cc (d, e))

  Fits-as :
      (t : ℕ) (at_place : Place)
      → r.place t ≡ at_place
      → Fits s.phase (s.batches t) r.pend r.low s.visible t at_place
  Fits-as t at_place e = subst (Fits s.phase (s.batches t) r.pend r.low s.visible t) e (r.fits t)

  pub unapplied-Among : stage (s.phase k) ≡ unapplied → Among k r.pend
  unapplied-Among e = (Fits-as k queued (unapplied_queued e)).0
