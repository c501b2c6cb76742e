-- ===== src/Commit/Examples.antt =====
-- Two commits that overlap, and one that runs to its end (commit.go).
use pebble.Prelude.{ℕ, ◌≡◌, ◌≢◌, refl, ap, ◌∙◌, true, false, List, [], ◌∷◌, arith}
use native.Mathlib.Decide.{ℕ_discrete}
use pebble.Prelude.Family.{put, put_away, put-keeps}
use pebble.Prelude.Outcome.{Outcome, ok}
use pebble.Commit.Queue.{enqueue, dequeue, new_queue}
use pebble.Commit.{ratchet_seq_num}
use pebble.Commit.{
  Phase, idle, entered, prepared, publishing, holding, signalling, waiting, returned,
  CommitPipeline, new_commit_pipeline, enter, prepare, apply, take_batch, ratchet, signal, leave,
  does_prepare, does_apply, does_take, does_ratchet, does_signal, does_leave, Reach, begins, enters,
  advances, is_clear, ratchets,
}

abbrev result_of : Outcome CommitPipeline → CommitPipeline
result_of (ok s) = s
result_of _ = new_commit_pipeline 1

-- Batch 0 of three operations is written, and then batch 1 of two, which is applied and waits.
abbrev both_in : CommitPipeline
both_in = enter 1 (enter 0 (new_commit_pipeline 1))

abbrev one_written : CommitPipeline
one_written = result_of (prepare 0 3 false true both_in)

abbrev both_written : CommitPipeline
both_written = result_of (prepare 1 2 true true one_written)

abbrev overtaken : CommitPipeline
overtaken = result_of (take_batch 1 (apply 1 true both_written))

-- One commit, up to its first step behind the semaphore, and to its return.
abbrev alone_written : CommitPipeline
alone_written = result_of (prepare 0 3 false true (enter 0 (new_commit_pipeline 1)))

abbrev alone_taken : CommitPipeline
alone_taken = result_of (take_batch 0 (apply 0 true alone_written))

abbrev alone_published : CommitPipeline
alone_published = result_of (signal 0 0 (ratchet 0 0 alone_taken))

abbrev alone_waiting : CommitPipeline
alone_waiting = result_of (take_batch 0 alone_published)

abbrev alone_returned : CommitPipeline
alone_returned = leave 0 alone_waiting

alone_written-Reach : Reach 1 4 alone_written
unfolding new_commit_pipeline enter prepare enqueue ℕ_discrete new_queue
alone_written-Reach =
    advances 1 3 _ _ (enters 1 0 _ begins refl (omega arith))
      (does_prepare 0 3 false true alone_written refl refl (omega arith) refl)

alone_published-Reach : Reach 1 4 alone_published
unfolding new_commit_pipeline enter prepare apply take_batch ratchet signal enqueue dequeue
    ℕ_discrete new_queue
alone_published-Reach =
    advances 4 0 _ _
      (advances 4 0 _ _
        (advances 4 0 _ _ (advances 4 0 _ _ alone_written-Reach (does_apply 0 true refl))
          (does_take 0 alone_taken refl refl))
        (does_ratchet 0 0 refl))
      (does_signal 0 0 alone_published refl refl)

alone_returned-Reach : Reach 1 4 alone_returned
unfolding new_commit_pipeline enter prepare apply take_batch ratchet signal leave enqueue dequeue
    ℕ_discrete new_queue
alone_returned-Reach =
    advances 4 0 _ _ (advances 4 0 _ _ alone_published-Reach (does_take 0 alone_waiting refl refl))
      (does_leave 0 refl refl)

-- The phases of goroutine 0, the latest first, and what follows for the others.
abbrev phases : List Phase → ℕ → Phase
phases [] = λ i. idle
phases (p ∷ ps) = put 0 p (phases ps)

phases_away : (ps : List Phase) (j : ℕ) → j ≢ 0 → phases ps j ≡ idle
phases_away [] j n = refl
phases_away (p ∷ ps) j n = put_away 0 p (phases ps) j n ∙ phases_away ps j n

-- ratchetSeqNum behind the commit that returned.
abbrev alone_ratcheted : CommitPipeline
alone_ratcheted = ratchet_seq_num 9 alone_returned

alone_returned-clear : (j : ℕ) → is_clear (alone_returned.phase j) ≡ true
unfolding new_commit_pipeline enter prepare apply take_batch ratchet signal leave enqueue dequeue
    ℕ_discrete new_queue
alone_returned-clear =
    let before =
      waiting ∷ publishing ∷ signalling 0 ∷ holding 0 ∷ publishing ∷ prepared ∷ entered ∷ [] in
    put-keeps (λ j p. is_clear p ≡ true) 0 returned (phases before) refl
      (λ j n. ap is_clear (phases_away before j n))

alone_ratcheted-Reach : Reach 1 9 alone_ratcheted
unfolding new_commit_pipeline enter prepare apply take_batch ratchet signal leave enqueue dequeue
    ℕ_discrete new_queue
alone_ratcheted-Reach = ratchets 4 9 alone_returned alone_returned-Reach refl alone_returned-clear

alone_ratcheted_visible : (alone_ratcheted.log_seq ≡ 9) × (alone_ratcheted.visible ≡ 9)
unfolding new_commit_pipeline enter prepare apply take_batch ratchet signal leave enqueue dequeue
    ℕ_discrete new_queue ratchet_seq_num
alone_ratcheted_visible = (refl, refl)
