-- ===== src/Commit/Invariant.antt =====
-- What holds of the commit pipeline (commit.go) between any two steps.
use pebble.Prelude.{
  ℕ, suc, ◌+◌, ◌≤◌, ◌≡◌, ◌⊎◌, Bool, true, false, some, List, [], ◌∷◌, length, All, Among,
}
use pebble.Commit.Queue.{sync_concurrency, IsQueue}
use pebble.Commit.{
  Phase, idle, entered, invalid, failed, prepared, settling, publishing, holding, signalling,
  waiting, returned, CommitBatch, CommitPipeline,
}

-- A batch is outside the queue, in it and to be applied, or applied.
pub data Stage : Type 0 where
  outside unapplied after : Stage

abbrev pub stage : Phase → Stage
stage idle = outside
stage entered = outside
stage invalid = outside
stage failed = unapplied
stage prepared = unapplied
stage (settling n) = unapplied
stage publishing = after
stage (holding t) = after
stage (signalling t) = after
stage waiting = after
stage returned = after

-- The goroutine has a token of the semaphore.
abbrev pub is_live : Phase → Bool
is_live idle = false
is_live returned = false
is_live entered = true
is_live invalid = true
is_live failed = true
is_live prepared = true
is_live (settling n) = true
is_live publishing = true
is_live (holding t) = true
is_live (signalling t) = true
is_live waiting = true

-- The goroutine will dequeue again.
abbrev pub is_publishing : Phase → Bool
is_publishing publishing = true
is_publishing (holding t) = true
is_publishing (signalling t) = true
is_publishing idle = false
is_publishing entered = false
is_publishing invalid = false
is_publishing failed = false
is_publishing prepared = false
is_publishing (settling n) = false
is_publishing waiting = false
is_publishing returned = false

abbrev pub end_of : CommitBatch → ℕ
end_of b = b.seq + b.count

-- Where the duty to publish a batch lies.
pub data Place : Type 0 where
  unqueued queued : Place
  held_by signal_by : ℕ → Place
  spent : Place

-- What holds of batch `b` of number `i` in its place.
abbrev pub Fits : (ℕ → Phase) → CommitBatch → List ℕ → ℕ → ℕ → ℕ → Place → Type 0
Fits phase b pend low visible i unqueued = stage (phase i) ≡ outside
Fits phase b pend low visible i queued =
    Among i pend
    × (b.waits ≡ suc b.unsynced)
    × (((stage (phase i) ≡ unapplied) × (b.applied ≡ false))
        ⊎ ((stage (phase i) ≡ after) × (b.applied ≡ true)))
Fits phase b pend low visible i (held_by j) =
    (phase j ≡ holding i)
    × (b.waits ≡ suc b.unsynced)
    × (end_of b ≤ low)
    × (stage (phase i) ≡ after)
Fits phase b pend low visible i (signal_by j) =
    (phase j ≡ signalling i)
    × (b.waits ≡ suc b.unsynced)
    × (end_of b ≤ visible)
    × (stage (phase i) ≡ after)
Fits phase b pend low visible i spent =
    (b.waits ≡ b.unsynced) × (end_of b ≤ visible) × (stage (phase i) ≡ after)

-- The batch follows on `low`; AllocateSeqNum skips the number 0.
abbrev pub IsNext : ℕ → ℕ → Type 0
IsNext low seq = (seq ≡ low) ⊎ ((low ≡ 0) × (seq ≡ 1))

-- The sequence numbers of the queued batches lie behind each other from `low` to `high`.
abbrev pub Chain : (ℕ → Phase) → (ℕ → CommitBatch) → ℕ → List ℕ → ℕ → Type 0
Chain phase batches low [] high = low ≡ high
Chain phase batches low (x ∷ xs) high =
    IsNext low (batches x).seq
    × ((n : ℕ) → phase x ≡ settling n → n ≡ low)
    × Chain phase batches (end_of (batches x)) xs high

abbrev pub Distinct : List ℕ → Type 0
Distinct [] = Unit {0}
Distinct (x ∷ xs) = (Among x xs → ⊥) × Distinct xs

-- An applied batch at the head of the queue has a goroutine that will dequeue it.
abbrev pub HeadCared : (ℕ → Phase) → (ℕ → CommitBatch) → List ℕ → Type 0
HeadCared phase batches [] = Unit {0}
HeadCared phase batches (x ∷ xs) =
    (batches x).applied ≡ true → (j : ℕ) × (is_publishing (phase j) ≡ true)

-- All that was dequeued is visible, or will be.
abbrev pub IsTop : (ℕ → Phase) → (ℕ → CommitBatch) → ℕ → ℕ → Type 0
IsTop phase batches low visible =
    (low ≤ visible) ⊎ ((j : ℕ) × (t : ℕ) × (phase j ≡ holding t) × (end_of (batches t) ≡ low))

-- `pend` are the batches of the queue, `rest` the goroutines with a token whose batch is not in the
-- queue, and `low` is where the sequence numbers of the queue begin.
pub record IsRunning (s : CommitPipeline) : Type 0 where
  pub pend : List ℕ
  pub rest : List ℕ
  pub low : ℕ
  pub place : ℕ → Place
  pub queue : IsQueue s.queue pend
  pub room : length pend + length rest ≡ s.used
  pub used_small : suc s.used ≤ sync_concurrency
  pub live : (i : ℕ) → is_live (s.phase i) ≡ true → Among i pend ⊎ Among i rest
  pub chain : Chain s.phase s.batches low pend s.log_seq
  pub behind : s.visible ≤ low
  pub fits : (i : ℕ) → Fits s.phase (s.batches i) pend low s.visible i (place i)
  pub all_queued : All (λ i. place i ≡ queued) pend
  pub distinct : Distinct pend
  pub holder : (j t : ℕ) → s.phase j ≡ holding t → place t ≡ held_by j
  pub signaller : (j t : ℕ) → s.phase j ≡ signalling t → place t ≡ signal_by j
  pub cared : HeadCared s.phase s.batches pend
  pub top : IsTop s.phase s.batches low s.visible
  pub mutex : (k : ℕ) → s.mu ≡ some k → (n : ℕ) × (s.phase k ≡ settling n)
  pub ended : (i : ℕ) → s.phase i ≡ returned → end_of (s.batches i) ≤ s.visible
  pub synced : (i : ℕ) → (s.batches i).unsynced ≤ (s.batches i).waits
