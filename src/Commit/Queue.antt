-- ===== src/Commit/Queue.antt =====
-- commitQueue (commit.go): a ring of slots, with its two indices packed into one word. One call of
-- enqueue or dequeue is one step.
use pebble.Prelude.{
  ℕ, zero, suc, ◌+◌, ◌*◌, ◌/◌, ◌%◌, ◌^◌, ◌≤◌, ◌<◌, ◌≡◌, ◌≢◌, refl, sym, ap, ◌∙◌, Bool, true, false,
  Option, none, some, List, [], ◌∷◌, ◌++◌, length, get_elem?, length-append, ◌==◌, if◌then◌else◌,
  arith,
}
use pebble.Prelude.Outcome.{Outcome, ok, panic, stuck}
use native.Mathlib.Decide.{ℕ_discrete}
use pebble.Prelude.Family.{put, put_here, put_away}

-- record.SyncConcurrency.
abbrev pub sync_concurrency : ℕ
sync_concurrency = 4096

-- `slots` holds the batches by their number.
pub record CommitQueue : Type 0 where
  pub head_tail : ℕ
  pub slots : ℕ → Option ℕ

abbrev pub head_of : ℕ → ℕ
head_of ptrs = ptrs / 2 ^ 32 % 2 ^ 32

abbrev pub tail_of : ℕ → ℕ
tail_of ptrs = ptrs % 2 ^ 32

-- The two halves share no bit, so the or of pack is a sum.
abbrev pub pack : ℕ → ℕ → ℕ
pack head tail = head * 2 ^ 32 + tail % 2 ^ 32

unfoldable pub new_queue : CommitQueue
new_queue = record { head_tail = 0; slots = λ i. none }

-- A full queue is a panic. A head slot that is not released yet is spun on: `stuck`.
unfoldable pub enqueue : ℕ → CommitQueue → Outcome CommitQueue
enqueue b q =
    let head = head_of q.head_tail in
    if (tail_of q.head_tail + sync_concurrency) % 2 ^ 32 == head
    then panic
    else elim (q.slots (head % sync_concurrency)) [
      | some c ↦ stuck
      | none ↦ ok (record {
        head_tail = (q.head_tail + 2 ^ 32) % 2 ^ 64;
        slots = put (head % sync_concurrency) (some b) q.slots;
      })
    ]

-- The batch at the tail, if it is there and applied.
unfoldable pub dequeue : (ℕ → Bool) → CommitQueue → Option (ℕ × CommitQueue)
dequeue applied q =
    let head = head_of q.head_tail in
    let tail = tail_of q.head_tail in
    if tail == head then none else elim (q.slots (tail % sync_concurrency)) [
      | none ↦ none
      | some b ↦
          if applied b
          then some (
            b,
            record {
              head_tail = pack head ((tail + 1) % 2 ^ 32);
              slots = put (tail % sync_concurrency) none q.slots;
            },
          )
          else none
    ]

-- The queue holds the batches `xs`, the oldest first.
pub record IsQueue (q : CommitQueue) (xs : List ℕ) : Type 0 where
  pub tail : ℕ
  pub tail_small : tail < 2 ^ 32
  pub short : length xs ≤ sync_concurrency
  pub indices : q.head_tail ≡ pack ((tail + length xs) % 2 ^ 32) tail
  pub held :
      (j : ℕ) → j < sync_concurrency → q.slots ((tail + j) % sync_concurrency) ≡ get_elem? xs j

pub new_queue-IsQueue : IsQueue new_queue []
unfolding new_queue
new_queue-IsQueue = record {
  tail = 0;
  tail_small = omega arith;
  short = omega arith;
  indices = refl;
  held = λ j h. refl;
}

get_elem?-append_last : (xs : List ℕ) (b : ℕ) → get_elem? (xs ++ (b ∷ [])) (length xs) ≡ some b
get_elem?-append_last [] b = refl
get_elem?-append_last (x ∷ xs) b = get_elem?-append_last xs b

get_elem?-append_other :
    (xs : List ℕ) (b j : ℕ) → j ≢ length xs → get_elem? (xs ++ (b ∷ [])) j ≡ get_elem? xs j
get_elem?-append_other [] b zero h = absurd (h refl)
get_elem?-append_other [] b (suc j) h = refl
get_elem?-append_other (x ∷ xs) b zero h = refl
get_elem?-append_other (x ∷ xs) b (suc j) h = get_elem?-append_other xs b j (λ e. h (ap suc e))

get_elem?-beyond : (xs : List ℕ) (j : ℕ) → length xs ≤ j → get_elem? xs j ≡ none
get_elem?-beyond [] j h = refl
get_elem?-beyond (x ∷ xs) zero h = absurd (omega arith)
get_elem?-beyond (x ∷ xs) (suc j) h = get_elem?-beyond xs j (omega arith)

neq : (a b : ℕ) → a ≢ b → (a == b) ≡ false
neq a b h = grind arith

head_of-pack : (h t : ℕ) → h < 2 ^ 32 → t < 2 ^ 32 → head_of (pack h t) ≡ h
head_of-pack h t a b = omega arith

tail_of-pack : (h t : ℕ) → t < 2 ^ 32 → tail_of (pack h t) ≡ t
tail_of-pack h t b = omega arith

put_at : (i j : ℕ) (a : Option ℕ) (f : ℕ → Option ℕ) → j ≡ i → put i a f j ≡ a
put_at i j a f e = ap (put i a f) e ∙ put_here i a f

slot_of_head :
    (q : CommitQueue) (xs : List ℕ) (r : IsQueue q xs)
    → head_of q.head_tail % sync_concurrency ≡ (r.tail + length xs) % sync_concurrency
slot_of_head q xs r = omega (arith, r.indices, r.tail_small)

slot_of_tail :
    (q : CommitQueue) (xs : List ℕ) (r : IsQueue q xs)
    → tail_of q.head_tail % sync_concurrency ≡ (r.tail + 0) % sync_concurrency
slot_of_tail q xs r = omega (arith, r.indices, r.tail_small)

-- A queue with room takes a batch behind those that it holds.
pub enqueue-IsQueue :
    (b : ℕ) (q : CommitQueue) (xs : List ℕ)
    → IsQueue q xs
    → length xs < sync_concurrency
    → (p : CommitQueue) × (enqueue b q ≡ ok p) × IsQueue p (xs ++ (b ∷ []))
unfolding enqueue
enqueue-IsQueue b q xs r h =
    let room =
      neq ((tail_of q.head_tail + sync_concurrency) % 2 ^ 32) (head_of q.head_tail)
        (λ e. omega (arith, r.indices, r.tail_small)) in
    let slot = slot_of_head q xs r in
    let free =
      ap q.slots slot ∙ r.held (length xs) h ∙ get_elem?-beyond xs (length xs) (omega arith) in
    (
      record {
        head_tail = (q.head_tail + 2 ^ 32) % 2 ^ 64;
        slots = put (head_of q.head_tail % sync_concurrency) (some b) q.slots;
      },
      rw (room, free) refl,
      record {
        tail = r.tail;
        tail_small = r.tail_small;
        short = omega (arith, length-append xs (b ∷ []));
        indices = omega (arith, r.indices, r.tail_small, length-append xs (b ∷ []));
        held = λ j k. elim (ℕ_discrete j (length xs)) [
          | yes e ↦
              put_at (head_of q.head_tail % sync_concurrency) ((r.tail + j) % sync_concurrency)
                (some b) q.slots (omega (arith, slot))
              ∙ sym (ap (get_elem? (xs ++ (b ∷ []))) e ∙ get_elem?-append_last xs b)
          | no n ↦
              put_away (head_of q.head_tail % sync_concurrency) (some b) q.slots
                ((r.tail + j) % sync_concurrency) (λ e. n (omega (arith, slot)))
              ∙ r.held j k
              ∙ sym (get_elem?-append_other xs b j n)
        ];
      },
    )

-- Dequeue of an empty queue, and of one whose oldest batch is not applied.
pub dequeue-none :
    (applied : ℕ → Bool) (q : CommitQueue) (x : ℕ) (xs : List ℕ)
    → IsQueue q (x ∷ xs)
    → applied x ≡ false
    → dequeue applied q ≡ none
unfolding dequeue
dequeue-none applied q x xs r a =
    let more =
      neq (tail_of q.head_tail) (head_of q.head_tail)
        (λ e. omega (arith, r.indices, r.tail_small, r.short)) in
    let slot = ap q.slots (slot_of_tail q (x ∷ xs) r) ∙ r.held 0 (omega arith) in
    rw (more, slot, a) refl

pub dequeue_empty : (applied : ℕ → Bool) (q : CommitQueue) → IsQueue q [] → dequeue applied q ≡ none
unfolding dequeue
dequeue_empty applied q r =
    let same : tail_of q.head_tail ≡ head_of q.head_tail = omega (arith, r.indices, r.tail_small) in
    let e : (tail_of q.head_tail == head_of q.head_tail) ≡ true = grind arith in rw e refl

-- Dequeue takes the oldest batch if it is applied.
pub dequeue-IsQueue :
    (applied : ℕ → Bool) (q : CommitQueue) (x : ℕ) (xs : List ℕ)
    → IsQueue q (x ∷ xs)
    → applied x ≡ true
    → (p : CommitQueue) × (dequeue applied q ≡ some (x, p)) × IsQueue p xs
unfolding dequeue
dequeue-IsQueue applied q x xs r a =
    let more =
      neq (tail_of q.head_tail) (head_of q.head_tail)
        (λ e. omega (arith, r.indices, r.tail_small, r.short)) in
    let slot = slot_of_tail q (x ∷ xs) r in
    let held = ap q.slots slot ∙ r.held 0 (omega arith) in
    (
      record {
        head_tail = pack (head_of q.head_tail) ((tail_of q.head_tail + 1) % 2 ^ 32);
        slots = put (tail_of q.head_tail % sync_concurrency) none q.slots;
      },
      rw (more, held, a) refl,
      record {
        tail = (r.tail + 1) % 2 ^ 32;
        tail_small = omega arith;
        short = omega (arith, r.short);
        indices = omega (arith, r.indices, r.tail_small);
        held = λ j k. elim (ℕ_discrete (suc j) sync_concurrency) [
          | yes e ↦
              put_at (tail_of q.head_tail % sync_concurrency)
                (((r.tail + 1) % 2 ^ 32 + j) % sync_concurrency) none q.slots
                (omega (arith, slot, r.tail_small))
              ∙ sym (get_elem?-beyond xs j (omega (arith, r.short)))
          | no n ↦
              put_away (tail_of q.head_tail % sync_concurrency) none q.slots
                (((r.tail + 1) % 2 ^ 32 + j) % sync_concurrency)
                (λ e. n (omega (arith, slot, r.tail_small)))
              ∙ ap q.slots (omega (arith, r.tail_small))
              ∙ r.held (suc j) (omega arith)
        ];
      },
    )

-- The queue as a list: what an enqueue and a dequeue come to.
abbrev pub front : (ℕ → Bool) → List ℕ → Option (ℕ × List ℕ)
front applied [] = none
front applied (x ∷ xs) = if applied x then some (x, xs) else none

abbrev pub Stores : ℕ → List ℕ → Outcome CommitQueue → Type 0
Stores b xs (ok p) = (length xs < sync_concurrency) × IsQueue p (xs ++ (b ∷ []))
Stores b xs panic = length xs ≡ sync_concurrency
Stores b xs stuck = ⊥

abbrev pub Answers : Option (ℕ × CommitQueue) → Option (ℕ × List ℕ) → Type 0
Answers none none = Unit {0}
Answers (some (x, p)) (some (y, ys)) = (x ≡ y) × IsQueue p ys
Answers none (some a) = ⊥
Answers (some a) none = ⊥
