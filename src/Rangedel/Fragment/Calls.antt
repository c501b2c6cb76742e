-- ===== src/Rangedel/Fragment/Calls.antt =====
-- One call of the Fragmenter (internal/rangedel/fragmenter.go) keeps what a run relies on.
use pebble.Prelude.{
  ℕ, ◌^◌, ◌<◌, ◌≡◌, refl, ◌∙◌, inl, inr, Bool-cases, Bool, true, false, not, ◌||◌, some, List, [],
  ◌∷◌, ◌++◌, All, All-at, Any, Any-Among, Any-of_Among, if◌then◌else◌,
}
use mathlib.Core.Path.{subst}
use pebble.Prelude.Outcome.{Outcome, ok, ◌>>=◌}
use pebble.Prelude.Sort.{IsSort, All-of}
use pebble.Key.{Compare, IsCompare, is_lt}
use pebble.Key.TotalOrder.{Lt, Le, lt_irrefl, lt_le_trans, le_trans, lt_of_is_lt, le_of_not_lt}
use pebble.Rangedel.{Tombstone, Fragmenter}
use pebble.Rangedel.Fragment.{
  ends_less, seqs_less, cut_behind, is_behind, is_before_pending, is_at_pending, add, flush_to,
  truncate_and_flush_to, finish,
}
use pebble.Rangedel.Fragment.Flush.{flush-IsFlush}
use pebble.Rangedel.Fragment.Cut.{
  IsStored, cut_behind-IsStored, cut_behind-From, cut_behind_sound, cut_behind_complete,
}
use pebble.Rangedel.Fragment.Conserve.{
  IsOpen, IsStep, FlushedLe-mono, behind_false, before_false, Covers-of_Reaches, Reaches-of_Covers,
  truncate_and_flush-IsStep, same-Conserves, same-Keeps, IsOpen-weaken, add_pending-IsStep,
}

-- The calls that a compaction makes before Finish.
pub data FragmentCall : Type 0 where
  add_call : Tombstone → FragmentCall
  flush_call truncate_call : List ℕ → FragmentCall

abbrev pub call_key : FragmentCall → List ℕ
call_key (add_call t) = t.start.user_key
call_key (flush_call key) = key
call_key (truncate_call key) = key

abbrev pub added : List FragmentCall → List Tombstone
added [] = []
added (add_call t ∷ cs) = t ∷ added cs
added (flush_call key ∷ cs) = added cs
added (truncate_call key ∷ cs) = added cs

-- The keys of the calls ascend from `key` on.
abbrev pub IsOrdered : Compare → List ℕ → List FragmentCall → Type 0
IsOrdered cmp key [] = Unit {0}
IsOrdered cmp key (c ∷ cs) = Le cmp key (call_key c) × IsOrdered cmp (call_key c) cs

module _ (cmp : Compare) (sort_ends sort_seqs : List Tombstone → List Tombstone) where
  unfoldable pub call : FragmentCall → Fragmenter → Outcome (Fragmenter × List (List Tombstone))
  call (add_call t) f = add cmp sort_ends sort_seqs t.start t.end f
  call (flush_call key) f = flush_to cmp sort_ends sort_seqs key f
  call (truncate_call key) f = truncate_and_flush_to cmp sort_ends sort_seqs key f

  -- The calls and then Finish, with all chunks that are emitted.
  unfoldable pub run : List FragmentCall → Fragmenter → Outcome (Fragmenter × List (List Tombstone))
  run [] f = finish cmp sort_ends sort_seqs f
  run (c ∷ cs) f = call c f >>= (λ r. run cs (r.0) >>= (λ s. ok (s.0, r.1 ++ s.1)))

  -- The calls without Finish.
  unfoldable pub steps :
      List FragmentCall → Fragmenter → Outcome (Fragmenter × List (List Tombstone))
  steps [] f = ok (f, [])
  steps (c ∷ cs) f = call c f >>= (λ r. steps cs (r.0) >>= (λ s. ok (s.0, r.1 ++ s.1)))

pub steps-next :
    (cmp : Compare) (sort_ends sort_seqs : List Tombstone → List Tombstone) (c : FragmentCall)
    (cs : List FragmentCall) (f g h : Fragmenter) (here out : List (List Tombstone))
    → call cmp sort_ends sort_seqs c f ≡ ok (g, here)
    → steps cmp sort_ends sort_seqs cs g ≡ ok (h, out)
    → steps cmp sort_ends sort_seqs (c ∷ cs) f ≡ ok (h, here ++ out)
unfolding steps
steps-next cmp sort_ends sort_seqs c cs f g h here out r q = rw (r, q) refl

pub run-next :
    (cmp : Compare) (sort_ends sort_seqs : List Tombstone → List Tombstone) (c : FragmentCall)
    (cs : List FragmentCall) (f g h : Fragmenter) (here out : List (List Tombstone))
    → call cmp sort_ends sort_seqs c f ≡ ok (g, here)
    → run cmp sort_ends sort_seqs cs g ≡ ok (h, out)
    → run cmp sort_ends sort_seqs (c ∷ cs) f ≡ ok (h, here ++ out)
unfolding run
run-next cmp sort_ends sort_seqs c cs f g h here out r q = rw (r, q) refl

if-false : {A : Type 0} (c : Bool) (x y : A) → c ≡ false → (if c then x else y) ≡ y
if-false c x y e = rw e refl

if-true : {A : Type 0} (c : Bool) (x y : A) → c ≡ true → (if c then x else y) ≡ x
if-true c x y e = rw e refl

or-false : (a b : Bool) → a ≡ false → b ≡ false → (a || b) ≡ false
or-false a b e f = rw (e, f) refl

not-false : (a : Bool) → a ≡ true → not a ≡ false
not-false a e = rw e refl

module _ (cmp : Compare) (total : IsCompare cmp)
    (sort_ends sort_seqs : List Tombstone → List Tombstone)
    (ends : IsSort (ends_less cmp) sort_ends) (seqs : IsSort seqs_less sort_seqs) where
  in_order :
      (j key : List ℕ) (f : Fragmenter)
      → Le cmp j key
      → IsOpen cmp total sort_ends sort_seqs ends seqs j f
      → (is_behind cmp key f ≡ false) × (is_before_pending cmp key f.pending ≡ false)
  in_order j key f l o = (
    behind_false cmp total sort_ends sort_seqs ends seqs key f.flushed_key
        (FlushedLe-mono cmp total sort_ends sort_seqs ends seqs j key f.flushed_key l o.flushed),
    before_false cmp total sort_ends sort_seqs ends seqs key o.first f.pending
        (le_trans cmp total o.first j key o.first_le l) o.together,
  )

  add-IsStep :
      (j : List ℕ) (t : Tombstone) (f : Fragmenter)
      → Le cmp j t.start.user_key
      → IsStored t
      → IsOpen cmp total sort_ends sort_seqs ends seqs j f
      → IsStep cmp total sort_ends sort_seqs ends seqs t.start.user_key f
          (t ∷ [])
          (add cmp sort_ends sort_seqs t.start t.end f)
  add-IsStep j t f l st o =
      let key = t.start.user_key in
      let (behind, before) = in_order j key f l o in
      elim (Bool-cases (is_lt (cmp key t.end))) [
        | inl e ↦
            let (g, cs, r, still, cons, keeps) =
              add_pending-IsStep cmp total sort_ends sort_seqs ends seqs j f.pending t f l refl
                (lt_of_is_lt cmp total key t.end e) st o in
            (
              g,
              cs,
              unfold add in
                  (if-false _ _ _ (or-false _ _ o.running behind)
                    ∙ if-false _ _ _ (not-false _ e)
                    ∙ r),
              still,
              cons,
              keeps,
            )
        | inr e ↦ (
          f,
          [],
          unfold add in rw (o.running, behind, e) refl,
          IsOpen-weaken cmp total sort_ends sort_seqs ends seqs j key f l o,
          λ u n. (
            λ m. elim m [ inl p ↦ inl p | inr p ↦ absurd p ],
            λ m. elim m [
              | inl p ↦ inl p
              | inr (inr p) ↦ absurd p
              | inr (inl (p, q, r)) ↦ absurd (
                  lt_irrefl cmp total u (
                    lt_le_trans cmp total u t.end u q
                      (le_trans cmp total t.end key u (le_of_not_lt cmp total key t.end e) p)))
            ],
          ),
          λ u n k m. elim m [
            | inl p ↦ p
            | inr (inr p) ↦ absurd p
            | inr (inl (p, q, r)) ↦ absurd (
                lt_irrefl cmp total u (
                  lt_le_trans cmp total u t.end u q
                    (le_trans cmp total t.end key u (le_of_not_lt cmp total key t.end e) p)))
          ],
        )
      ]

  left-IsStored :
      (ts left : List Tombstone)
      → All IsStored ts
      → ((G : List ℕ → ℕ → Type 0)
          → Any (λ t. G t.end t.start.trailer) left
          → Any (λ t. G t.end t.start.trailer) ts)
      → All IsStored left
  left-IsStored ts left a back = All-of IsStored left (λ t m.
      let G : List ℕ → ℕ → Type 0 = λ e n. n ≡ t.start.trailer in
      let (x, k, e) =
        Any-Among (λ y. G y.end y.start.trailer) ts
          (back G (Any-of_Among (λ y. G y.end y.start.trailer) t left m refl)) in
      subst (λ n. n < 2 ^ 64) e (All-at IsStored x ts a k))

  flush_to-IsStep :
      (j key : List ℕ) (f : Fragmenter)
      → Le cmp j key
      → IsOpen cmp total sort_ends sort_seqs ends seqs j f
      → IsStep cmp total sort_ends sort_seqs ends seqs key f []
          (flush_to cmp sort_ends sort_seqs key f)
  flush_to-IsStep j key f l o =
      let (behind, before) = in_order j key f l o in
      let (cs, left, r, (sound, complete, back, forth)) =
        flush-IsFlush cmp total sort_ends sort_seqs ends seqs (some key) o.first f.pending
          o.together in
      let stored = left-IsStored f.pending left o.stored back in
      (
        record f { pending = cut_behind cmp key left; flushed_key = some key },
        cs,
        unfold flush_to in rw (o.running, behind, before, r) refl,
        record {
          running = o.running;
          flushed = inl refl;
          first = key;
          first_le = inl refl;
          together = cut_behind-From cmp total key left;
          stored = cut_behind-IsStored cmp total key left stored;
        },
        λ u n. (
          λ m. inl (elim m [
            | inr p ↦ sound u n p
            | inl p ↦
                let (k, q) = cut_behind_sound cmp total key left u n stored p in
                Covers-of_Reaches cmp total sort_ends sort_seqs ends seqs o.first f.pending u n
                  o.together
                  (le_trans cmp total o.first key u (le_trans cmp total o.first j key o.first_le l)
                    k)
                  (back (λ e v. Lt cmp u e × (v ≡ n)) q)
          ]),
          λ m. elim m [
            | inr p ↦ absurd p
            | inl p ↦ elim (complete u n p) [
              | inl x ↦ inr x
              | inr x ↦ inl (
                  cut_behind_complete cmp total key left u n stored (inr x) (
                    forth (λ e v. Lt cmp u e × (v ≡ n))
                      (Reaches-of_Covers cmp total sort_ends sort_seqs ends seqs f.pending u n p)))
            ]
          ],
        ),
        λ u n k m. elim m [
          | inr p ↦ absurd p
          | inl p ↦ cut_behind_complete cmp total key left u n stored k (
              forth (λ e v. Lt cmp u e × (v ≡ n))
                (Reaches-of_Covers cmp total sort_ends sort_seqs ends seqs f.pending u n p))
        ],
      )

  truncate_and_flush_to-IsStep :
      (j key : List ℕ) (f : Fragmenter)
      → Le cmp j key
      → IsOpen cmp total sort_ends sort_seqs ends seqs j f
      → IsStep cmp total sort_ends sort_seqs ends seqs key f []
          (truncate_and_flush_to cmp sort_ends sort_seqs key f)
  truncate_and_flush_to-IsStep j key f l o =
      let (behind, before) = in_order j key f l o in
      elim (Bool-cases (is_at_pending cmp key f.pending)) [
        | inl e ↦ (
          f,
          [],
          unfold truncate_and_flush_to in rw (o.running, behind, before, e) refl,
          IsOpen-weaken cmp total sort_ends sort_seqs ends seqs j key f l o,
          same-Conserves cmp total sort_ends sort_seqs ends seqs f,
          same-Keeps cmp total sort_ends sort_seqs ends seqs key f,
        )
        | inr e ↦
            let (g, cs, r, still, cons, keeps, a) =
              truncate_and_flush-IsStep cmp total sort_ends sort_seqs ends seqs j key f l o in
            (
              g,
              cs,
              unfold truncate_and_flush_to in
                  (if-false _ _ _ (or-false _ _ o.running (or-false _ _ behind before))
                    ∙ if-false _ _ _ e
                    ∙ r),
              still,
              cons,
              keeps,
            )
      ]

  pub call-IsStep :
      (c : FragmentCall) (cs : List FragmentCall) (j : List ℕ) (f : Fragmenter)
      → Le cmp j (call_key c)
      → All IsStored (added (c ∷ []))
      → IsOpen cmp total sort_ends sort_seqs ends seqs j f
      → IsStep cmp total sort_ends sort_seqs ends seqs
          (call_key c)
          f
          (added (c ∷ []))
          (call cmp sort_ends sort_seqs c f)
  unfolding call
  call-IsStep (add_call t) cs j f l (a, tt) o = add-IsStep j t f l a o
  call-IsStep (flush_call key) cs j f l a o = flush_to-IsStep j key f l o
  call-IsStep (truncate_call key) cs j f l a o = truncate_and_flush_to-IsStep j key f l o
