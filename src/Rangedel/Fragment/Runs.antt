-- ===== src/Rangedel/Fragment/Runs.antt =====
-- Whole runs of the Fragmenter (internal/rangedel/fragmenter.go): calls in the order of their keys,
-- and then Finish.
use pebble.Prelude.{
  ℕ, ◌≡◌, ◌⊎◌, ◌↔◌, refl, inl, inr, true, none, List, [], ◌∷◌, ◌++◌, All, Any, Any-append,
  Any-append_of,
}
use pebble.Prelude.Outcome.{ok}
use pebble.Prelude.Sort.{IsSort}
use pebble.Key.{Compare, IsCompare}
use pebble.Rangedel.{Tombstone, Fragmenter}
use pebble.Rangedel.Fragment.{ends_less, seqs_less, finish, new_fragmenter}
use pebble.Rangedel.Fragment.Chunks.{Covers}
use pebble.Rangedel.Fragment.Flush.{flush-IsFlush}
use pebble.Rangedel.Fragment.Cut.{IsStored}
use pebble.Rangedel.Fragment.Conserve.{IsOpen}
use pebble.Rangedel.Fragment.Calls.{
  FragmentCall, add_call, flush_call, truncate_call, call_key, added, IsOrdered, run, run-next,
  call-IsStep,
}

module _ (cmp : Compare) (total : IsCompare cmp)
    (sort_ends sort_seqs : List Tombstone → List Tombstone)
    (ends : IsSort (ends_less cmp) sort_ends) (seqs : IsSort seqs_less sort_seqs) where
  pub added-split :
      (P : Tombstone → Type 0) (c : FragmentCall) (cs : List FragmentCall)
      → Any P (added (c ∷ cs)) ↔ (Any P (added (c ∷ [])) ⊎ Any P (added cs))
  added-split P (add_call t) cs = (
    λ m. elim m [ inl p ↦ inl (inl p) | inr p ↦ inr p ],
    λ m. elim m [ inl (inl p) ↦ inl p | inl (inr p) ↦ absurd p | inr p ↦ inr p ],
  )
  added-split P (flush_call key) cs = (λ m. inr m, λ m. elim m [ inl p ↦ absurd p | inr p ↦ p ])
  added-split P (truncate_call key) cs = (λ m. inr m, λ m. elim m [ inl p ↦ absurd p | inr p ↦ p ])

  pub added-All :
      (P : Tombstone → Type 0) (c : FragmentCall) (cs : List FragmentCall)
      → All P (added (c ∷ cs))
      → All P (added (c ∷ [])) × All P (added cs)
  added-All P (add_call t) cs (a, b) = ((a, tt), b)
  added-All P (flush_call key) cs a = (tt, a)
  added-All P (truncate_call key) cs a = (tt, a)

  finish-Emits :
      (j : List ℕ) (f : Fragmenter)
      → IsOpen cmp total sort_ends sort_seqs ends seqs j f
      → (g : Fragmenter) × (out : List (List Tombstone)) × (finish cmp sort_ends sort_seqs f
          ≡ ok (g, out))
        × ((u : List ℕ) (n : ℕ) → Any (Any (Covers cmp u n)) out ↔ Any (Covers cmp u n) f.pending)
  finish-Emits j f o =
      let (out, left, r, (sound, complete, back, forth)) =
        flush-IsFlush cmp total sort_ends sort_seqs ends seqs none o.first f.pending o.together in
      (
        record f { pending = left; finished = true },
        out,
        unfold finish in rw (o.running, r) refl,
        λ u n. (λ m. sound u n m, λ m. elim (complete u n m) [ inl x ↦ x | inr x ↦ absurd x ]),
      )

  run-Emits :
      (calls : List FragmentCall) (j : List ℕ) (f : Fragmenter)
      → IsOrdered cmp j calls
      → All IsStored (added calls)
      → IsOpen cmp total sort_ends sort_seqs ends seqs j f
      → (g : Fragmenter) × (out : List (List Tombstone)) × (run cmp sort_ends sort_seqs calls f
          ≡ ok (g, out))
        × ((u : List ℕ) (n : ℕ)
            → Any (Any (Covers cmp u n)) out
              ↔ (Any (Covers cmp u n) f.pending ⊎ Any (Covers cmp u n) (added calls)))
  run-Emits [] j f s a o =
      let (g, out, r, e) = finish-Emits j f o in
      (
        g,
        out,
        unfold run in r,
        λ u n. (λ m. inl ((e u n).0 m), λ m. elim m [ inl p ↦ (e u n).1 p | inr p ↦ absurd p ]),
      )
  run-Emits (c ∷ cs) j f (l, s) a o =
      let (a0, others) = added-All IsStored c cs a in
      let (g, here, r, still, cons, keeps) =
        call-IsStep cmp total sort_ends sort_seqs ends seqs c cs j f l a0 o in
      let (h, out, q, e) = run-Emits cs (call_key c) g s others still in
      (
        h,
        here ++ out,
        run-next cmp sort_ends sort_seqs c cs f g h here out r q,
        λ u n. (
          λ m. elim (Any-append (Any (Covers cmp u n)) here out m) [
            | inl p ↦ before u n c cs ((cons u n).0 (inr p))
            | inr p ↦ elim ((e u n).0 p) [
              | inl x ↦ before u n c cs ((cons u n).0 (inl x))
              | inr x ↦ inr ((added-split (Covers cmp u n) c cs).1 (inr x))
            ]
          ],
          λ m. Any-append_of (Any (Covers cmp u n)) here out (
              let now : Any (Covers cmp u n) f.pending ⊎ Any (Covers cmp u n) (added (c ∷ []))
                  → Any (Any (Covers cmp u n)) here ⊎ Any (Any (Covers cmp u n)) out =
                λ p. elim ((cons u n).1 p) [ inl x ↦ inr ((e u n).1 (inl x)) | inr x ↦ inl x ] in
              elim m [
                | inl p ↦ now (inl p)
                | inr p ↦ elim ((added-split (Covers cmp u n) c cs).0 p) [
                  | inl x ↦ now (inr x)
                  | inr x ↦ inr ((e u n).1 (inr x))
                ]
              ]),
        ),
      )
    where
      before :
          (u : List ℕ) (n : ℕ) (c : FragmentCall) (cs : List FragmentCall)
          → Any (Covers cmp u n) f.pending ⊎ Any (Covers cmp u n) (added (c ∷ []))
          → Any (Covers cmp u n) f.pending ⊎ Any (Covers cmp u n) (added (c ∷ cs))
      before u n c cs (inl p) = inl p
      before u n c cs (inr p) = inr ((added-split (Covers cmp u n) c cs).1 (inl p))

  -- With calls whose keys ascend, a run from a new Fragmenter ends without a panic, and the fragments
  -- that it emits cover a key with a trailer exactly if a tombstone that was added covers the key and
  -- has that trailer. The sorts are any that behave as sort.Sort is documented.
  pub run_conserves :
      (calls : List FragmentCall) (key : List ℕ)
      → IsOrdered cmp key calls
      → All IsStored (added calls)
      → (g : Fragmenter) × (out : List (List Tombstone)) × (run cmp sort_ends sort_seqs calls
            new_fragmenter
          ≡ ok (g, out))
        × ((u : List ℕ) (n : ℕ)
            → Any (Any (Covers cmp u n)) out ↔ Any (Covers cmp u n) (added calls))
  unfolding new_fragmenter
  run_conserves calls key s a =
      let (g, out, r, e) = run-Emits calls key new_fragmenter s a (record {
        running = refl;
        flushed = tt;
        first = key;
        first_le = inl refl;
        together = tt;
        stored = tt;
      }) in
      (
        g,
        out,
        r,
        λ u n. (λ m. elim ((e u n).0 m) [ inl p ↦ absurd p | inr p ↦ p ], λ m. (e u n).1 (inr m)),
      )
