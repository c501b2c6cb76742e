-- ===== src/Rangedel/Fragment/Pending.antt =====
-- What is pending after calls of the Fragmenter (internal/rangedel/fragmenter.go), for the keys that
-- are still to come.
use pebble.Prelude.{ℕ, ◌≡◌, ◌⊎◌, ◌↔◌, refl, inl, inr, List, [], ◌∷◌, ◌++◌, All, Any}
use pebble.Prelude.Outcome.{ok}
use pebble.Prelude.Sort.{IsSort}
use pebble.Key.{Compare, IsCompare}
use pebble.Key.TotalOrder.{Le}
use pebble.Rangedel.{Tombstone, Fragmenter}
use pebble.Rangedel.Fragment.{ends_less, seqs_less, new_fragmenter}
use pebble.Rangedel.Fragment.Chunks.{Covers}
use pebble.Rangedel.Fragment.Cut.{IsStored}
use pebble.Rangedel.Fragment.Conserve.{IsOpen, IsOpen-weaken}
use pebble.Rangedel.Fragment.Calls.{
  FragmentCall, call_key, added, IsOrdered, steps, steps-next, call-IsStep,
}
use pebble.Rangedel.Fragment.Runs.{added-split, added-All}

module _ (cmp : Compare) (total : IsCompare cmp)
    (sort_ends sort_seqs : List Tombstone → List Tombstone)
    (ends : IsSort (ends_less cmp) sort_ends) (seqs : IsSort seqs_less sort_seqs) where
  -- The calls lead to a Fragmenter that is open at the key, and what covers the key there is what
  -- did and what was added.
  abbrev pub Leads : List ℕ → List FragmentCall → Fragmenter → Type 0
  Leads u calls f =
      (g : Fragmenter) × (out : List (List Tombstone)) × (steps cmp sort_ends sort_seqs calls f
        ≡ ok (g, out))
      × IsOpen cmp total sort_ends sort_seqs ends seqs u g
      × ((n : ℕ)
          → Any (Covers cmp u n) g.pending
            ↔ (Any (Covers cmp u n) f.pending ⊎ Any (Covers cmp u n) (added calls)))

  steps-Leads :
      (calls : List FragmentCall) (j : List ℕ) (f : Fragmenter) (u : List ℕ)
      → IsOrdered cmp j calls
      → All IsStored (added calls)
      → Le cmp j u
      → All (λ c. Le cmp (call_key c) u) calls
      → IsOpen cmp total sort_ends sort_seqs ends seqs j f
      → Leads u calls f
  steps-Leads [] j f u s a l b o = (
    f,
    [],
    unfold steps in refl,
    IsOpen-weaken cmp total sort_ends sort_seqs ends seqs j u f l o,
    λ n. (λ m. inl m, λ m. elim m [ inl p ↦ p | inr p ↦ absurd p ]),
  )
  steps-Leads (c ∷ cs) j f u (k, s) a l (b, bs) o =
      let split : (n : ℕ)
          → Any (Covers cmp u n) (added (c ∷ cs))
            ↔ (Any (Covers cmp u n) (added (c ∷ [])) ⊎ Any (Covers cmp u n) (added cs)) =
        λ n. added-split cmp total sort_ends sort_seqs ends seqs (Covers cmp u n) c cs in
      let (a0, others) = added-All cmp total sort_ends sort_seqs ends seqs IsStored c cs a in
      let (g, here, r, still, cons, keeps) =
        call-IsStep cmp total sort_ends sort_seqs ends seqs c cs j f k a0 o in
      let (h, out, q, still_open, e) = steps-Leads cs (call_key c) g u s others b bs still in
      (
        h,
        here ++ out,
        steps-next cmp sort_ends sort_seqs c cs f g h here out r q,
        still_open,
        λ n. (
          λ m. elim ((e n).0 m) [
            | inr p ↦ inr ((split n).1 (inr p))
            | inl p ↦ elim ((cons u n).0 (inl p)) [
              | inl x ↦ inl x
              | inr x ↦ inr ((split n).1 (inl x))
            ]
          ],
          λ m. (e n).1 (elim m [
            | inl p ↦ inl (keeps u n b (inl p))
            | inr p ↦ elim ((split n).0 p) [ inl x ↦ inl (keeps u n b (inr x)) | inr x ↦ inr x ]
          ]),
        ),
      )

  -- Calls on a new Fragmenter: what covers the key is what was added.
  pub steps-pending :
      (calls : List FragmentCall) (j u : List ℕ)
      → IsOrdered cmp j calls
      → All IsStored (added calls)
      → Le cmp j u
      → All (λ c. Le cmp (call_key c) u) calls
      → (g : Fragmenter) × (out : List (List Tombstone)) × (steps cmp sort_ends sort_seqs calls
            new_fragmenter
          ≡ ok (g, out))
        × IsOpen cmp total sort_ends sort_seqs ends seqs u g
        × ((n : ℕ) → Any (Covers cmp u n) g.pending ↔ Any (Covers cmp u n) (added calls))
  unfolding new_fragmenter
  steps-pending calls j u s a l b =
      let (g, out, r, still_open, e) = steps-Leads calls j new_fragmenter u s a l b (record {
        running = refl;
        flushed = tt;
        first = j;
        first_le = inl refl;
        together = tt;
        stored = tt;
      }) in
      (
        g,
        out,
        r,
        still_open,
        λ n. (λ m. elim ((e n).0 m) [ inl p ↦ absurd p | inr p ↦ p ], λ m. (e n).1 (inr m)),
      )
