-- ===== src/Rangedel/Fragment/Flush.antt =====
-- The chunks of flush (internal/rangedel/fragmenter.go) cover what the flushed tombstones cover.
use pebble.Prelude.{
  ℕ, zero, suc, ◌≤◌, ◌≡◌, refl, inl, inr, Bool-cases, true, false, Option, none, some, List, [],
  ◌∷◌, ◌++◌, length, take, drop, length-drop, All, All-at, Any-split, Any-split_of, Any-append,
  Any-append_of, arith,
}
use pebble.Prelude.Outcome.{ok}
use pebble.Prelude.Sort.{All-of, IsSorted, IsSort}
use pebble.Key.{Compare, IsCompare}
use pebble.Key.TotalOrder.{Le, lt_le_trans, lt_or_le}
use pebble.Rangedel.{Tombstone}
use pebble.Rangedel.Fragment.{
  ends_less, seqs_less, with_start, count_ends, passes, flush_loop, flush,
}
use pebble.Rangedel.Fragment.Chunks.{
  Covers, From, Beyond, length-map, Any-sort, Any-sort_of, gt_of_is_gt, chunk_of, chunk_sound,
  chunk_complete, rest_of, rest-From, rest-IsSorted, rest_sound, rest_complete, rest-keeps,
  rest-keeps_of, IsFlush,
}

module _ (cmp : Compare) (total : IsCompare cmp)
    (sort_ends sort_seqs : List Tombstone → List Tombstone)
    (ends : IsSort (ends_less cmp) sort_ends) (seqs : IsSort seqs_less sort_seqs) where
  beyond :
      (last : Option (List ℕ)) (split u : List ℕ)
      → passes cmp last split ≡ true
      → Le cmp split u
      → Beyond cmp last u
  beyond none split u e l = cc
  beyond (some key) split u e l =
      lt_le_trans cmp total key split u (total.lt_of_gt split key (gt_of_is_gt (cmp split key) e)) l

  flush_loop-stop :
      (fuel : ℕ) (last : Option (List ℕ)) (t : Tombstone) (ts : List Tombstone)
      → passes cmp last t.end ≡ true
      → flush_loop cmp sort_ends sort_seqs (suc fuel) last (t ∷ ts)
        ≡ ok (chunk_of cmp total sort_ends sort_seqs ends seqs t ts ∷ [], t ∷ ts)
  unfolding flush_loop chunk_of
  flush_loop-stop fuel last t ts e = rw e refl

  flush_loop-step :
      (fuel : ℕ) (last : Option (List ℕ)) (t : Tombstone) (ts : List Tombstone)
      (cs : List (List Tombstone)) (left : List Tombstone)
      → passes cmp last t.end ≡ false
      → flush_loop cmp sort_ends sort_seqs fuel last
          (rest_of cmp total sort_ends sort_seqs ends seqs t ts)
        ≡ ok (cs, left)
      → flush_loop cmp sort_ends sort_seqs (suc fuel) last (t ∷ ts)
        ≡ ok (
          chunk_of cmp total sort_ends sort_seqs ends seqs t ts ∷ cs,
          t ∷ (take (count_ends cmp t.end ts) ts ++ left),
        )
  unfolding flush_loop chunk_of rest_of
  flush_loop-step fuel last t ts cs left e h = rw (e, h) refl

  length-rest :
      (t : Tombstone) (ts : List Tombstone)
      → length (rest_of cmp total sort_ends sort_seqs ends seqs t ts) ≤ length ts
  unfolding rest_of
  length-rest t ts = omega (
    arith,
    length-map (with_start t.end) (drop (count_ends cmp t.end ts) ts),
    length-drop (count_ends cmp t.end ts) ts,
  )

  pub flush_loop-IsFlush :
      (fuel : ℕ) (last : Option (List ℕ)) (k : List ℕ) (ts : List Tombstone)
      → length ts ≤ fuel
      → All (From cmp k) ts
      → IsSorted (ends_less cmp) ts
      → (cs : List (List Tombstone)) × (left : List Tombstone) × (flush_loop cmp sort_ends sort_seqs
            fuel last ts
          ≡ ok (cs, left))
        × IsFlush cmp total sort_ends sort_seqs ends seqs last ts cs left
  flush_loop-IsFlush fuel last k [] h f s =
      ([], [], unfold flush_loop in refl, (λ u n m. m, λ u n m. absurd m, λ G m. m, λ G m. m))
  flush_loop-IsFlush zero last k (t ∷ ts) h f s = absurd (omega arith)
  flush_loop-IsFlush (suc fuel) last k (t ∷ ts) h f s = elim (Bool-cases (passes cmp last t.end)) [
    | inl e ↦ (
      chunk_of cmp total sort_ends sort_seqs ends seqs t ts ∷ [],
      t ∷ ts,
      flush_loop-stop fuel last t ts e,
      (
        λ u n m. elim m [
          | inl p ↦ chunk_sound cmp total sort_ends sort_seqs ends seqs t ts u n s p
          | inr p ↦ absurd p
        ],
        λ u n m. elim (lt_or_le cmp total u t.end) [
          | inl below ↦
              inl (inl (chunk_complete cmp total sort_ends sort_seqs ends seqs t ts u n below m))
          | inr above ↦ inr (beyond last t.end u e above)
        ],
        λ G m. m,
        λ G m. m,
      ),
    )
    | inr e ↦
        let (cs, left, r, (sound, complete, back, forth)) =
          flush_loop-IsFlush fuel last t.end (rest_of cmp total sort_ends sort_seqs ends seqs t ts)
            (omega (arith, length-rest t ts))
            (rest-From cmp total sort_ends sort_seqs ends seqs t ts s)
            (rest-IsSorted cmp total sort_ends sort_seqs ends seqs t ts s) in
        let c = count_ends cmp t.end ts in
        (
          chunk_of cmp total sort_ends sort_seqs ends seqs t ts ∷ cs,
          t ∷ (take c ts ++ left),
          flush_loop-step fuel last t ts cs left e r,
          (
            λ u n m. elim m [
              | inl p ↦ chunk_sound cmp total sort_ends sort_seqs ends seqs t ts u n s p
              | inr p ↦
                  inr
                    (rest_sound cmp total sort_ends sort_seqs ends seqs k t ts u n f (sound u n p))
            ],
            λ u n m. elim (lt_or_le cmp total u t.end) [
              | inl below ↦
                  inl
                    (inl (chunk_complete cmp total sort_ends sort_seqs ends seqs t ts u n below m))
              | inr above ↦
                  elim (complete u n
                    (rest_complete cmp total sort_ends sort_seqs ends seqs t ts u n s above m)) [
                      | inl p ↦ inl (inr p)
                      | inr p ↦ inr p
                    ]
            ],
            λ G m. elim m [
              | inl p ↦ inl p
              | inr p ↦ inr (
                  Any-split_of (λ x. G x.end x.start.trailer) c ts
                    (elim (Any-append (λ x. G x.end x.start.trailer) (take c ts) left p) [
                      | inl q ↦ inl q
                      | inr q ↦
                          inr (rest-keeps cmp total sort_ends sort_seqs ends seqs G t ts (back G q))
                    ]))
            ],
            λ G m. elim m [
              | inl p ↦ inl p
              | inr p ↦ inr (
                  Any-append_of (λ x. G x.end x.start.trailer) (take c ts) left
                    (elim (Any-split (λ x. G x.end x.start.trailer) c ts p) [
                      | inl q ↦ inl q
                      | inr q ↦
                          inr (
                            forth G
                              (rest-keeps_of cmp total sort_ends sort_seqs ends seqs G t ts q))
                    ]))
            ],
          ),
        )
  ]

  pub flush-IsFlush :
      (last : Option (List ℕ)) (k : List ℕ) (ts : List Tombstone)
      → All (From cmp k) ts
      → (cs : List (List Tombstone)) × (left : List Tombstone) × (flush cmp sort_ends sort_seqs ts
            last
          ≡ ok (cs, left))
        × IsFlush cmp total sort_ends sort_seqs ends seqs last ts cs left
  unfolding flush
  flush-IsFlush last k ts f =
      let b = sort_ends ts in
      let from = All-of (From cmp k) b (λ t m. All-at (From cmp k) t ts f (ends.among t ts m)) in
      let (cs, left, r, (sound, complete, back, forth)) =
        flush_loop-IsFlush (length b) last k b (omega arith) from (ends.sorted ts) in
      (
        cs,
        left,
        r,
        (
          λ u n m. Any-sort ends (Covers cmp u n) ts (sound u n m),
          λ u n m. complete u n (Any-sort_of ends (Covers cmp u n) ts m),
          λ G m. Any-sort ends (λ t. G t.end t.start.trailer) ts (back G m),
          λ G m. forth G (Any-sort_of ends (λ t. G t.end t.start.trailer) ts m),
        ),
      )
