-- ===== src/LogRecycler/Queue.antt =====
-- The recycling queue is bounded, ascending and free of duplicates (log_recycler.go).
use pebble.Prelude.{
  ℕ, ◌≤◌, ◌<◌, ◌≡◌, ◌⊎◌, inl, inr, refl, sym, ◌∙◌, leb, ap, Bool-cases, true, false, Option, none,
  some, List, [], ◌∷◌, ◌++◌, ◌==◌, length, length-append, All, All-map, arith,
}
use mathlib.Core.Path.{subst}
use mathlib.Core.List.{append_assoc}
use pebble.LogRecycler.{LogRecycler, new_log_recycler, add, PopError, pop}

abbrev pub IsAscending : List ℕ → Type 0
IsAscending [] = Unit {0}
IsAscending (n ∷ ns) = All (λ m. n < m) ns × IsAscending ns

-- Every queued number may be recycled and was the largest when it was added.
pub record IsValid (r : LogRecycler) : Type 0 where
  pub bounded : length r.log_nums ≤ r.limit
  pub ascending : IsAscending r.log_nums
  pub in_range : All (λ n. (r.min_recycle_log_num ≤ n) × (n ≤ r.max_log_num)) r.log_nums

All-snoc {κ} : (P : ℕ → Type κ) (ns : List ℕ) (n : ℕ) → All P ns → P n → All P (ns ++ (n ∷ []))
All-snoc P [] n a p = (p, tt)
All-snoc P (m ∷ ns) n a p = (a.0, All-snoc P ns n (a.1) p)

IsAscending-snoc :
    (ns : List ℕ) (n : ℕ) → IsAscending ns → All (λ m. m < n) ns → IsAscending (ns ++ (n ∷ []))
IsAscending-snoc [] n a h = (tt, tt)
IsAscending-snoc (m ∷ ns) n a h = (All-snoc _ ns n (a.0) (h.0), IsAscending-snoc ns n (a.1) (h.1))

pub new_log_recycler-IsValid : (limit m : ℕ) → IsValid (new_log_recycler limit m)
unfolding new_log_recycler
new_log_recycler-IsValid limit m = omega arith

-- The state after an accepted number.
accepted : ℕ → LogRecycler → LogRecycler
accepted n r = record r { max_log_num = n; log_nums = r.log_nums ++ (n ∷ []) }

raised-in_range :
    (r : LogRecycler) (n : ℕ)
    → r.max_log_num < n
    → IsValid r
    → All (λ m. (r.min_recycle_log_num ≤ m) × (m ≤ n)) r.log_nums
raised-in_range r n h v = All-map r.log_nums (λ m p. (p.0, omega (arith, p.1))) v.in_range

accepted-IsValid :
    (r : LogRecycler) (n : ℕ)
    → r.min_recycle_log_num ≤ n
    → r.max_log_num < n
    → length r.log_nums < r.limit
    → IsValid r
    → IsValid (accepted n r)
unfolding accepted
accepted-IsValid r n lo hi room v = record {
  bounded = omega (arith, length-append r.log_nums (n ∷ []), room);
  ascending =
      IsAscending-snoc r.log_nums n v.ascending
        (All-map r.log_nums (λ m p. omega (arith, p.1, hi)) v.in_range);
  in_range = All-snoc _ r.log_nums n (raised-in_range r n hi v) (lo, omega arith);
}

leb-true : {m n : ℕ} → m ≤ n → leb m n ≡ true
leb-true h = ground arith

leb-false : {m n : ℕ} → n < m → leb m n ≡ false
leb-false h = ground arith

-- The four outcomes of `add`.
add-cases :
    (n : ℕ) (r : LogRecycler)
    → ((n < r.min_recycle_log_num) × (add n r ≡ (r, false)))
      ⊎ (((r.min_recycle_log_num ≤ n) × (n ≤ r.max_log_num) × (add n r ≡ (r, true)))
          ⊎ (((r.min_recycle_log_num ≤ n)
                × (r.max_log_num < n)
                × (r.limit ≤ length r.log_nums)
                × (add n r ≡ (record r { max_log_num = n }, false)))
              ⊎ ((r.min_recycle_log_num ≤ n)
                  × (r.max_log_num < n)
                  × (length r.log_nums < r.limit)
                  × (add n r ≡ (accepted n r, true)))))
unfolding add accepted
add-cases n r = ground arith

-- Offering a log file keeps the queue valid, on each of the four outcomes. Offering the same file
-- again changes nothing: a file whose number is at least the minimum is then kept, also one that
-- found the queue full, and a file below the minimum is refused again.
pub add-IsValid :
    (n : ℕ) (r : LogRecycler)
    → IsValid r
    → IsValid (add n r).0 × (add n (add n r).0 ≡ ((add n r).0, leb r.min_recycle_log_num n))
add-IsValid n r v = elim (add-cases n r) [
  | inl (below, e) ↦ rw e (v, e ∙ ap (λ b. (r, b)) (sym (leb-false below)))
  | inr (inl (lo, seen, e)) ↦ rw e (v, e ∙ ap (λ b. (r, b)) (sym (leb-true lo)))
  | inr (inr (inl (lo, fresh, full, e))) ↦ rw e (
    record { bounded = v.bounded; ascending = v.ascending; in_range = raised-in_range r n fresh v },
    unfold add in ground arith,
  )
  | inr (inr (inr (lo, fresh, room, e))) ↦
      rw e (accepted-IsValid r n lo fresh room v, unfold add accepted in ground arith)
]

pub data Call : Type 0 where
  add_call : ℕ → Call
  pop_call : ℕ → Call

abbrev after_pop : ℕ → List ℕ → LogRecycler × Option PopError → List ℕ × LogRecycler
after_pop n out (r, none) = (out ++ (n ∷ []), r)
after_pop n out (r, some e) = (out, r)

-- The numbers handed out so far, and the recycler.
unfoldable pub call : Call → List ℕ × LogRecycler → List ℕ × LogRecycler
call (add_call n) (out, r) = (out, (add n r).0)
call (pop_call n) (out, r) = after_pop n out (pop n r)

unfoldable pub run : List Call → List ℕ × LogRecycler → List ℕ × LogRecycler
run [] s = s
run (c ∷ cs) s = run cs (call c s)

-- What was handed out and what is queued, in order.
record IsServed (s : List ℕ × LogRecycler) : Type 0 where
  valid : IsValid s.1
  ordered : IsAscending (s.0 ++ (s.1).log_nums)
  capped : All (λ m. m ≤ (s.1).max_log_num) (s.0 ++ (s.1).log_nums)

add-IsServed :
    (n : ℕ) (out : List ℕ) (r : LogRecycler) → IsServed (out, r) → IsServed (out, (add n r).0)
unfolding accepted
add-IsServed n out r h = elim (add-cases n r) [
  | inl (below, e) ↦ rw e h
  | inr (inl (lo, seen, e)) ↦ rw e h
  | inr (inr (inl (lo, fresh, full, e))) ↦ rw e (record {
    valid = rw e at ((add-IsValid n r h.valid).0);
    ordered = h.ordered;
    capped = All-map (out ++ r.log_nums) (λ m p. omega (arith, p, fresh)) h.capped;
  })
  | inr (inr (inr (lo, fresh, room, e))) ↦ rw e (record {
    valid = accepted-IsValid r n lo fresh room h.valid;
    ordered = rw (← append_assoc out r.log_nums (n ∷ [])) (
        IsAscending-snoc (out ++ r.log_nums) n h.ordered
          (All-map (out ++ r.log_nums) (λ m p. omega (arith, p, fresh)) h.capped));
    capped = rw (← append_assoc out r.log_nums (n ∷ [])) (
        All-snoc (λ m. m ≤ n) (out ++ r.log_nums) n
          (All-map (out ++ r.log_nums) (λ m p. omega (arith, p, fresh)) h.capped) (omega arith));
  })
]

-- A pop takes the number at the head, or fails and changes nothing.
pop-cases :
    (n : ℕ) (r : LogRecycler)
    → ((ns : List ℕ) × (r.log_nums ≡ n ∷ ns) × (pop n r ≡ (record r { log_nums = ns }, none)))
      ⊎ ((e : PopError) × (pop n r ≡ (r, some e)))
pop-cases n r = go r.log_nums refl
  where
    go :
        (l : List ℕ)
        → r.log_nums ≡ l
        → ((ns : List ℕ) × (r.log_nums ≡ n ∷ ns) × (pop n r ≡ (record r { log_nums = ns }, none)))
          ⊎ ((e : PopError) × (pop n r ≡ (r, some e)))
    go [] e = inr (PopError.empty, unfold pop in ground arith)
    go (m ∷ ns) e = elim (Bool-cases (m == n)) [
      | inl same ↦ inl (ns, ground arith, unfold pop in ground arith)
      | inr other ↦ inr (PopError.invalid, unfold pop in ground arith)
    ]

popped-IsServed :
    (n : ℕ) (out ns : List ℕ) (r : LogRecycler)
    → r.log_nums ≡ n ∷ ns
    → IsServed (out, r)
    → IsServed (out ++ (n ∷ []), record r { log_nums = ns })
popped-IsServed n out ns r e h =
    let v : All (λ m. (r.min_recycle_log_num ≤ m) × (m ≤ r.max_log_num)) (n ∷ ns) =
      subst (All (λ m. (r.min_recycle_log_num ≤ m) × (m ≤ r.max_log_num))) e h.valid.in_range in
    record {
      valid = record {
        bounded = omega (arith, ap length e, h.valid.bounded);
        ascending = (subst IsAscending e h.valid.ascending).1;
        in_range = v.1;
      };
      ordered = rw (append_assoc out (n ∷ []) ns) (subst (λ l. IsAscending (out ++ l)) e h.ordered);
      capped =
          rw (append_assoc out (n ∷ []) ns)
            (subst (λ l. All (λ m. m ≤ r.max_log_num) (out ++ l)) e h.capped);
    }

call-IsServed : (c : Call) (s : List ℕ × LogRecycler) → IsServed s → IsServed (call c s)
unfolding call
call-IsServed (add_call n) (out, r) h = add-IsServed n out r h
call-IsServed (pop_call n) (out, r) h = elim (pop-cases n r) [
  | inl (ns, e, p) ↦ rw (p, call) (popped-IsServed n out ns r e h)
  | inr (x, p) ↦ rw (p, call) h
]

run-IsServed : (cs : List Call) (s : List ℕ × LogRecycler) → IsServed s → IsServed (run cs s)
unfolding run
run-IsServed [] s h = h
run-IsServed (c ∷ cs) s h = run-IsServed cs (call c s) (call-IsServed c s h)

-- After any calls on a fresh recycler the queue is valid, and the numbers handed out by
-- successful pops followed by the queue are strictly ascending: no log file is handed out twice,
-- and files are handed out in the order of their numbers.
pub run-IsAscending :
    (limit m : ℕ) (cs : List Call)
    → let (out, r) = run cs ([], new_log_recycler limit m) in
      IsValid r × IsAscending (out ++ r.log_nums)
run-IsAscending limit m cs =
    let h =
      run-IsServed cs ([], new_log_recycler limit m) (unfold new_log_recycler in omega arith) in
    (h.valid, h.ordered)
