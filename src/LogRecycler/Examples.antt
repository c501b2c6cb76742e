-- ===== src/LogRecycler/Examples.antt =====
-- The recycler at concrete calls (log_recycler.go).
use pebble.Prelude.{◌≡◌, refl, true, List, [], ◌∷◌, ◌++◌}
use pebble.LogRecycler.{new_log_recycler, add, peek, count, pop}
use pebble.LogRecycler.Queue.{
  IsValid, IsAscending, Call, add_call, pop_call, call, run, new_log_recycler-IsValid, add-IsValid,
  run-IsAscending,
}

add-IsValid_example :
    IsValid (add 5 (new_log_recycler 2 3)).0
    × (add 5 (add 5 (new_log_recycler 2 3)).0 ≡ ((add 5 (new_log_recycler 2 3)).0, true))
unfolding new_log_recycler
add-IsValid_example = add-IsValid 5 (new_log_recycler 2 3) (new_log_recycler-IsValid 2 3)

-- 1 is below the minimum, 7 finds the queue full, 4 is out of order, 6 is not at the head.
abbrev calls : List Call
calls =
    add_call 1 ∷ add_call 5 ∷ add_call 6 ∷ add_call 7 ∷ add_call 4 ∷ pop_call 6 ∷ pop_call 5 ∷ []

run-IsAscending_example :
    let (out, r) = run calls ([], new_log_recycler 2 3) in
    IsValid r × IsAscending (out ++ r.log_nums)
run-IsAscending_example = run-IsAscending 2 3 calls

run-calls :
    let (out, r) = run calls ([], new_log_recycler 2 3) in
    (out ≡ 5 ∷ []) × (r.log_nums ≡ 6 ∷ []) × (peek r ≡ 6) × (count r ≡ 1)
unfolding run call add pop peek count new_log_recycler
run-calls = (refl, refl, refl, refl)
