-- ===== src/LogRecycler.antt =====
-- The queue of log files kept for reuse: log_recycler.go. A method is one critical section of the
-- mutex, and takes and returns the fields that it guards.
pub mod Queue
mod Examples
use pebble.Prelude.{
  ℕ, Bool, true, false, Option, none, some, List, [], ◌∷◌, ◌++◌, ltb, leb, ◌==◌, if◌then◌else◌,
  length,
}

pub record LogRecycler : Type 0 where
  pub limit : ℕ
  pub min_recycle_log_num : ℕ
  pub log_nums : List ℕ
  pub max_log_num : ℕ

-- A fresh recycler: `limit` and `min_recycle_log_num` are set by the opener of the database.
unfoldable pub new_log_recycler : ℕ → ℕ → LogRecycler
new_log_recycler limit min_num = record {
  limit = limit;
  min_recycle_log_num = min_num;
  log_nums = [];
  max_log_num = 0;
}

-- True says that the file must not be deleted.
unfoldable pub add : ℕ → LogRecycler → LogRecycler × Bool
add log_num r =
    if ltb log_num r.min_recycle_log_num
    then (r, false)
    else if leb log_num r.max_log_num
    then (r, true)
    else if leb r.limit (length r.log_nums)
    then (record r { max_log_num = log_num }, false)
    else (record r { max_log_num = log_num; log_nums = r.log_nums ++ (log_num ∷ []) }, true)

head_or_zero : List ℕ → ℕ
head_or_zero [] = 0
head_or_zero (n ∷ ns) = n

unfoldable pub peek : LogRecycler → ℕ
unfolding head_or_zero
peek r = head_or_zero r.log_nums

unfoldable pub count : LogRecycler → ℕ
count r = length r.log_nums

pub data PopError : Type 0 where
  empty invalid : PopError

pop_from : List ℕ → ℕ → LogRecycler → LogRecycler × Option PopError
pop_from [] log_num r = (r, some empty)
pop_from (n ∷ ns) log_num r =
    if n == log_num then (record r { log_nums = ns }, none) else (r, some invalid)

unfoldable pub pop : ℕ → LogRecycler → LogRecycler × Option PopError
unfolding pop_from
pop log_num r = pop_from r.log_nums log_num r
