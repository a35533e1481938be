-- ===== src/Profile.antt =====
-- src/profile.c: the time measures of a program, their statistics, and the choice of what is reported.
-- Arithmetic is exact: the results are those of the code as far as they fit int64_t.
pub mod Table
pub mod Print
mod Points
mod Iterations
mod Statistics
mod Results
mod Lines
mod Invariant
mod Examples
use mmlib.Base.{
  ℕ, zero, suc, ◌+◌, ◌-◌, ◌*◌, ◌/◌, ◌%◌, Bool, true, false, Option, none, some, List, [], ◌∷◌, ltb,
  leb, ◌==◌, if◌then◌else◌, get_or, set, take, replicate,
}
use mmlib.Base.Int.{ℤ, pos, negsuc, ◌+ℤ◌, ◌-ℤ◌, ltb_ℤ, scale, quotient, pos_part, neg_part}
use mmlib.Base.CString.{Bytes}
use mmlib.Time.{Timespec}

abbrev pub sec_in_nsec : ℕ
sec_in_nsec = 1_000_000_000

abbrev pub num_ts_max : ℕ
num_ts_max = 16

abbrev pub max_label_size : ℕ
max_label_size = 64

abbrev pub int64_max : ℕ
int64_max = 9_223_372_036_854_775_807

abbrev pub abs_value : ℤ → ℕ
abs_value a = pos_part a + neg_part a

abbrev pub max_ℕ : ℕ → ℕ → ℕ
max_ℕ a b = if ltb b a then a else b

unfoldable pub min_ℤ : ℤ → ℤ → ℤ
min_ℤ a b = if ltb_ℤ b a then b else a

unfoldable pub max_ℤ : ℤ → ℤ → ℤ
max_ℤ a b = if ltb_ℤ b a then a else b

-- struct median_estimator. The step is never negative; INT64_MAX says that there was no data yet.
pub record MedianEstimator : Type 0 where
  pub median : ℤ
  pub step : ℕ

unfoldable pub median_estimator_init : MedianEstimator → MedianEstimator
median_estimator_init me = record { median = me.median; step = int64_max }

unfoldable pub move_median : (median diff : ℤ) → (step : ℕ) → ℤ
move_median median diff step =
    if ltb_ℤ (pos 0) diff
    then median +ℤ pos step
    else if ltb_ℤ diff (pos 0)
    then median -ℤ pos step
    else median

unfoldable pub next_step : (diff : ℤ) → (step : ℕ) → ℕ
next_step diff step = if ltb (abs_value diff) step then step / 2 else step + max_ℕ (step / 16) 1

unfoldable pub median_estimator_update : MedianEstimator → (new_data : ℤ) → MedianEstimator
median_estimator_update me new_data =
    let diff = new_data -ℤ me.median in
    if me.step == int64_max
    then record { median = new_data; step = max_ℕ (abs_value (quotient new_data 2)) sec_in_nsec }
    else record { median = move_median me.median diff me.step; step = next_step diff me.step }

-- The statistics of one point of measure: the four arrays at one index.
pub record Diffs : Type 0 where
  pub min_diff_ts : ℤ
  pub max_diff_ts : ℤ
  pub sum_diff_ts : ℤ
  pub median_diff_ts : MedianEstimator

-- The static variables. `label_storage` is the text of the labels; `none` is NULL.
pub record Profile : Type 0 where
  pub next_ts : ℕ
  pub num_ts : ℕ
  pub num_iter : ℕ
  pub toc_overhead : ℤ
  pub timestamps : List Timespec
  pub diffs : List Diffs
  pub labels : List (Option Bytes)

abbrev pub no_time : Timespec
no_time = record { tv_sec = pos 0; tv_nsec = pos 0 }

abbrev pub zero_diffs : Diffs
zero_diffs = record {
  min_diff_ts = pos 0;
  max_diff_ts = pos 0;
  sum_diff_ts = pos 0;
  median_diff_ts = record { median = pos 0; step = 0 };
}

-- The measure at an index; behind the array there is none.
abbrev pub timestamp : Profile → ℕ → Timespec
timestamp p i = get_or p.timestamps i no_time

-- get_diff_ts of the point i + 1.
unfoldable pub get_diff_ts : Profile → (i : ℕ) → ℤ
get_diff_ts p i =
    scale ((timestamp p (suc i)).tv_sec -ℤ (timestamp p i).tv_sec) sec_in_nsec
    +ℤ ((timestamp p (suc i)).tv_nsec -ℤ (timestamp p i).tv_nsec)
    -ℤ p.toc_overhead

unfoldable pub add_diff : Diffs → (diff : ℤ) → Diffs
add_diff d diff = record {
  min_diff_ts = min_ℤ diff d.min_diff_ts;
  max_diff_ts = max_ℤ diff d.max_diff_ts;
  sum_diff_ts = d.sum_diff_ts +ℤ diff;
  median_diff_ts = median_estimator_update d.median_diff_ts diff;
}

-- The loop of update_diffs, with the points from i + 1 on that are left.
unfoldable pub update_points : Profile → (left i : ℕ) → List Diffs → List Diffs
update_points p zero i diffs = diffs
update_points p (suc left) i diffs =
    update_points p left (suc i)
      (set diffs (suc i) (add_diff (get_or diffs (suc i) zero_diffs) (get_diff_ts p i)))

abbrev pub with_diffs : Profile → List Diffs → Profile
with_diffs p diffs = record {
  next_ts = p.next_ts;
  num_ts = p.num_ts;
  num_iter = p.num_iter;
  toc_overhead = p.toc_overhead;
  timestamps = p.timestamps;
  diffs = diffs;
  labels = p.labels;
}

unfoldable pub update_diffs : Profile → Profile
update_diffs p = with_diffs p (update_points p (p.next_ts - 1) 0 p.diffs)

unfoldable pub reset_point : Diffs → Diffs
reset_point d = record {
  min_diff_ts = pos int64_max;
  max_diff_ts = pos 0;
  sum_diff_ts = pos 0;
  median_diff_ts = median_estimator_init d.median_diff_ts;
}

abbrev pub reset_points : List Diffs → List Diffs
reset_points [] = []
reset_points (d ∷ diffs) = reset_point d ∷ reset_points diffs

unfoldable pub reset_diffs : Profile → Profile
reset_diffs p = record {
  next_ts = 0;
  num_ts = 0;
  num_iter = 0;
  toc_overhead = p.toc_overhead;
  timestamps = p.timestamps;
  diffs = reset_points p.diffs;
  labels = p.labels;
}

-- The time that is read is an argument.
unfoldable pub local_toc : Profile → (ts : Timespec) → Profile
local_toc p ts = if p.next_ts == num_ts_max - 1 then p else record {
  next_ts = p.next_ts + 1;
  num_ts = if leb p.num_ts p.next_ts then p.next_ts + 1 else p.num_ts;
  num_iter = p.num_iter;
  toc_overhead = p.toc_overhead;
  timestamps = set p.timestamps p.next_ts ts;
  diffs = p.diffs;
  labels = p.labels;
}

abbrev pub start_iteration : Profile → Profile
start_iteration p = record {
  next_ts = 0;
  num_ts = p.num_ts;
  num_iter = p.num_iter + 1;
  toc_overhead = p.toc_overhead;
  timestamps = p.timestamps;
  diffs = p.diffs;
  labels = p.labels;
}

unfoldable pub mm_tic : Profile → (ts : Timespec) → Profile
mm_tic p ts = local_toc (start_iteration (update_diffs p)) ts

unfoldable pub mm_toc : Profile → (ts : Timespec) → Profile
mm_toc p ts = local_toc p ts

abbrev pub with_labels : Profile → List (Option Bytes) → Profile
with_labels p labels = record {
  next_ts = p.next_ts;
  num_ts = p.num_ts;
  num_iter = p.num_iter;
  toc_overhead = p.toc_overhead;
  timestamps = p.timestamps;
  diffs = p.diffs;
  labels = labels;
}

-- The label is kept if there is one already.
abbrev pub first_label : Option Bytes → (label : Bytes) → Option Bytes
first_label none label = some (take (max_label_size - 1) label)
first_label (some kept) label = some kept

unfoldable pub mm_toc_label : Profile → (label : Bytes) → (ts : Timespec) → Profile
mm_toc_label p label ts =
    local_toc
      (with_labels p (set p.labels p.next_ts (first_label (get_or p.labels p.next_ts none) label)))
      ts

abbrev pub with_overhead : Profile → ℤ → Profile
with_overhead p toc_overhead = record {
  next_ts = p.next_ts;
  num_ts = p.num_ts;
  num_iter = p.num_iter;
  toc_overhead = toc_overhead;
  timestamps = p.timestamps;
  diffs = p.diffs;
  labels = p.labels;
}

-- One round of estimate_toc_overhead; `clock` gives the times that are read, in turn, from number k on.
abbrev pub overhead_round : (clock : ℕ → Timespec) → (k : ℕ) → Profile → Profile
overhead_round clock k p =
    mm_toc_label
      (mm_toc_label
        (mm_tic (mm_toc (mm_toc (mm_tic p (clock k)) (clock (k + 1))) (clock (k + 2)))
          (clock (k + 3)))
        [] (clock (k + 4)))
      [] (clock (k + 5))

unfoldable pub overhead_rounds : (clock : ℕ → Timespec) → (left k : ℕ) → Profile → Profile
overhead_rounds clock zero k p = p
overhead_rounds clock (suc left) k p = overhead_rounds clock left (k + 6) (overhead_round clock k p)

unfoldable pub estimate_toc_overhead : (clock : ℕ → Timespec) → Profile → Profile
estimate_toc_overhead clock p =
    let first = reset_diffs (overhead_round clock 0 (with_overhead (reset_diffs p) (pos 0))) in
    let measured = overhead_rounds clock 999 6 first in
    with_overhead measured (
      min_ℤ (get_or measured.diffs 1 zero_diffs).min_diff_ts
        (get_or measured.diffs 2 zero_diffs).min_diff_ts)

-- The clock that `flags` chooses is the one that `clock` reads.
unfoldable pub mm_profile_reset : (clock : ℕ → Timespec) → Profile → (keep_label : Bool) → Profile
mm_profile_reset clock p keep_label =
    let reset = reset_diffs (estimate_toc_overhead clock p) in
    if keep_label then reset else with_labels reset (some [] ∷ replicate (num_ts_max - 1) none)
