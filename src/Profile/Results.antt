-- ===== src/Profile/Results.antt =====
-- src/profile.c: what mm_profile_get_data gives of the iterations that are over.
use mmlib.Base.{
  ℕ, zero, suc, ◌+◌, ◌-◌, ◌<◌, ◌≡◌, ap, ◌∙◌, true, some, List, [], ◌++◌, arith, length, get_elem?,
  append-nil,
}
use mmlib.Base.Int.{ℤ, pos, ◌-ℤ◌, ltb_ℤ}
use mmlib.Time.{Timespec}
use mmlib.Profile.{Profile, mm_tic, reset_diffs}
use mmlib.Profile.Table.{
  column, diffs_at, compute_requested_timings, mm_profile_get_data, prof_min, prof_max, prof_mean,
}
use mmlib.Profile.Iterations.{Iteration, run, differences, total, least, greatest}
use mmlib.Profile.Statistics.{mm_tic-statistics}

get_elem?-column :
    (value : ℕ → ℤ) (num_points start i : ℕ)
    → i < num_points
    → get_elem? (column value num_points start) i ≡ some (value (start + i))
get_elem?-column value zero start i h = absurd (omega arith)
get_elem?-column value (suc n) start zero h = ap (λ k. some (value k)) (omega arith)
get_elem?-column value (suc n) start (suc i) h =
    get_elem?-column value n (suc start) i (omega arith) ∙ ap (λ k. some (value k)) (omega arith)

within : (p : Profile) (i : ℕ) → suc i < p.num_ts → ltb_ℤ (pos i) (pos p.num_ts -ℤ pos 1) ≡ true
unfolding ◌-ℤ◌
within p i h = ground (arith, h)

get_elem?-only :
    (value : ℕ → ℤ) (p : Profile) (i : ℕ)
    → suc i < p.num_ts
    → get_elem? (column value (p.num_ts - 1) 0 ++ []) i ≡ some (value i)
get_elem?-only value p i h =
    ap (λ xs. get_elem? xs i) (append-nil (column value (p.num_ts - 1) 0))
    ∙ get_elem?-column value (p.num_ts - 1) 0 i (omega arith)
    ∙ ap (λ k. some (value k)) (omega arith)

get_data-min :
    (divide : ℤ → ℕ → ℤ) (p : Profile) (i : ℕ)
    → suc i < p.num_ts
    → mm_profile_get_data divide p (pos i) prof_min ≡ some (diffs_at p i).min_diff_ts
unfolding mm_profile_get_data compute_requested_timings
get_data-min divide p i h =
    rw (within p i h, mm_profile_get_data, compute_requested_timings)
      (get_elem?-only (λ k. (diffs_at p k).min_diff_ts) p i h)

get_data-max :
    (divide : ℤ → ℕ → ℤ) (p : Profile) (i : ℕ)
    → suc i < p.num_ts
    → mm_profile_get_data divide p (pos i) prof_max ≡ some (diffs_at p i).max_diff_ts
unfolding mm_profile_get_data compute_requested_timings
get_data-max divide p i h =
    rw (within p i h, mm_profile_get_data, compute_requested_timings)
      (get_elem?-only (λ k. (diffs_at p k).max_diff_ts) p i h)

get_data-mean :
    (divide : ℤ → ℕ → ℤ) (p : Profile) (i : ℕ)
    → suc i < p.num_ts
    → mm_profile_get_data divide p (pos i) prof_mean
      ≡ some (divide (diffs_at p i).sum_diff_ts p.num_iter)
unfolding mm_profile_get_data compute_requested_timings
get_data-mean divide p i h =
    rw (within p i h, mm_profile_get_data, compute_requested_timings)
      (get_elem?-only (λ k. divide (diffs_at p k).sum_diff_ts p.num_iter) p i h)

-- After reset_diffs, some iterations and the mm_tic of the next one, mm_profile_get_data gives of each of the 14
-- first points of measure that was ever come to: the least and the greatest of the differences of the
-- iterations that came to it (or of INT64_MAX and 0), and as their mean, the sum of these differences divided
-- by one more than the number of iterations.
pub mm_profile_get_data-history :
    (divide : ℤ → ℕ → ℤ) (p : Profile) (history : List Iteration) (ts : Timespec) (i : ℕ)
    → length p.timestamps ≡ 16
    → length p.diffs ≡ 16
    → i < 14
    → suc i < (mm_tic (run (reset_diffs p) history) ts).num_ts
    → let q = mm_tic (run (reset_diffs p) history) ts in
      let xs = differences p.toc_overhead history i in
      (mm_profile_get_data divide q (pos i) prof_min ≡ some (least xs))
      × (mm_profile_get_data divide q (pos i) prof_max ≡ some (greatest xs))
      × (mm_profile_get_data divide q (pos i) prof_mean
          ≡ some (divide (total xs) (length history + 1)))
mm_profile_get_data-history divide p history ts i size slots small come =
    let q = mm_tic (run (reset_diffs p) history) ts in
    let (sum, low, high, count) = mm_tic-statistics p history ts i size slots small in
    (
      get_data-min divide q i come ∙ ap some low,
      get_data-max divide q i come ∙ ap some high,
      get_data-mean divide q i come
          ∙ ap (λ s. some (divide s q.num_iter)) sum
          ∙ ap (λ n. some (divide (total (differences p.toc_overhead history i)) n)) count,
    )
