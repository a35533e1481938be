-- ===== src/Profile/Examples.antt =====
-- The theorems about the profiling at a concrete program, which measures two iterations of two points.
use mmlib.Base.{
  ℕ, suc, ◌+◌, ◌*◌, ◌<◌, ◌≡◌, refl, Option, none, some, List, [], ◌∷◌, arith, length, replicate,
  All,
}
use mmlib.Base.Int.{ℤ, pos, negsuc, quotient}
use mmlib.Base.CString.{codes}
use mmlib.Time.{Timespec}
use mmlib.Profile.{
  Profile, Diffs, no_time, zero_diffs, mm_tic, reset_diffs, update_diffs, max_ℤ, min_ℤ,
}
use mmlib.Profile.Table.{mm_profile_get_data, prof_min, prof_max, prof_mean}
use mmlib.Profile.Print.{Printf, table_lines}
use mmlib.Profile.Lines.{IsPrintf}
use mmlib.Profile.Iterations.{Iteration, run, differences, total, least, greatest}
use mmlib.Profile.Results.{mm_profile_get_data-history}
use mmlib.Profile.Invariant.{Bounded, Call, tic, toc, toc_label, print, calls, calls-Bounded}

abbrev at_start : Profile
at_start = record {
  next_ts = 0;
  num_ts = 0;
  num_iter = 0;
  toc_overhead = pos 0;
  timestamps = replicate 16 no_time;
  diffs = replicate 16 zero_diffs;
  labels = replicate 16 none;
}

abbrev at_time : ℕ → Timespec
at_time n = record { tv_sec = pos 0; tv_nsec = pos n }

abbrev first_iteration : Iteration
first_iteration = record { start = at_time 10; points = at_time 15 ∷ at_time 18 ∷ [] }

abbrev second_iteration : Iteration
second_iteration = record { start = at_time 20; points = at_time 29 ∷ at_time 30 ∷ [] }

abbrev two_iterations : List Iteration
two_iterations = second_iteration ∷ first_iteration ∷ []

abbrev after_two : Profile
after_two = mm_tic (run (reset_diffs at_start) two_iterations) (at_time 40)

abbrev two_differences : List ℤ
two_differences = differences (pos 0) two_iterations 0

mm_profile_get_data-history_example :
    (mm_profile_get_data quotient after_two (pos 0) prof_min ≡ some (least two_differences))
    × (mm_profile_get_data quotient after_two (pos 0) prof_max ≡ some (greatest two_differences))
    × (mm_profile_get_data quotient after_two (pos 0) prof_mean
        ≡ some (quotient (total two_differences) 3))
unfolding mm_tic mmlib.Profile.local_toc update_diffs mmlib.Profile.mm_toc reset_diffs
mm_profile_get_data-history_example =
    mm_profile_get_data-history quotient at_start two_iterations (at_time 40) 0 refl refl
      (omega arith) (omega arith)

-- The differences are 5 and 9, and the mean of them is given as 4.
after_two-mean : mm_profile_get_data quotient after_two (pos 0) prof_mean ≡ some (pos 4)
unfolding mm_profile_get_data mmlib.Base.Int.◌-ℤ◌ mm_tic mmlib.Profile.local_toc update_diffs
    mmlib.Profile.mm_toc reset_diffs mmlib.Profile.Table.compute_requested_timings quotient
    mmlib.Profile.update_points mmlib.Profile.add_diff mmlib.Base.Int.◌+ℤ◌ mmlib.Profile.reset_point
    mmlib.Profile.get_diff_ts mmlib.Base.Int.scale
after_two-mean = refl

-- A C library that gives short texts.
abbrev printf : Printf
printf = record { fixed = λ value scale. codes "1.00"; decimal = λ value. codes "7" }

printf-IsPrintf : IsPrintf printf
printf-IsPrintf = record {
  fixed_len = λ value scale. omega arith;
  decimal_len = λ value. omega arith;
}

at_start-Bounded : Bounded at_start
at_start-Bounded = record {
  next_le = omega arith;
  num_le = omega arith;
  times = refl;
  slots = refl;
  names = refl;
  short = (
    tt,
    (tt, (tt, (tt, (tt, (tt, (tt, (tt, (tt, (tt, (tt, (tt, (tt, (tt, (tt, (tt, tt))))))))))))))),
  );
}

abbrev some_calls : List Call
some_calls =
    tic (at_time 10) ∷ toc_label (codes "load") (at_time 15) ∷ toc (at_time 18) ∷ print ∷ []

calls-Bounded_example :
    Bounded (calls at_start some_calls)
    × All
        (λ line. length line < 512)
        (table_lines printf quotient (update_diffs (calls at_start some_calls)) 31)
calls-Bounded_example =
    calls-Bounded printf quotient at_start some_calls 31 printf-IsPrintf at_start-Bounded

-- mm_profile_print counts the iteration, and the mm_tic of the next one counts it again: the sum of 5 is 10.
printed_twice :
    mm_profile_get_data
      (λ sum n. sum)
      (calls
        (reset_diffs at_start)
        (tic (at_time 10) ∷ toc (at_time 15) ∷ print ∷ tic (at_time 20) ∷ []))
      (pos 0)
      prof_mean
    ≡ some (pos 10)
unfolding mm_profile_get_data mmlib.Base.Int.◌-ℤ◌ mm_tic reset_diffs mmlib.Profile.local_toc
    update_diffs mmlib.Profile.mm_toc mmlib.Profile.Table.compute_requested_timings
    mmlib.Profile.update_points mmlib.Profile.add_diff mmlib.Base.Int.◌+ℤ◌ mmlib.Profile.reset_point
    mmlib.Profile.get_diff_ts mmlib.Base.Int.scale
printed_twice = refl
