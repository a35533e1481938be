-- ===== src/Threads/Examples.antt =====
-- A thread that ends with 5 while its owner joins it.
use mmlib.Base.{ℕ, ◌≡◌, ◌≢◌, refl, if◌then◌else◌}
use mmlib.Threads.{
  Thread, refused, joined, returned, mm_thr_create, thread_proc_wrapper, thread_local_data_on_exit,
  mm_thr_join, join_end, finishes, exits, joins, join_ends, Reach, start, later,
}
use mmlib.Threads.Lifetime.{uses_data, runs_on, thread-freed_once}

abbrev joined_thread : Thread
joined_thread =
    join_end (thread_local_data_on_exit (thread_proc_wrapper (mm_thr_join mm_thr_create) 5) 0)

joined_thread-Reach : Reach 5 joined_thread
unfolding thread_proc_wrapper thread_local_data_on_exit mm_thr_join join_end
joined_thread-Reach =
    later
      (later
        (later (later start (joins mm_thr_create refl)) (finishes (mm_thr_join mm_thr_create) refl))
        (exits _ 0 refl))
      (join_ends _ refl refl)

thread-freed_once_example :
    (joined_thread.frees ≡ (
      if uses_data joined_thread.owner then 0 else if runs_on joined_thread.worker then 0 else 1))
    × (joined_thread.owner ≢ returned refused)
    × ((v : ℕ) → joined_thread.owner ≡ returned (joined v) → v ≡ 5)
thread-freed_once_example = thread-freed_once 5 joined_thread joined_thread-Reach
