-- ===== src/Mutex/Cleanup.antt =====
-- src/pshared-lock.c, what a thread does to the lock value for the dead ones that the lock server reports.
pub mod Recovery
use mmlib.Base.{
  ℕ, ◌+◌, ◌-◌, ◌%◌, Bool, true, false, ◌&&◌, not, List, [], ◌∷◌, ◌==◌, ◌!=◌, if◌then◌else◌,
}
use mmlib.Mutex.Lockval.{
  int64_mod, mtx_need_recover_mask, add64, sub64, mtx_lockval, is_mtx_waited, is_mtx_locked,
  is_thread_mtx_owner, is_thread_mtx_waiterlist_owner,
}

pub get_lockval_change : (lockval : ℕ) → (is_waiter : Bool) → (tid : ℕ) → ℕ
get_lockval_change lockval is_waiter tid =
    if is_thread_mtx_owner lockval tid
    then sub64 mtx_need_recover_mask (mtx_lockval tid 0 0)
    else if is_thread_mtx_waiterlist_owner lockval tid
    then sub64 0 (mtx_lockval 0 tid 1)
    else if is_waiter
    then sub64 0 (mtx_lockval 0 0 1)
    else 0

-- The loop over the dead threads.
pub cleanup_val : (lockval : ℕ) → List (Bool × ℕ) → ℕ
cleanup_val lockval [] = 0
cleanup_val lockval ((is_waiter, tid) ∷ deadlist) =
    add64 (get_lockval_change lockval is_waiter tid) (cleanup_val lockval deadlist)

-- The new lock value, and the number of threads to wake. `current` is the lock value when the change is
-- applied, `lockval` the one that was inspected.
pub cleanup_mutex_lock : (lockval current : ℕ) → List (Bool × ℕ) → ℕ × ℕ
cleanup_mutex_lock lockval current deadlist =
    let result = add64 current (cleanup_val lockval deadlist) in
    (result, if is_mtx_waited result && not (is_mtx_locked result) then 1 else 0)
