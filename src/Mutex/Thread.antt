-- ===== src/Mutex/Thread.antt =====
-- The process shared mutex of src/thread-win32.c: what one thread does with the lock value, one atomic
-- access at a time. A state is the place in the code with its local variables.
use mmlib.Base.{ℕ, zero, suc, Bool, true, false, ◌==◌, if◌then◌else◌}
use mmlib.Mutex.Lockval.{
  mtx_owner_tid_mask, mtx_need_recover_mask, add64, sub64, clear_owner, clear_waiter,
  mtx_num_waiter, is_mtx_waited, is_mtx_waiterlist_full, mtx_lockval, is_mtx_ownerdead,
  is_mtx_unrecoverable,
}

-- What a call returns.
pub data Code : Type 0 where
  success ownerdead not_recoverable busy invalid : Code

pub data Pc : Type 0 where
  -- Outside, without the lock: the last call returned this.
  away : Code → Pc
  -- Before `atomic_cmp_exchange(lockptr, &oldval, newval)` in pshared_mtx_lock.
  trying : (oldval incval : ℕ) (is_waiting_notified : Bool) → Pc
  -- At the head of the loop of register_waiter_in_mtx.
  registering : (oldval incval : ℕ) → Pc
  -- In `Sleep(1)`, before `*poldval = atomic_load(lock)`.
  sleeping : (incval : ℕ) → Pc
  -- Before the `atomic_fetch_sub` at the end of it.
  registered : (incval : ℕ) → Pc
  -- In pshared_wait_on_lock, and before the `atomic_load` behind it.
  waiting reloading : (incval : ℕ) → Pc
  -- In the loop of pshared_mtx_trylock, with so many rounds left behind this one.
  trying_once : (rounds oldval newval : ℕ) → Pc
  -- Outside, with the lock: the last call returned this.
  locked : Code → Pc
  -- In pshared_mtx_unlock, before the `atomic_load`, before the `atomic_fetch_sub`, and in
  -- pshared_wake_lock.
  unlock_loading : Pc
  unlocking : (unlock_val : ℕ) (unrecoverable : Bool) → Pc
  waking : (num_unlock : ℕ) → Pc
  -- In pshared_mtx_consistent, before the `atomic_load` and before the `atomic_sub`.
  consistent_loading recovering : Pc

-- finish_mtx_lock, as far as its result goes.
abbrev pub finish_code : ℕ → Code
finish_code oldval = if is_mtx_ownerdead oldval then ownerdead else success

-- What a thread does after a failed exchange, for which the lock value was `lock`.
abbrev pub lock_failed : (lock incval : ℕ) → Bool → Pc
lock_failed lock incval true =
    if is_mtx_unrecoverable lock then away not_recoverable else waiting incval
lock_failed lock incval false =
    if is_mtx_unrecoverable lock then away not_recoverable else registering lock incval

abbrev pub trylock_failed : (rounds lock newval : ℕ) → Pc
trylock_failed zero lock newval = away busy
trylock_failed (suc rounds) lock newval =
    trying_once rounds (clear_owner lock) (add64 newval (clear_owner lock))

-- A round of the loop of register_waiter_in_mtx.
abbrev pub register_waiter_in_mtx : (tid lock oldval incval : ℕ) → ℕ × Pc
register_waiter_in_mtx tid lock oldval incval =
    if is_mtx_waiterlist_full oldval
    then (lock, sleeping incval)
    else if lock == oldval
    then (add64 (clear_waiter oldval) (mtx_lockval 0 tid 1), registered incval)
    else (
      lock,
      if is_mtx_unrecoverable lock then trying lock incval false else registering lock incval,
    )

-- One access of the thread `tid`: the lock value and the state after it. Outside, nothing is done.
unfoldable pub access : (tid lock : ℕ) → Pc → ℕ × Pc
access tid lock (away code) = (lock, away code)
access tid lock (trying oldval incval notified) =
    if lock == oldval
    then (add64 oldval incval, locked (finish_code oldval))
    else (lock, lock_failed lock incval notified)
access tid lock (registering oldval incval) = register_waiter_in_mtx tid lock oldval incval
access tid lock (sleeping incval) = (lock, trying lock incval false)
access tid lock (registered incval) = (
  sub64 lock (mtx_lockval 0 tid 0),
  trying (clear_owner (clear_waiter lock)) (sub64 incval (mtx_lockval 0 0 1)) true,
)
access tid lock (waiting incval) = (lock, reloading incval)
access tid lock (reloading incval) = (lock, trying (clear_owner lock) incval true)
access tid lock (trying_once rounds oldval newval) =
    if lock == oldval then (newval, locked (finish_code oldval)) else (
      lock,
      if is_mtx_unrecoverable lock then away not_recoverable else trylock_failed rounds lock newval,
    )
access tid lock (locked code) = (lock, locked code)
access tid lock unlock_loading = (
  lock,
  if is_mtx_ownerdead lock
      then unlocking (sub64 (mtx_lockval tid 0 0) mtx_owner_tid_mask) true
      else unlocking (mtx_lockval tid 0 0) false,
)
access tid lock (unlocking unlock_val unrecoverable) = (
  sub64 lock unlock_val,
  if is_mtx_waited lock
      then waking (if unrecoverable then mtx_num_waiter lock else 1)
      else away success,
)
access tid lock (waking num_unlock) = (lock, away success)
access tid lock consistent_loading =
    (lock, if is_mtx_ownerdead lock then recovering else locked invalid)
access tid lock recovering = (sub64 lock mtx_need_recover_mask, locked success)

-- The calls, up to their first access.
unfoldable pub pshared_mtx_lock : (tid : ℕ) → Pc
pshared_mtx_lock tid = trying 0 (mtx_lockval tid 0 0) false

unfoldable pub pshared_mtx_trylock : (tid : ℕ) → Pc
pshared_mtx_trylock tid = trying_once 1 0 (mtx_lockval tid 0 0)

abbrev pub pshared_mtx_unlock : Pc
pshared_mtx_unlock = unlock_loading

abbrev pub pshared_mtx_consistent : Pc
pshared_mtx_consistent = consistent_loading
