-- ===== src/Mutex/Cleanup/Recovery.antt =====
-- What becomes of a mutex whose owner has died.
use mmlib.Base.{ℕ, ◌+◌, ◌*◌, ◌<◌, ◌≡◌, Bool, true, [], ◌∷◌, arith, ◌==◌, if◌then◌else◌}
use mmlib.Mutex.Lockval.{is_mtx_unrecoverable, mtx_lockval, mtx_need_recover_mask}
use mmlib.Mutex.Thread.{
  away, locked, waking, access, pshared_mtx_lock, pshared_mtx_trylock, pshared_mtx_unlock,
  pshared_mtx_consistent, ownerdead, not_recoverable, success,
}
use mmlib.Mutex.Cleanup.{get_lockval_change, cleanup_val, cleanup_mutex_lock}
use mmlib.Mutex.Exclusion.{accesses}

-- The mutex after its dead owner was cleaned up, and the one that a thread has locked then.
abbrev pub left_behind : (nwaiter : ℕ) → ℕ
left_behind nwaiter = mtx_need_recover_mask + nwaiter * 0x100000000

cleanup-ownerdead :
    (dead nwaiter : ℕ) (is_waiter : Bool)
    → 0 < dead
    → dead < 0x100000000
    → nwaiter < 0x100
    → (cleanup_mutex_lock
        (mtx_lockval dead 0 nwaiter)
        (mtx_lockval dead 0 nwaiter)
        ((is_waiter, dead) ∷ [])).0
      ≡ left_behind nwaiter
unfolding cleanup_mutex_lock cleanup_val get_lockval_change
cleanup-ownerdead dead nwaiter is_waiter pos h k = ground arith

module _ (t nwaiter : ℕ) (h : t < 0xffffffff) (few : nwaiter < 0x100) where
  -- The first thread that locks it learns that its owner died.
  trylock-ownerdead :
      0 < t
      → accesses 2 t (left_behind nwaiter, pshared_mtx_trylock t)
        ≡ (left_behind nwaiter + t, locked ownerdead)
  unfolding access pshared_mtx_trylock
  trylock-ownerdead pos = ground arith

  -- It may repair what the mutex protects, and says so.
  consistent-success :
      accesses 2 t (left_behind nwaiter + t, pshared_mtx_consistent)
      ≡ (mtx_lockval t 0 nwaiter, locked success)
  unfolding access
  consistent-success = ground arith

  -- If it unlocks without, the mutex is unusable for ever, and all waiters are woken.
  unlock-unrecoverable :
      (is_mtx_unrecoverable (accesses 2 t (left_behind nwaiter + t, pshared_mtx_unlock)).0 ≡ true)
      × ((accesses 2 t (left_behind nwaiter + t, pshared_mtx_unlock)).1
          ≡ (if nwaiter == 0 then away success else waking nwaiter))
  unfolding access
  unlock-unrecoverable = (ground arith, ground arith)

lock-not_recoverable :
    (u lock : ℕ)
    → is_mtx_unrecoverable lock ≡ true
    → accesses 1 u (lock, pshared_mtx_lock u) ≡ (lock, away not_recoverable)
unfolding access pshared_mtx_lock
lock-not_recoverable u lock e = ground arith

-- A mutex whose owner `dead` died with `nwaiter` waiters registered is cleaned up so that the next thread
-- `t` to try it gets it and is told; then either `t` marks it consistent, and holds it as if it had locked
-- it as usual, or it unlocks it, all waiters are woken, and every later thread is told that the mutex is
-- not recoverable.
pub cleanup_mutex_lock-recovery :
    (dead t u nwaiter : ℕ) (is_waiter : Bool)
    → 0 < dead
    → dead < 0x100000000
    → 0 < t
    → t < 0xffffffff
    → nwaiter < 0x100
    → let lock =
        (cleanup_mutex_lock
          (mtx_lockval dead 0 nwaiter)
          (mtx_lockval dead 0 nwaiter)
          ((is_waiter, dead) ∷ [])).0 in
      let unlocked = accesses 2 t (lock + t, pshared_mtx_unlock) in
      (accesses 2 t (lock, pshared_mtx_trylock t) ≡ (lock + t, locked ownerdead))
      × (accesses 2 t (lock + t, pshared_mtx_consistent)
          ≡ (mtx_lockval t 0 nwaiter, locked success))
      × (unlocked.1 ≡ (if nwaiter == 0 then away success else waking nwaiter))
      × (accesses 1 u (unlocked.0, pshared_mtx_lock u) ≡ (unlocked.0, away not_recoverable))
cleanup_mutex_lock-recovery dead t u nwaiter is_waiter pos h post ht few =
    rw (cleanup-ownerdead dead nwaiter is_waiter pos h few) (
      trylock-ownerdead t nwaiter ht few post,
      consistent-success t nwaiter ht few,
      (unlock-unrecoverable t nwaiter ht few).1,
      lock-not_recoverable u _ (unlock-unrecoverable t nwaiter ht few).0,
    )
