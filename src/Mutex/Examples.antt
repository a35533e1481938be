-- ===== src/Mutex/Examples.antt =====
-- The theorems about the mutex, for two threads that have come to its lock value, and for concrete values.
use mmlib.Base.{ℕ, ◌+◌, ◌%◌, ◌≡◌, refl, true, false, [], ◌∷◌, arith}
use mmlib.Mutex.Lockval.{owner_tid, mtx_num_waiter, is_mtx_ownerdead, mtx_lockval, add64}
use mmlib.Mutex.Thread.{
  away, locked, waking, registering, trying, success, ownerdead, not_recoverable, finish_code,
  access, pshared_mtx_lock, pshared_mtx_trylock, pshared_mtx_unlock, pshared_mtx_consistent,
}
use mmlib.Mutex.System.{System, Reach, start, later, moves, locks, accesses, init, update}
use mmlib.Mutex.System.Count.{total, counted}
use mmlib.Mutex.System.Inv.{owns}
use mmlib.Mutex.Exclusion
use mmlib.Mutex.Exclusion.{mutual_exclusion, register_waiter_in_mtx-taken}
use mmlib.Mutex.Cleanup.{cleanup_mutex_lock}
use mmlib.Mutex.Cleanup.Recovery.{cleanup_mutex_lock-recovery}

abbrev number : ℕ → ℕ
number i = i % 1000 + 7

-- Thread 0 locks; thread 1 asks for the lock and finds it taken.
abbrev contended : System
contended = record {
  lock = 7;
  pc =
      update
        (update (update (update init.pc 0 (trying 0 7 false)) 0 (locked success)) 1
          (trying 0 8 false))
        1 (registering 7 8);
}

contended-Reach : Reach 2 number contended
unfolding access pshared_mtx_lock
contended-Reach =
    later
      (later
        (later (later start (moves _ 0 _ _ (omega arith) (locks success)))
          (moves _ 0 _ _ (omega arith) (accesses _)))
        (moves _ 1 _ _ (omega arith) (locks success)))
      (moves _ 1 _ _ (omega arith) (accesses _))

mutual_exclusion_example :
    ((i j : ℕ) → owns (contended.pc i) ≡ true → owns (contended.pc j) ≡ true → i ≡ j)
    × ((i : ℕ) → owns (contended.pc i) ≡ true → owner_tid contended.lock ≡ number i)
    × (mtx_num_waiter contended.lock ≡ total counted 2 contended.pc)
    × (is_mtx_ownerdead contended.lock ≡ false)
mutual_exclusion_example =
    mutual_exclusion 2 number contended (omega arith) (λ i. (omega arith, omega arith))
      contended-Reach

-- Thread 7 owns a mutex for which 255 threads wait, and thread 8 comes to both.
register_waiter_in_mtx-taken_example :
    (Exclusion.accesses 4 8 (0xff00000007, pshared_mtx_lock 8)
      ≡ (add64 0xff00000007 (mtx_lockval 8 0 0), locked (finish_code 0xff00000007)))
    × (Exclusion.accesses 2 8 (0x100ffffffff, registering 0x10000000007 (mtx_lockval 8 0 0))
        ≡ (add64 0x100ffffffff (mtx_lockval 8 0 0), locked (finish_code 0x100ffffffff)))
register_waiter_in_mtx-taken_example =
    register_waiter_in_mtx-taken 8 0xff00000007 0x10000000007 0x100ffffffff (omega arith) refl refl
      (omega arith) refl refl

abbrev cleaned : ℕ
cleaned = (cleanup_mutex_lock (mtx_lockval 5 0 2) (mtx_lockval 5 0 2) ((false, 5) ∷ [])).0

cleanup_mutex_lock-recovery_example :
    let unlocked = Exclusion.accesses 2 7 (cleaned + 7, pshared_mtx_unlock) in
    (Exclusion.accesses 2 7 (cleaned, pshared_mtx_trylock 7) ≡ (cleaned + 7, locked ownerdead))
    × (Exclusion.accesses 2 7 (cleaned + 7, pshared_mtx_consistent)
        ≡ (mtx_lockval 7 0 2, locked success))
    × (unlocked.1 ≡ waking 2)
    × (Exclusion.accesses 1 8 (unlocked.0, pshared_mtx_lock 8) ≡ (unlocked.0, away not_recoverable))
cleanup_mutex_lock-recovery_example =
    cleanup_mutex_lock-recovery 5 7 8 2 false (omega arith) (omega arith) (omega arith)
      (omega arith) (omega arith)
