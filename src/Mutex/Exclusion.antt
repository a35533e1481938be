-- ===== src/Mutex/Exclusion.antt =====
-- Who gets the mutex: one thread, as long as the count of waiters is not full.
use mmlib.Base.{ℕ, zero, suc, ◌≤◌, ◌<◌, ◌≡◌, ◌≢◌, true, false, arith}
use mmlib.Mutex.Lockval.{
  owner_tid, mtx_num_waiter, is_mtx_waiterlist_full, is_mtx_ownerdead, is_mtx_unrecoverable,
  mtx_lockval, add64,
}
use mmlib.Mutex.Thread.{Pc, locked, registering, finish_code, access, pshared_mtx_lock}
use mmlib.Mutex.System.{System, Reach}
use mmlib.Mutex.System.Count.{total, counted, counted-le, total-le}
use mmlib.Mutex.System.Inv.{owns}
use mmlib.Mutex.System.Moves.{Reach-Inv}

-- With at most 255 threads, however their accesses are ordered, two different threads never own the mutex
-- together, the lock value has the number of the one that does, its count is the number of the threads
-- registered as waiters, and it is never marked as left by a dead owner.
pub mutual_exclusion :
    (n : ℕ) (tid : ℕ → ℕ) (s : System)
    → n ≤ 0xff
    → ((i : ℕ) → (0 < tid i) × (tid i < 0x100000000))
    → Reach n tid s
    → ((i j : ℕ) → owns (s.pc i) ≡ true → owns (s.pc j) ≡ true → i ≡ j)
      × ((i : ℕ) → owns (s.pc i) ≡ true → owner_tid s.lock ≡ tid i)
      × (mtx_num_waiter s.lock ≡ total counted n s.pc)
      × (is_mtx_ownerdead s.lock ≡ false)
mutual_exclusion n tid s few tids r =
    let inv = Reach-Inv few tids r in
    let bound = total-le counted counted-le n s.pc in
    (inv.single, inv.owned, omega (arith, inv.counts, bound), ground (arith, inv.counts, bound))

-- The next accesses of one thread, while no other thread makes one.
abbrev pub accesses : (rounds tid : ℕ) → ℕ × Pc → ℕ × Pc
accesses zero tid (lock, p) = (lock, p)
accesses (suc rounds) tid (lock, p) = accesses rounds tid (access tid lock p)

-- Where the count of waiters is full, pshared_mtx_lock takes the mutex with its fourth access, whichever
-- thread owns it.
full_waiterlist-taken :
    (tid lock : ℕ)
    → lock ≢ 0
    → is_mtx_waiterlist_full lock ≡ true
    → is_mtx_unrecoverable lock ≡ false
    → accesses 4 tid (lock, pshared_mtx_lock tid)
      ≡ (add64 lock (mtx_lockval tid 0 0), locked (finish_code lock))
unfolding access pshared_mtx_lock
full_waiterlist-taken tid lock h full e = ground arith

-- A thread that has found the mutex owned, and comes to register when it has become unrecoverable, takes it
-- with its second access.
unrecoverable-taken :
    (tid oldval lock : ℕ)
    → oldval ≢ lock
    → is_mtx_waiterlist_full oldval ≡ false
    → is_mtx_unrecoverable lock ≡ true
    → accesses 2 tid (lock, registering oldval (mtx_lockval tid 0 0))
      ≡ (add64 lock (mtx_lockval tid 0 0), locked (finish_code lock))
unfolding access
unrecoverable-taken tid oldval lock h full e = ground arith

-- The mutex is taken although it must not be: where the count of waiters is full, pshared_mtx_lock takes it
-- with its fourth access, whichever thread owns it; and a thread that has found it owned, and comes to
-- register when it has become unrecoverable, takes it with its second access.
pub register_waiter_in_mtx-taken :
    (tid full oldval dead : ℕ)
    → full ≢ 0
    → is_mtx_waiterlist_full full ≡ true
    → is_mtx_unrecoverable full ≡ false
    → oldval ≢ dead
    → is_mtx_waiterlist_full oldval ≡ false
    → is_mtx_unrecoverable dead ≡ true
    → (accesses 4 tid (full, pshared_mtx_lock tid)
        ≡ (add64 full (mtx_lockval tid 0 0), locked (finish_code full)))
      × (accesses 2 tid (dead, registering oldval (mtx_lockval tid 0 0))
          ≡ (add64 dead (mtx_lockval tid 0 0), locked (finish_code dead)))
register_waiter_in_mtx-taken tid full oldval dead some_bits is_full usable changed room broken = (
  full_waiterlist-taken tid full some_bits is_full usable,
  unrecoverable-taken tid oldval dead changed room broken,
)
