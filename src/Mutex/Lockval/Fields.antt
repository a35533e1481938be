-- ===== src/Mutex/Lockval/Fields.antt =====
-- The parts that a lock value is made of are those read from it.
use mmlib.Base.{ℕ, ◌<◌, ◌≡◌, true, false, arith}
use mmlib.Mutex.Lockval.{
  mtx_lockval, owner_tid, mtx_num_waiter, is_thread_mtx_waiterlist_owner, is_mtx_ownerdead,
}

-- A value made by mtx_lockval of a DWORD, a thread number below 2^23 and a count of 8 bits gives its parts
-- back, and is not marked.
pub mtx_lockval_parts :
    (owner waiter nwaiter : ℕ)
    → owner < 0x100000000
    → waiter < 0x800000
    → nwaiter < 0x100
    → (owner_tid (mtx_lockval owner waiter nwaiter) ≡ owner)
      × (mtx_num_waiter (mtx_lockval owner waiter nwaiter) ≡ nwaiter)
      × (is_thread_mtx_waiterlist_owner (mtx_lockval owner waiter nwaiter) waiter ≡ true)
      × (is_mtx_ownerdead (mtx_lockval owner waiter nwaiter) ≡ false)
mtx_lockval_parts owner waiter nwaiter h k l =
    (omega arith, omega arith, ground arith, ground arith)
