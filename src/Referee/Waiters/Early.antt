-- ===== src/Referee/Waiters/Early.antt =====
-- Wakeups that come before their threads wait.
use mmlib.Base.{ℕ, ◌≤◌, ◌≡◌, refl, ◌∙◌, ap, Bool, false, List, [], ◌∷◌, arith, length, All}
use mmlib.Base.Int.{ℤ, pos, ◌+ℤ◌, ◌≤ℤ◌, int_parts}
use mmlib.Referee.Types.{Waiter, Lock}
use mmlib.Referee.Waiters.{with_waiters, lock_add_waiter, wake_loop, lock_wake_waiters}

-- Threads that ask to wait, one after the other: the lock, and which of them wait.
abbrev pub add_all : Lock → List Waiter → Lock × List Bool
add_all lock [] = (lock, [])
add_all lock (tc ∷ tcs) =
    let (after, is_waiting) = lock_add_waiter lock tc in
    let (last, others) = add_all after tcs in (last, is_waiting ∷ others)

lock_add_waiter-early :
    (lock : Lock) (tc : Waiter)
    → lock.nwaiter +ℤ pos 1 ≤ℤ pos 0
    → tc.wakeup_val ≤ℤ lock.max_wakeup_val
    → lock_add_waiter lock tc
      ≡ (with_waiters lock (lock.nwaiter +ℤ pos 1) lock.max_wakeup_val lock.waiters_queue, false)
unfolding lock_add_waiter
lock_add_waiter-early lock tc due low = ground arith

add_all-early :
    (lock : Lock) (tcs : List Waiter)
    → lock.nwaiter +ℤ pos (length tcs) ≤ℤ pos 0
    → All (λ tc. tc.wakeup_val ≤ℤ lock.max_wakeup_val) tcs
    → ((add_all lock tcs).0.waiters_queue ≡ lock.waiters_queue)
      × All (λ is_waiting. is_waiting ≡ false) (add_all lock tcs).1
add_all-early lock [] due low = (refl, tt)
add_all-early lock (tc ∷ tcs) due (low, lows) =
    rw (lock_add_waiter-early lock tc (omega (int_parts, due)) low) (
      let (kept, none_wait) =
        add_all-early
          (with_waiters lock (lock.nwaiter +ℤ pos 1) lock.max_wakeup_val lock.waiters_queue) tcs
          (omega (int_parts, due)) lows in
      (kept, (refl, none_wait)))

All-≤ℤ :
    (a b : ℤ) (tcs : List Waiter)
    → a ≤ℤ b
    → All (λ tc. tc.wakeup_val ≤ℤ a) tcs
    → All (λ tc. tc.wakeup_val ≤ℤ b) tcs
All-≤ℤ a b [] h _ = tt
All-≤ℤ a b (tc ∷ tcs) h (low, lows) = (omega (arith, h, low), All-≤ℤ a b tcs h lows)

-- No wakeup is lost: on a lock where no thread waits, nor is there a deficit, the next `num` threads whose
-- wakeup value is at most the `val` of a wakeup are not put to sleep after it.
pub lock_wake_waiters-early :
    (lock : Lock) (num : ℕ) (val : ℤ) (tcs : List Waiter)
    → lock.waiters_queue ≡ []
    → lock.nwaiter ≤ℤ pos 0
    → length tcs ≤ num
    → All (λ tc. tc.wakeup_val ≤ℤ val) tcs
    → ((add_all (lock_wake_waiters lock (pos num) val).0 tcs).0.waiters_queue ≡ [])
      × All
          (λ is_waiting. is_waiting ≡ false)
          (add_all (lock_wake_waiters lock (pos num) val).0 tcs).1
unfolding lock_wake_waiters wake_loop
lock_wake_waiters-early lock num val tcs empty due few low =
    let woken = lock_wake_waiters lock (pos num) val in
    let (kept, none_wait) =
      add_all-early woken.0 tcs (omega (int_parts, due, few))
        (All-≤ℤ val woken.0.max_wakeup_val tcs (ground arith) low) in
    (kept ∙ ap (λ queue. (wake_loop queue (pos num) val).1) empty, none_wait)
