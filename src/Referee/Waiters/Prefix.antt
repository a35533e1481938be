-- ===== src/Referee/Waiters/Prefix.antt =====
-- A wakeup of threads that stand together at the head of the queue.
use mmlib.Base.{
  ℕ, ◌+◌, ◌≡◌, refl, ◌∙◌, ap, true, List, [], ◌∷◌, ◌++◌, arith, length, All, if◌then◌else◌,
}
use mmlib.Base.Int.{ℤ, pos, pos_part, neg_part, ◌+ℤ◌, ◌-ℤ◌, ◌≤ℤ◌, ltb_ℤ, int_parts, eq_of_parts}
use mmlib.Referee.Types.{Waiter, Lock}
use mmlib.Referee.Waiters.{with_waiters, lock_add_waiter, wake_loop, lock_wake_waiters}
use mmlib.Referee.Waiters.Fifo.{wake_loop-wakes}

wake_loop-zero : (queue : List Waiter) (val : ℤ) → wake_loop queue (pos 0) val ≡ ([], queue)
unfolding wake_loop
wake_loop-zero [] val = refl
wake_loop-zero (tc ∷ queue) val = refl

wake_loop-prefix :
    (ws queue : List Waiter) (val : ℤ)
    → All (λ tc. tc.wakeup_val ≤ℤ val) ws
    → wake_loop (ws ++ queue) (pos (length ws)) val ≡ (ws, queue)
wake_loop-prefix [] queue val _ = wake_loop-zero queue val
wake_loop-prefix (tc ∷ ws) queue val (h, hs) =
    wake_loop-wakes tc (ws ++ queue) (length ws) val (ground arith)
    ∙ ap (λ r. (tc ∷ r.0, r.1)) (wake_loop-prefix ws queue val hs)

abbrev pub higher : ℤ → ℤ → ℤ
higher a b = if ltb_ℤ a b then b else a

pub lock_wake_waiters-prefix :
    (lock : Lock) (ws queue : List Waiter) (val : ℤ)
    → lock.waiters_queue ≡ ws ++ queue
    → All (λ tc. tc.wakeup_val ≤ℤ val) ws
    → lock_wake_waiters lock (pos (length ws)) val ≡ (
      with_waiters lock (lock.nwaiter -ℤ pos (length ws)) (higher lock.max_wakeup_val val) queue,
      ws,
    )
unfolding lock_wake_waiters
lock_wake_waiters-prefix lock ws queue val e h =
    ap
      (λ r. (
        with_waiters lock (lock.nwaiter -ℤ pos (length ws)) (higher lock.max_wakeup_val val) r.1,
        r.0,
      ))
      (ap (λ q. wake_loop q (pos (length ws)) val) e ∙ wake_loop-prefix ws queue val h)

-- A thread that comes while the counter is not negative waits.
pub lock_add_waiter-waits :
    (lock : Lock) (tc : Waiter) (n : ℕ)
    → lock.nwaiter ≡ pos n
    → lock_add_waiter lock tc ≡ (
      with_waiters lock (pos (n + 1)) lock.max_wakeup_val (lock.waiters_queue ++ (tc ∷ [])),
      true,
    )
unfolding lock_add_waiter
lock_add_waiter-waits lock tc n e =
    let s : lock.nwaiter +ℤ pos 1 ≡ pos (n + 1) =
      eq_of_parts _ _ (omega (int_parts, ap pos_part e, ap neg_part e)) in
    rw s (ground arith)
