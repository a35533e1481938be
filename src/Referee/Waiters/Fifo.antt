-- ===== src/Referee/Waiters/Fifo.antt =====
-- Which threads lock_wake_waiters wakes.
use mmlib.Base.{
  ℕ, zero, suc, ◌≡◌, refl, ap, inl, inr, Bool, true, false, not, Bool-cases, List, [], ◌∷◌, arith,
  take, filter,
}
use mmlib.Base.Int.{ℤ, pos, ◌-ℤ◌, ltb_ℤ, eq_of_parts, int_parts}
use mmlib.Referee.Types.{Waiter, Lock}
use mmlib.Referee.Waiters.{wake_loop, lock_wake_waiters}

abbrev pub is_ready : ℤ → Waiter → Bool
is_ready val tc = not (ltb_ℤ val tc.wakeup_val)

-- A queue that is made of those woken and those left, each in the order of the queue.
pub data Interleaved : List Waiter → List Waiter → List Waiter → Type 0 where
  done : (left : List Waiter) → Interleaved [] left left
  wakes :
      (tc : Waiter) (woken left queue : List Waiter)
      → Interleaved woken left queue
      → Interleaved (tc ∷ woken) left (tc ∷ queue)
  stays :
      (tc : Waiter) (woken left queue : List Waiter)
      → Interleaved woken left queue
      → Interleaved woken (tc ∷ left) (tc ∷ queue)

module _ (tc : Waiter) (queue : List Waiter) (n : ℕ) (val : ℤ) where
  wake_loop-stays :
      ltb_ℤ val tc.wakeup_val ≡ true
      → wake_loop (tc ∷ queue) (pos (suc n)) val
        ≡ ((wake_loop queue (pos (suc n)) val).0, tc ∷ (wake_loop queue (pos (suc n)) val).1)
  unfolding wake_loop
  wake_loop-stays e = ground arith

  pub wake_loop-wakes :
      ltb_ℤ val tc.wakeup_val ≡ false
      → wake_loop (tc ∷ queue) (pos (suc n)) val
        ≡ (tc ∷ (wake_loop queue (pos n) val).0, (wake_loop queue (pos n) val).1)
  unfolding wake_loop
  wake_loop-wakes e = rw (minus_one) (ground arith)
    where
      minus_one : pos (suc n) -ℤ pos 1 ≡ pos n
      minus_one = eq_of_parts _ _ (omega int_parts)

pub wake_loop_lem :
    (queue : List Waiter) (n : ℕ) (val : ℤ)
    → ((wake_loop queue (pos n) val).0 ≡ take n (filter (is_ready val) queue))
      × Interleaved (wake_loop queue (pos n) val).0 (wake_loop queue (pos n) val).1 queue
unfolding wake_loop
wake_loop_lem [] zero val = (refl, done [])
wake_loop_lem [] (suc n) val = (refl, done [])
wake_loop_lem (tc ∷ queue) zero val = (refl, done (tc ∷ queue))
wake_loop_lem (tc ∷ queue) (suc n) val = elim (Bool-cases (ltb_ℤ val tc.wakeup_val)) [
  | inl e ↦
      let (same, parts) = wake_loop_lem queue (suc n) val in
      rw (wake_loop-stays tc queue n val e, e) (same, stays tc _ _ queue parts)
  | inr e ↦
      let (same, parts) = wake_loop_lem queue n val in
      rw (wake_loop-wakes tc queue n val e, e) (ap (λ ws. tc ∷ ws) same, wakes tc _ _ queue parts)
]

-- lock_wake_waiters wakes the first `num` threads of the queue whose wakeup value is at most `val`, all of
-- them if they are fewer; the others stay in the queue, in their order.
pub lock_wake_waiters-first :
    (lock : Lock) (num : ℕ) (val : ℤ)
    → ((lock_wake_waiters lock (pos num) val).1
        ≡ take num (filter (is_ready val) lock.waiters_queue))
      × Interleaved
          (lock_wake_waiters lock (pos num) val).1
          (lock_wake_waiters lock (pos num) val).0.waiters_queue
          lock.waiters_queue
unfolding lock_wake_waiters
lock_wake_waiters-first lock num val = wake_loop_lem lock.waiters_queue num val
