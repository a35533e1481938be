-- ===== src/Cond/Examples.antt =====
-- A condition on which three threads wait: the theorems about it.
use mmlib.Base.{◌≡◌, refl, List, [], ◌∷◌, take, drop}
use mmlib.Base.Int.{ℤ, pos, ◌+ℤ◌}
use mmlib.Referee.Types.{Waiter, lock_init}
use mmlib.Referee.Waiters.{lock_add_waiter}
use mmlib.Cond.{
  Cond, pshared_cond_wait, pshared_cond_signal, pshared_cond_broadcast, pshared_cond_init,
}
use mmlib.Cond.Order.{Reach, start, waits, pshared_cond-wakes}

abbrev zeroed : Cond
zeroed = record { waiter_seq = 0; wakeup_seq = 0; lock = lock_init (pos 0) }

abbrev three_waits : Cond
three_waits =
    pshared_cond_wait (pshared_cond_wait (pshared_cond_wait (pshared_cond_init zeroed (pos 9)) 1) 2)
      3

three_waits-Reach : Reach (pos 9) three_waits
three_waits-Reach = waits _ 3 (waits _ 2 (waits _ 1 (start zeroed refl)))

abbrev waiter : ℤ → Waiter
waiter val = record { client = 1; wakeup_val = val }

abbrev waiting : List Waiter
waiting =
    record { client = 1; wakeup_val = pos 0 }
    ∷ record { client = 2; wakeup_val = pos 1 }
    ∷ record { client = 3; wakeup_val = pos 2 }
    ∷ []

three_waits-queue : three_waits.lock.waiters_queue ≡ waiting
unfolding pshared_cond_wait pshared_cond_init lock_add_waiter lock_init ◌+ℤ◌
three_waits-queue = refl

pshared_cond-wakes_example :
    ((pshared_cond_signal three_waits).1 ≡ take 1 three_waits.lock.waiters_queue)
    × ((pshared_cond_signal three_waits).0.lock.waiters_queue
        ≡ drop 1 three_waits.lock.waiters_queue)
    × ((pshared_cond_broadcast three_waits).1 ≡ three_waits.lock.waiters_queue)
    × ((pshared_cond_broadcast three_waits).0.lock.waiters_queue ≡ [])
pshared_cond-wakes_example = pshared_cond-wakes (pos 9) three_waits three_waits-Reach
