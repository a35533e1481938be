-- ===== src/Referee/Waiters/Balance.antt =====
-- What the counter of waiters means, along every sequence of requests to a lock.
use mmlib.Base.{
  ℕ, ◌+◌, ◌≤◌, ◌≡◌, ap, ◌⊎◌, inl, inr, Bool, true, false, List, [], ◌∷◌, ◌++◌, arith, length,
  length-append, length-take, filter, if◌then◌else◌, ◌==◌,
}
use mmlib.Base.Int.{ℤ, pos, ◌+ℤ◌, ◌≤ℤ◌, Parts, int_parts}
use mmlib.Referee.Types.{Waiter, Lock, lock_init}
use mmlib.Referee.Waiters.{
  with_waiters, lock_add_waiter, lock_wake_waiters, drop_client, lock_drop_waiter,
}
use mmlib.Referee.Waiters.Fifo.{Interleaved, done, wakes, stays, wake_loop_lem, is_ready}

-- A lock with what has happened to it: wakeups asked for, and threads that came, were woken, or were dropped.
pub record History : Type 0 where
  pub lock : Lock
  pub requested : ℕ
  pub arrived : ℕ
  pub woken : ℕ
  pub dropped : ℕ

abbrev pub started : ℤ → History
started key = record { lock = lock_init key; requested = 0; arrived = 0; woken = 0; dropped = 0 }

abbrev pub has_client : ℕ → List Waiter → Bool
has_client client [] = false
has_client client (tc ∷ queue) = if client == tc.client then true else has_client client queue

-- One call. A thread is dropped only while it is in the queue.
pub data Step : History → History → Type 0 where
  waits :
      (h : History) (tc : Waiter)
      → Step h record {
        lock = (lock_add_waiter h.lock tc).0;
        requested = h.requested;
        arrived = h.arrived + 1;
        woken = if (lock_add_waiter h.lock tc).1 then h.woken else h.woken + 1;
        dropped = h.dropped;
      }
  wakes_up :
      (h : History) (num : ℕ) (val : ℤ)
      → Step h record {
        lock = (lock_wake_waiters h.lock (pos num) val).0;
        requested = h.requested + num;
        arrived = h.arrived;
        woken = h.woken + length (lock_wake_waiters h.lock (pos num) val).1;
        dropped = h.dropped;
      }
  drops :
      (h : History) (client : ℕ)
      → has_client client h.lock.waiters_queue ≡ true
      → Step h record {
        lock = lock_drop_waiter h.lock client;
        requested = h.requested;
        arrived = h.arrived;
        woken = h.woken;
        dropped = h.dropped + 1;
      }

pub data Reaches : History → History → Type 0 where
  start : (h : History) → Reaches h h
  step : (h i j : History) → Reaches h i → Step i j → Reaches h j

-- The counter is the length of the queue less the wakeups that are still due, and no more threads are
-- woken than was asked for. Every thread that came waits, was woken, or was dropped.
pub record IsBalanced (h : History) : Type 0 where
  pub counter : Parts h.lock.nwaiter (length h.lock.waiters_queue + h.woken) h.requested
  pub bound : h.woken ≤ h.requested
  pub account : h.arrived ≡ length h.lock.waiters_queue + h.woken + h.dropped

length-Interleaved :
    (woken left queue : List Waiter)
    → Interleaved woken left queue
    → length woken + length left ≡ length queue
length-Interleaved _ _ _ (done left) = omega arith
length-Interleaved _ _ _ (wakes tc w l q i) = omega (arith, length-Interleaved w l q i)
length-Interleaved _ _ _ (stays tc w l q i) = omega (arith, length-Interleaved w l q i)

length-drop_client :
    (client : ℕ) (queue : List Waiter)
    → has_client client queue ≡ true
    → length (drop_client client queue) + 1 ≡ length queue
unfolding drop_client
length-drop_client client [] h = ground arith
length-drop_client client (tc ∷ queue) h = ground (arith, length-drop_client client queue, h)

-- The two outcomes of lock_add_waiter.
pub lock_add_waiter_cases :
    (lock : Lock) (tc : Waiter)
    → ((lock_add_waiter lock tc ≡ (
      with_waiters lock (lock.nwaiter +ℤ pos 1) lock.max_wakeup_val lock.waiters_queue,
      false,
    ))
        × (lock.nwaiter +ℤ pos 1 ≤ℤ pos 0)
        × (tc.wakeup_val ≤ℤ lock.max_wakeup_val))
      ⊎ (lock_add_waiter lock tc ≡ (
        with_waiters lock
            (lock.nwaiter +ℤ pos 1)
            lock.max_wakeup_val
            (lock.waiters_queue ++ (tc ∷ [])),
        true,
      ))
unfolding lock_add_waiter
lock_add_waiter_cases lock tc = ground arith

abbrev after_wait : History → Lock × Bool → History
after_wait h (lock, is_waiting) = record {
  lock = lock;
  requested = h.requested;
  arrived = h.arrived + 1;
  woken = if is_waiting then h.woken else h.woken + 1;
  dropped = h.dropped;
}

IsBalanced-after_wait :
    (h : History) (tc : Waiter)
    → IsBalanced h
    → IsBalanced (after_wait h (lock_add_waiter h.lock tc))
IsBalanced-after_wait h tc b = elim (lock_add_waiter_cases h.lock tc) [
  | inl w ↦ rw w.0 record {
    counter = omega (int_parts, b.counter);
    bound = omega (int_parts, b.counter, w.1);
    account = omega (arith, b.account);
  }
  | inr e ↦
      let size = length-append h.lock.waiters_queue (tc ∷ []) in
      rw e record {
        counter = omega (int_parts, b.counter, size);
        bound = b.bound;
        account = omega (arith, b.account, size);
      }
]

IsBalanced-Step : (h i : History) → IsBalanced h → Step h i → IsBalanced i
unfolding lock_wake_waiters lock_drop_waiter
IsBalanced-Step _ _ b (waits h tc) = IsBalanced-after_wait h tc b
IsBalanced-Step _ _ b (wakes_up h num val) =
    let (first, parts) = wake_loop_lem h.lock.waiters_queue num val in
    let sum = length-Interleaved _ _ _ parts in
    record {
      counter = omega (int_parts, sum, b.counter);
      bound = omega (
        arith,
        b.bound,
        ap length first,
        length-take num (filter (is_ready val) h.lock.waiters_queue),
      );
      account = omega (arith, sum, b.account);
    }
IsBalanced-Step _ _ b (drops h client present) =
    let size = length-drop_client client h.lock.waiters_queue present in
    record {
      counter = omega (int_parts, size, b.counter);
      bound = b.bound;
      account = omega (arith, size, b.account);
    }

-- Whatever requests a lock has had, its counter is the length of the queue less the wakeups still due, no
-- more threads were woken than asked for, and each thread that came waits, was woken or was dropped.
pub nwaiter-IsBalanced : (key : ℤ) (h : History) → Reaches (started key) h → IsBalanced h
unfolding lock_init
nwaiter-IsBalanced key _ (start _) = record {
  counter = omega arith;
  bound = omega arith;
  account = omega arith;
}
nwaiter-IsBalanced key _ (step _ i j r s) = IsBalanced-Step i j (nwaiter-IsBalanced key i r) s
