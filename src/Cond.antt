-- ===== src/Cond.antt =====
-- The process shared condition of src/thread-win32.c, with the queue that the lock server keeps for its
-- key. A request reaches the server before the next call is made.
pub mod Order
mod Examples
use mmlib.Base.{ℕ, ◌+◌, ◌-◌, ◌<◌, Bool, true, false, List, [], ◌∷◌, ltb, if◌then◌else◌, ◌≡◌}
use mmlib.Base.Int.{ℤ, pos}
use mmlib.Referee.Types.{Waiter, Lock, lock_init}
use mmlib.Referee.Waiters.{lock_add_waiter, lock_wake_waiters, lock_drop_waiter}

-- `struct mm_thr_cond_pshared`, and the lock of its key.
pub record Cond : Type 0 where
  pub waiter_seq : ℕ
  pub wakeup_seq : ℕ
  pub lock : Lock

-- pshared_cond_wait up to the wait: the mutex is unlocked in between.
pub pshared_cond_wait : Cond → (client : ℕ) → Cond
pshared_cond_wait cond client =
    let wakeup_val = cond.waiter_seq in
    record {
      waiter_seq = cond.waiter_seq + 1;
      wakeup_seq = cond.wakeup_seq;
      lock =
          (lock_add_waiter cond.lock (record { client = client; wakeup_val = pos wakeup_val })).0;
    }

-- The threads woken come with the condition after the call.
abbrev pub wake : Cond → (num wakeup_val : ℕ) → Cond × List Waiter
wake cond num wakeup_val =
    let (lock, woken) = lock_wake_waiters cond.lock (pos num) (pos wakeup_val) in
    (
      record { waiter_seq = cond.waiter_seq; wakeup_seq = cond.wakeup_seq + num; lock = lock },
      woken,
    )

pub pshared_cond_signal : Cond → Cond × List Waiter
pshared_cond_signal cond =
    if ltb cond.wakeup_seq cond.waiter_seq then wake cond 1 cond.wakeup_seq else (cond, [])

pub pshared_cond_broadcast : Cond → Cond × List Waiter
pshared_cond_broadcast cond =
    let num_waiter = cond.waiter_seq - cond.wakeup_seq in
    if ltb cond.wakeup_seq cond.waiter_seq
    then wake cond num_waiter (cond.wakeup_seq + num_waiter - 1)
    else (cond, [])

-- The sequences are left as they are in memory; the key is the one that pshared_init_lock gives.
pub pshared_cond_init : Cond → ℤ → Cond
pshared_cond_init cond key = record {
  waiter_seq = cond.waiter_seq;
  wakeup_seq = cond.wakeup_seq;
  lock = lock_init key;
}
