-- ===== src/Referee/Types.antt =====
-- The data of src/lock-referee-server.c that concerns a lock. A thread client is named by a number, and
-- the waiter queue of a lock is the list of its waiters: Referee.Queue has the queue with its pointers.
use mmlib.Base.{ℕ, ◌+◌, Bool, true, false, Option, none, some, List, [], ◌∷◌, ◌==◌, ◌&&◌}
use mmlib.Base.Int.{ℤ, pos, pos_part, neg_part}

infix 50 ◌==ℤ◌
abbrev pub ◌==ℤ◌ : ℤ → ℤ → Bool
a ==ℤ b = pos_part a + neg_part b == pos_part b + neg_part a

-- A thread client in a waiter queue, with the `wakeup_val` of its request.
pub record Waiter : Type 0 where
  pub client : ℕ
  pub wakeup_val : ℤ

-- `struct mutex_cleanup_job`, with the dead threads reported to it.
pub record Job : Type 0 where
  pub in_progress : Bool
  pub deadlist : List (Bool × ℕ)

-- `struct lock`. The job, if there is one, comes with its file mapping.
pub record Lock : Type 0 where
  pub key : ℤ
  pub max_wakeup_val : ℤ
  pub nwaiter : ℤ
  pub waiters_queue : List Waiter
  pub job : Option Job

unfoldable pub lock_init : ℤ → Lock
lock_init key = record {
  key = key;
  max_wakeup_val = pos 0;
  nwaiter = pos 0;
  waiters_queue = [];
  job = none;
}

abbrev pub is_empty : List Waiter → Bool
is_empty [] = true
is_empty (w ∷ q) = false

abbrev pub is_none : Option Job → Bool
is_none none = true
is_none (some j) = false

pub lock_is_unused : Lock → Bool
lock_is_unused lock = lock.nwaiter ==ℤ pos 0 && is_empty (lock.waiters_queue) && is_none (lock.job)
