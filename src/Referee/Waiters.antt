-- ===== src/Referee/Waiters.antt =====
-- src/lock-referee-server.c: the threads that wait for a lock, and the jobs that clean up behind dead ones.
-- thread_client_wakeup answers a thread: here the threads woken are returned.
pub mod Fifo
pub mod Balance
pub mod Early
pub mod Prefix
use mmlib.Base.{
  ℕ, suc, ◌+◌, ◌<◌, ◌≤◌, Bool, true, false, not, ◌&&◌, ◌||◌, Option, none, some, List, [], ◌∷◌,
  ◌++◌, ◌==◌, leb, length, if◌then◌else◌,
}
use mmlib.Base.Int.{ℤ, pos, negsuc, ◌+ℤ◌, ◌-ℤ◌, ltb_ℤ}
use mmlib.Referee.Types.{Waiter, Job, Lock, ◌==ℤ◌, is_empty}

abbrev pub with_waiters : Lock → (nwaiter max_wakeup_val : ℤ) → List Waiter → Lock
with_waiters lock nwaiter max_wakeup_val queue = record {
  key = lock.key;
  max_wakeup_val = max_wakeup_val;
  nwaiter = nwaiter;
  waiters_queue = queue;
  job = lock.job;
}

-- The lock, and whether the thread waits: if not, it is woken.
unfoldable pub lock_add_waiter : Lock → Waiter → Lock × Bool
lock_add_waiter lock tc =
    let nwaiter = lock.nwaiter +ℤ pos 1 in
    if not (ltb_ℤ (pos 0) nwaiter) && not (ltb_ℤ lock.max_wakeup_val tc.wakeup_val)
    then (with_waiters lock nwaiter lock.max_wakeup_val lock.waiters_queue, false)
    else (with_waiters lock nwaiter lock.max_wakeup_val (lock.waiters_queue ++ (tc ∷ [])), true)

-- The loop of lock_wake_waiters: the threads woken, and the queue left.
pub wake_loop : List Waiter → (num val : ℤ) → List Waiter × List Waiter
wake_loop [] num val = ([], [])
wake_loop (tc ∷ queue) num val =
    let (woken, left) = wake_loop queue (num -ℤ pos 1) val in
    let (others, kept) = wake_loop queue num val in
    if num ==ℤ pos 0
    then ([], tc ∷ queue)
    else if ltb_ℤ val tc.wakeup_val
    then (others, tc ∷ kept)
    else (tc ∷ woken, left)

pub lock_wake_waiters : Lock → (num val : ℤ) → Lock × List Waiter
lock_wake_waiters lock num val =
    let (woken, left) = wake_loop lock.waiters_queue num val in
    (
      with_waiters lock (lock.nwaiter -ℤ num)
          (if ltb_ℤ lock.max_wakeup_val val then val else lock.max_wakeup_val) left,
      woken,
    )

-- drop_from_queue of the node of a thread in the queue.
pub drop_client : ℕ → List Waiter → List Waiter
drop_client client [] = []
drop_client client (tc ∷ queue) =
    let rest = drop_client client queue in if client == tc.client then queue else tc ∷ rest

pub lock_drop_waiter : Lock → (client : ℕ) → Lock
lock_drop_waiter lock client =
    with_waiters lock (lock.nwaiter -ℤ pos 1) lock.max_wakeup_val
      (drop_client client lock.waiters_queue)

abbrev pub with_job : Lock → Option Job → Lock
with_job lock job = record {
  key = lock.key;
  max_wakeup_val = lock.max_wakeup_val;
  nwaiter = lock.nwaiter;
  waiters_queue = lock.waiters_queue;
  job = job;
}

abbrev pub new_job : Job
new_job = record { in_progress = false; deadlist = [] }

-- `mapped` says whether the system could make and map the file; a new file is zero.
pub lock_create_cleanup_job : (mapped : Bool) → Lock → Lock × Bool
lock_create_cleanup_job true lock = (with_job lock (some new_job), true)
lock_create_cleanup_job false lock = (lock, false)

pub lock_destroy_cleanup_job : Lock → Lock
lock_destroy_cleanup_job lock = with_job lock none

-- The thread that the job is given to, if one is.
abbrev start_job : Lock → Job → List Waiter → Lock × Option ℕ
start_job lock job [] = (lock, none)
start_job lock job (tc ∷ queue) =
    (with_job lock (some record { in_progress = true; deadlist = job.deadlist }), some tc.client)

abbrev update_job : Lock → Job → Lock × Option ℕ
update_job lock job =
    if job.in_progress
    then (lock, none)
    else if length job.deadlist == 0
    then (lock_destroy_cleanup_job lock, none)
    else start_job lock job lock.waiters_queue

pub lock_start_or_remove_cleanup_job : Lock → Lock × Option ℕ
lock_start_or_remove_cleanup_job lock = elim lock.job [
  | none ↦ (lock, none)
  | some job ↦ update_job lock job
]

-- `none` where the code follows a NULL job.
pub lock_report_cleanup_job_done : Lock → Option Lock
lock_report_cleanup_job_done lock = elim lock.job [
  | none ↦ none
  | some job ↦ some (with_job lock (some record { in_progress = false; deadlist = job.deadlist }))
]

abbrev add_dead : Lock → (is_waiter : Bool) → (thread_id : ℕ) → Lock
add_dead lock is_waiter thread_id = elim lock.job [
  | none ↦ lock
  | some job ↦ with_job lock (
      some record {
        in_progress = job.in_progress;
        deadlist = job.deadlist ++ ((is_waiter, thread_id) ∷ []);
      })
]

-- The job is one page: where the list of the dead is longer, the code writes behind it, and the model
-- goes on with the longer list.
pub lock_report_dead : (mapped : Bool) → Lock → (is_waiter : Bool) → (thread_id : ℕ) → Lock
lock_report_dead mapped lock is_waiter thread_id = elim lock.job [
  | none ↦
      let (created, done) = lock_create_cleanup_job mapped lock in
      if not done then lock else add_dead created is_waiter thread_id
  | some job ↦ add_dead lock is_waiter thread_id
]
