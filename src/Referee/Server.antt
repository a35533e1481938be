-- ===== src/Referee/Server.antt =====
-- src/lock-referee-server.c, the requests of the clients and the end of a client, over the array of locks. What
-- is sent on the pipes is a list of messages; the timeout lists are left out here, and so are the robust data.
pub mod Destroy
mod Examples
use mmlib.Base.{
  ℕ, zero, suc, ◌+◌, ◌-◌, ◌*◌, ◌%◌, Bool, true, false, not, Option, none, some, List, [], ◌∷◌, ◌++◌,
  ◌==◌, map, set, get_or, take, drop, if◌then◌else◌,
}
use mmlib.Base.Int.{ℤ, pos, negsuc, ◌+ℤ◌}
use mmlib.Referee.Types.{Waiter, Lock, lock_init, ◌==ℤ◌}
use mmlib.Referee.Waiters.{
  lock_add_waiter, lock_wake_waiters, lock_drop_waiter, lock_start_or_remove_cleanup_job,
  lock_report_cleanup_job_done,
}
use mmlib.Referee.Array.{
  LockArray, Got, null, got, overrun, lock_array_get_lock, lock_array_drop_unused,
}

pub data Message : Type 0 where
  wake_done : (client : ℕ) → Message
  wait_done : (client : ℕ) → (timedout : Bool) → Message
  key_made : (client : ℕ) → ℤ → Message
  do_cleanup : (client : ℕ) → Message

-- `struct lockref_server`, with what it keeps of each client, and the last value of gen_pshared_key.
pub record Server : Type 0 where
  pub watched_locks : LockArray
  pub waiting_lock_key : ℕ → ℤ
  pub is_freed : ℕ → Bool
  pub num_thread_client : ℤ
  pub quit : Bool
  pub last_value : ℕ
  pub sent : List Message

abbrev with_locks : Server → LockArray → Server
with_locks srv locks = record {
  watched_locks = locks;
  waiting_lock_key = srv.waiting_lock_key;
  is_freed = srv.is_freed;
  num_thread_client = srv.num_thread_client;
  quit = srv.quit;
  last_value = srv.last_value;
  sent = srv.sent;
}

abbrev send : Server → Message → Server
send srv message = record {
  watched_locks = srv.watched_locks;
  waiting_lock_key = srv.waiting_lock_key;
  is_freed = srv.is_freed;
  num_thread_client = srv.num_thread_client;
  quit = srv.quit;
  last_value = srv.last_value;
  sent = srv.sent ++ (message ∷ []);
}

-- The two answers are opposite to their name in the code as well.
unfoldable pub thread_client_wakeup : Server → (client : ℕ) → (timedout : Bool) → Server
thread_client_wakeup srv client timedout =
    send
      (record {
        watched_locks = srv.watched_locks;
        waiting_lock_key = λ c. if c == client then pos 0 else srv.waiting_lock_key c;
        is_freed = srv.is_freed;
        num_thread_client = srv.num_thread_client;
        quit = srv.quit;
        last_value = srv.last_value;
        sent = srv.sent;
      })
      (wait_done client (not timedout))

unfoldable pub wake_all : Server → List Waiter → Server
wake_all srv [] = srv
wake_all srv (tc ∷ woken) = wake_all (thread_client_wakeup srv tc.client false) woken

abbrev pub lock_at : LockArray → ℕ → Lock
lock_at locks index = get_or locks.sorted_array index (lock_init (pos 0))

abbrev pub set_lock : LockArray → ℕ → Lock → LockArray
set_lock locks index lock = record {
  num_used = locks.num_used;
  num_max = locks.num_max;
  sorted_array = set locks.sorted_array index lock;
}

-- What follows lockref_server_get_lock: `none` where the search does not end, the code follows NULL, or
-- memory behind the array is written.
abbrev pub on_lock : Server → Option Got → (Server → ℕ → Lock → Option Server) → Option Server
on_lock srv (some (got locks index)) action =
    action (with_locks srv locks) index (lock_at locks index)
on_lock srv _ action = none

abbrev wake_at : Server → ℕ → Lock → (num val : ℤ) → Server
wake_at srv index lock num val =
    let (after, woken) = lock_wake_waiters lock num val in
    wake_all (with_locks srv (set_lock srv.watched_locks index after)) woken

module _ (realloc : ℕ → Option (List Lock)) where
  abbrev pub lockref_server_get_lock : Server → (key : ℤ) → (create : Bool) → Option Got
  lockref_server_get_lock srv key create = lock_array_get_lock realloc srv.watched_locks key create

  unfoldable pub thread_client_handle_req_wake :
      Server → (client : ℕ) → (key num val : ℤ) → Option Server
  thread_client_handle_req_wake srv client key num val =
      on_lock srv (lockref_server_get_lock srv key true)
        (λ s index lock. some (send (wake_at s index lock num val) (wake_done client)))

  -- Up to the timeout list.
  unfoldable pub thread_client_handle_req_wait :
      Server → (client : ℕ) → (key val : ℤ) → Option Server
  thread_client_handle_req_wait srv client key val =
      on_lock srv (lockref_server_get_lock srv key true) (λ s index lock.
        let (after, waits) = lock_add_waiter lock (record { client = client; wakeup_val = val }) in
        let queued = with_locks s (set_lock s.watched_locks index after) in
        some (if waits then queued else thread_client_wakeup queued client false))

  unfoldable pub thread_client_handle_req_cleanup_done : Server → (key num : ℤ) → Option Server
  thread_client_handle_req_cleanup_done srv key num =
      on_lock srv (lockref_server_get_lock srv key false) (λ s index lock.
        elim (lock_report_cleanup_job_done lock) [
          | none ↦ none
          | some reported ↦ some (wake_at s index reported num (pos 1))
        ])

  unfoldable pub lockref_server_update_thread_count : Server → (adjustment : ℤ) → Server
  lockref_server_update_thread_count srv adjustment =
      let num = srv.num_thread_client +ℤ adjustment in
      record {
        watched_locks = srv.watched_locks;
        waiting_lock_key = srv.waiting_lock_key;
        is_freed = srv.is_freed;
        num_thread_client = num;
        quit = num ==ℤ pos 0;
        last_value = srv.last_value;
        sent = srv.sent;
      }

  abbrev free_client : Server → (client : ℕ) → Server
  free_client srv client =
      lockref_server_update_thread_count
        (record {
          watched_locks = srv.watched_locks;
          waiting_lock_key = srv.waiting_lock_key;
          is_freed = λ c. if c == client then true else srv.is_freed c;
          num_thread_client = srv.num_thread_client;
          quit = srv.quit;
          last_value = srv.last_value;
          sent = srv.sent;
        })
        (negsuc 0)

  -- With no request pending.
  unfoldable pub thread_client_destroy : Server → (client : ℕ) → Option Server
  thread_client_destroy srv client =
      if srv.waiting_lock_key client ==ℤ pos 0
      then some (free_client srv client)
      else on_lock srv (lockref_server_get_lock srv (srv.waiting_lock_key client) false)
          (λ s index lock. some (
            free_client
              (with_locks s (set_lock s.watched_locks index (lock_drop_waiter lock client)))
              client))

-- The key, as a bit pattern. `filetime` is the low half of the system's time; the value counts modulo 2^32.
unfoldable pub gen_pshared_key : (last_value filetime : ℕ) → ℤ × ℕ
gen_pshared_key last_value filetime =
    (pos (last_value * 0x100000000 + filetime), (last_value + 1) % 0x100000000)

unfoldable pub thread_client_handle_req_initlock : Server → (client filetime : ℕ) → Server
thread_client_handle_req_initlock srv client filetime =
    let (key, next_value) = gen_pshared_key srv.last_value filetime in
    send
      (record {
        watched_locks = srv.watched_locks;
        waiting_lock_key = srv.waiting_lock_key;
        is_freed = srv.is_freed;
        num_thread_client = srv.num_thread_client;
        quit = srv.quit;
        last_value = next_value;
        sent = srv.sent;
      })
      (key_made client key)

abbrev send_job : List Message → Option ℕ → List Message
send_job sent none = sent
send_job sent (some client) = sent ++ (do_cleanup client ∷ [])

-- The locks after lock_array_update_cleanup_jobs, and the jobs that are sent.
unfoldable pub lock_array_update_cleanup_jobs : List Lock → List Message → List Lock × List Message
lock_array_update_cleanup_jobs [] sent = ([], sent)
lock_array_update_cleanup_jobs (lock ∷ locks) sent =
    let (updated, job) = lock_start_or_remove_cleanup_job lock in
    let (rest, all_sent) = lock_array_update_cleanup_jobs locks (send_job sent job) in
    (updated ∷ rest, all_sent)

unfoldable pub lockref_server_garbage_collection : Server → Server
lockref_server_garbage_collection srv =
    let kept = lock_array_drop_unused srv.watched_locks in
    let (updated, sent) =
      lock_array_update_cleanup_jobs (take kept.num_used kept.sorted_array) srv.sent in
    record {
      watched_locks = record {
        num_used = kept.num_used;
        num_max = kept.num_max;
        sorted_array = updated ++ drop kept.num_used kept.sorted_array;
      };
      waiting_lock_key = srv.waiting_lock_key;
      is_freed = srv.is_freed;
      num_thread_client = srv.num_thread_client;
      quit = srv.quit;
      last_value = srv.last_value;
      sent = sent;
    }
