-- ===== src/Referee/Server/Destroy.antt =====
-- A client that ends while it waits.
use mmlib.Base.{
  get_or-set_same, ℕ, ◌<◌, ◌≡◌, refl, ◌∙◌, ap, arith, true, ◌==◌, Option, some, List, [], ◌∷◌, ◌++◌,
  length,
}
use mmlib.Base.Int.{ℤ, pos}
use mmlib.Referee.Types.{Waiter, Lock, lock_init}
use mmlib.Referee.Waiters.{lock_add_waiter}
use mmlib.Referee.Array.{LockArray, got}
use mmlib.Referee.Server.{
  Server, lock_at, set_lock, with_locks, free_client, lockref_server_get_lock,
  lockref_server_update_thread_count, thread_client_handle_req_wait, thread_client_destroy,
}

lock_add_waiter-queues :
    (lock : Lock) (tc : Waiter)
    → (lock_add_waiter lock tc).1 ≡ true
    → (lock_add_waiter lock tc).0.waiters_queue ≡ lock.waiters_queue ++ (tc ∷ [])
unfolding lock_add_waiter
lock_add_waiter-queues lock tc h = ground (arith, h)

-- A client for which no lock is noted, and that asks to wait for a lock in the array and is queued, is freed
-- when its connection ends, and is still in the queue of the lock.
pub thread_client_destroy-dangling :
    (realloc : ℕ → Option (List Lock)) (srv : Server) (client index : ℕ) (key val : ℤ)
    (locks : LockArray)
    → lockref_server_get_lock realloc srv key true ≡ some (got locks index)
    → index < length locks.sorted_array
    → srv.waiting_lock_key client ≡ pos 0
    → (lock_add_waiter (lock_at locks index) record { client = client; wakeup_val = val }).1 ≡ true
    → (queued : Server) × (ended : Server) × (thread_client_handle_req_wait realloc srv client key
          val
        ≡ some queued)
      × (thread_client_destroy realloc queued client ≡ some ended)
      × (ended.is_freed client ≡ true)
      × ((lock_at ended.watched_locks index).waiters_queue
          ≡ (lock_at locks index).waiters_queue
            ++ (record { client = client; wakeup_val = val } ∷ []))
unfolding thread_client_handle_req_wait thread_client_destroy lockref_server_update_thread_count
thread_client_destroy-dangling realloc srv client index key val locks here within unset waits =
    let tc : Waiter = record { client = client; wakeup_val = val } in
    let after = (lock_add_waiter (lock_at locks index) tc).0 in
    let queued = with_locks (with_locks srv locks) (set_lock locks index after) in
    (
      queued,
      free_client realloc queued client,
      rw (here, waits) refl,
      rw unset refl,
      (let same : (client == client) ≡ true = ground arith in rw same refl),
      ap (λ lock. lock.waiters_queue)
            (get_or-set_same locks.sorted_array index after (lock_init (pos 0)) within)
          ∙ lock_add_waiter-queues (lock_at locks index) tc waits,
    )
