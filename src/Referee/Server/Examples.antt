-- ===== src/Referee/Server/Examples.antt =====
-- A client that waits for the lock 5, and ends.
use mmlib.Base.{◌≡◌, refl, false, true, none, some, [], ◌∷◌, ◌++◌, arith}
use mmlib.Base.Int.{pos, ◌+ℤ◌}
use mmlib.Referee.Types.{lock_init}
use mmlib.Referee.Search.{search_loop, search_key_index}
use mmlib.Referee.Array.{LockArray, got, lock_array_get_lock}
use mmlib.Referee.Waiters.{lock_add_waiter}
use mmlib.Referee.Server.{
  Server, lock_at, lockref_server_get_lock, thread_client_handle_req_wait, thread_client_destroy,
}
use mmlib.Referee.Server.Destroy.{thread_client_destroy-dangling}

abbrev two_cells : LockArray
two_cells = record {
  num_used = 1;
  num_max = 2;
  sorted_array = lock_init (pos 5) ∷ lock_init (pos 0) ∷ [];
}

abbrev one_client : Server
one_client = record {
  watched_locks = two_cells;
  waiting_lock_key = λ c. pos 0;
  is_freed = λ c. false;
  num_thread_client = pos 1;
  quit = false;
  last_value = 6;
  sent = [];
}

lock_5-found : lockref_server_get_lock (λ n. none) one_client (pos 5) true ≡ some (got two_cells 0)
unfolding lock_array_get_lock search_key_index search_loop lock_init
lock_5-found = refl

lock_5-queues :
    (lock_add_waiter (lock_at two_cells 0) record { client = 1; wakeup_val = pos 3 }).1 ≡ true
unfolding lock_add_waiter lock_init ◌+ℤ◌
lock_5-queues = refl

thread_client_destroy-dangling_example :
    (queued : Server) × (ended : Server) × (thread_client_handle_req_wait
        (λ n. none)
        one_client
        1
        (pos 5)
        (pos 3)
      ≡ some queued)
    × (thread_client_destroy (λ n. none) queued 1 ≡ some ended)
    × (ended.is_freed 1 ≡ true)
    × ((lock_at ended.watched_locks 0).waiters_queue
        ≡ (lock_at two_cells 0).waiters_queue ++ (record { client = 1; wakeup_val = pos 3 } ∷ []))
thread_client_destroy-dangling_example =
    thread_client_destroy-dangling (λ n. none) one_client 1 0 (pos 5) (pos 3) two_cells lock_5-found
      (omega arith) refl lock_5-queues
