-- ===== src/Referee/Examples.antt =====
-- Runs of the lock server's functions, and the theorems about them at concrete arrays and queues.
use mmlib.Base.{
  ◌*◌, ◌%◌, ◌++◌, ℕ, zero, suc, ◌<◌, ◌≡◌, ◌≢◌, refl, if◌then◌else◌, true, false, none, some, List,
  [], ◌∷◌, arith, take, filter, All, get_or,
}
use mmlib.Base.Int.{ℤ, pos}
use mmlib.Referee.Types.{Waiter, Lock}
use mmlib.Referee.Search.{Index, search_key_index}
use mmlib.Referee.Search.Sorted.{IsSorted, Locates, search_key_index-Locates}
use mmlib.Referee.Array.{LockArray, overrun, lock_array_get_lock, lock_array_drop_unused}
use mmlib.Referee.Array.Sorted.{Increasing→IsSorted}
use mmlib.Referee.Array.Insert.{
  used, IsWellFormed, Creates, lock_array_get_lock-creates, lock_array_get_lock-overruns,
}
use mmlib.Referee.Array.Compact.{is_used, lock_array_drop_unused_lem}
use mmlib.Time.{Timespec}
use mmlib.Referee.Timeouts.{Heap, detach_list_node, timeout_list_add_waiter}
use mmlib.Referee.Timeouts.Insert.{IsNotBefore, FirstIsBefore, timeout_list_add_waiter-Chain}
use mmlib.Referee.Timeouts.Detach.{Chain, detach_list_node-cuts}
use mmlib.Referee.Waiters.{lock_wake_waiters, lock_add_waiter}
use mmlib.Referee.Waiters.Fifo.{Interleaved, is_ready, lock_wake_waiters-first}
use mmlib.Referee.Waiters.Balance.{
  History, started, waits, Reaches, start, step, IsBalanced, nwaiter-IsBalanced,
}
use mmlib.Referee.Waiters.Early.{add_all, lock_wake_waiters-early}

abbrev three_keys : List ℤ
three_keys = pos 2 ∷ pos 5 ∷ pos 9 ∷ []

three_keys-IsSorted : IsSorted three_keys 3
three_keys-IsSorted =
    Increasing→IsSorted three_keys 3 (omega arith)
      ((omega arith, (omega arith, tt)), ((omega arith, tt), (tt, tt)))

search_key_index-Locates_example :
    (r : Index) × (search_key_index three_keys 3 (pos 7) ≡ some r) × Locates three_keys 3 (pos 7) r
search_key_index-Locates_example = search_key_index-Locates three_keys 3 (pos 7) three_keys-IsSorted

abbrev reader : Waiter
reader = record { client = 1; wakeup_val = pos 3 }

abbrev writer : Waiter
writer = record { client = 2; wakeup_val = pos 8 }

abbrev busy : ℤ → Lock
busy key = record {
  key = key;
  max_wakeup_val = pos 0;
  nwaiter = pos 2;
  waiters_queue = writer ∷ reader ∷ [];
  job = none;
}

abbrev idle : ℤ → Lock
idle key = record {
  key = key;
  max_wakeup_val = pos 0;
  nwaiter = pos 0;
  waiters_queue = [];
  job = none;
}

abbrev two_locks : LockArray
two_locks = record {
  num_used = 2;
  num_max = 4;
  sorted_array = idle (pos 5) ∷ busy (pos 9) ∷ idle (pos 0) ∷ idle (pos 0) ∷ [];
}

two_locks-IsWellFormed : IsWellFormed two_locks
two_locks-IsWellFormed = record {
  memory = refl;
  room = omega arith;
  sorted = ((omega arith, tt), (tt, tt));
}

abbrev full : LockArray
full = record {
  num_used = 3;
  num_max = 4;
  sorted_array = idle (pos 5) ∷ busy (pos 9) ∷ idle (pos 12) ∷ idle (pos 0) ∷ [];
}

full-IsWellFormed : IsWellFormed full
full-IsWellFormed = record {
  memory = refl;
  room = omega arith;
  sorted = ((omega arith, (omega arith, tt)), ((omega arith, tt), (tt, tt)));
}

lock_array_get_lock-creates_example : Creates (λ n. none) two_locks (pos 7)
lock_array_get_lock-creates_example =
    lock_array_get_lock-creates (λ n. none) two_locks (pos 7) two_locks-IsWellFormed (omega arith)

abbrev full_keys : List ℤ
full_keys = pos 5 ∷ pos 9 ∷ pos 12 ∷ pos 0 ∷ []

no_seven : (i : ℕ) → i < 3 → get_or full_keys i (pos 7) ≢ pos 7
no_seven zero h e = ground arith
no_seven (suc zero) h e = ground arith
no_seven (suc (suc zero)) h e = ground arith
no_seven (suc (suc (suc i))) h e = absurd (omega arith)

lock_array_get_lock-overruns_example :
    lock_array_get_lock (λ n. none) full (pos 7) true ≡ some overrun
lock_array_get_lock-overruns_example =
    lock_array_get_lock-overruns (λ n. none) full (pos 7) full-IsWellFormed refl no_seven

lock_array_drop_unused_lem_example :
    (used (lock_array_drop_unused full) ≡ filter is_used (used full))
    × IsWellFormed (lock_array_drop_unused full)
lock_array_drop_unused_lem_example = lock_array_drop_unused_lem full full-IsWellFormed

lock_wake_waiters-first_example :
    ((lock_wake_waiters (busy (pos 9)) (pos 1) (pos 4)).1
      ≡ take 1 (filter (is_ready (pos 4)) (writer ∷ reader ∷ [])))
    × Interleaved
        (lock_wake_waiters (busy (pos 9)) (pos 1) (pos 4)).1
        (lock_wake_waiters (busy (pos 9)) (pos 1) (pos 4)).0.waiters_queue
        (writer ∷ reader ∷ [])
lock_wake_waiters-first_example = lock_wake_waiters-first (busy (pos 9)) 1 (pos 4)

abbrev one_waits : History
one_waits = record {
  lock = (lock_add_waiter (started (pos 9)).lock reader).0;
  requested = 0;
  arrived = 1;
  woken = if (lock_add_waiter (started (pos 9)).lock reader).1 then 0 else 1;
  dropped = 0;
}

one_waits-reached : Reaches (started (pos 9)) one_waits
one_waits-reached = step _ _ _ (start (started (pos 9))) (waits (started (pos 9)) reader)

nwaiter-IsBalanced_example : IsBalanced one_waits
nwaiter-IsBalanced_example = nwaiter-IsBalanced (pos 9) one_waits one_waits-reached

lock_wake_waiters-early_example :
    ((add_all
        (lock_wake_waiters (idle (pos 5)) (pos 2) (pos 8)).0
        (reader ∷ writer ∷ [])).0.waiters_queue
      ≡ [])
    × All
        (λ is_waiting. is_waiting ≡ false)
        (add_all (lock_wake_waiters (idle (pos 5)) (pos 2) (pos 8)).0 (reader ∷ writer ∷ [])).1
lock_wake_waiters-early_example =
    lock_wake_waiters-early (idle (pos 5)) 2 (pos 8) (reader ∷ writer ∷ []) refl (omega arith)
      (omega arith) (omega arith, (omega arith, tt))

-- The head 0 leads to the nodes 1, 2 and 3.
abbrev three_nodes : Heap
three_nodes zero = record { prev = none; next = some 1 }
three_nodes (suc zero) = record { prev = some 0; next = some 2 }
three_nodes (suc (suc zero)) = record { prev = some 1; next = some 3 }
three_nodes (suc (suc (suc m))) = record { prev = some 2; next = none }

detach_list_node-cuts_example : Chain (detach_list_node three_nodes 2) 0 (1 ∷ [])
detach_list_node-cuts_example =
    detach_list_node-cuts three_nodes 0 (1 ∷ []) 2 (3 ∷ [])
      (refl, refl, (refl, refl, (refl, refl, refl)))
      (
        (λ q. ground (arith, q), (λ q. ground (arith, q), (λ q. ground (arith, q), tt))),
        (
          (λ q. ground (arith, q), (λ q. ground (arith, q), tt)),
          ((λ q. ground (arith, q), tt), (tt, tt)),
        ),
      )

-- The threads 1, 2, 3 and 7 wait for 10, 20, 30 and 14 seconds.
abbrev waits_until : ℕ → Timespec
waits_until m = record { tv_sec = pos (m * 10 % 56); tv_nsec = pos 0 }

timeout_list_add_waiter-Chain_example :
    (xs ys : List ℕ) × (after : Heap) × ((1 ∷ 2 ∷ 3 ∷ []) ≡ xs ++ ys)
    × (timeout_list_add_waiter 4 three_nodes waits_until 7 ≡ some after)
    × Chain after 0 (xs ++ (7 ∷ ys))
    × All (IsNotBefore three_nodes waits_until (waits_until 7)) xs
    × FirstIsBefore three_nodes waits_until (waits_until 7) ys
timeout_list_add_waiter-Chain_example =
    timeout_list_add_waiter-Chain 4 three_nodes waits_until 7 (1 ∷ 2 ∷ 3 ∷ [])
      (refl, refl, (refl, refl, (refl, refl, refl)))
      (
        (λ q. ground (arith, q), (λ q. ground (arith, q), (λ q. ground (arith, q), tt))),
        (
          (λ q. ground (arith, q), (λ q. ground (arith, q), tt)),
          ((λ q. ground (arith, q), tt), (tt, tt)),
        ),
      )
      (
        λ q. ground (arith, q),
        (λ q. ground (arith, q), (λ q. ground (arith, q), (λ q. ground (arith, q), tt))),
      )
      (omega arith)
