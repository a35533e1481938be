-- ===== src/Mutex/System.antt =====
-- Threads that share one mutex: each does its own accesses, in any order.
pub mod Count
pub mod Inv
pub mod Moves
use mmlib.Base.{ℕ, ◌+◌, ◌<◌, ◌≡◌, Bool, true, false, ◌==◌, if◌then◌else◌}
use mmlib.Mutex.Thread.{
  Code, Pc, away, locked, success, access, pshared_mtx_lock, pshared_mtx_trylock,
  pshared_mtx_unlock, pshared_mtx_consistent,
}

pub record System : Type 0 where
  pub lock : ℕ
  pub pc : ℕ → Pc

abbrev pub update : (ℕ → Pc) → ℕ → Pc → ℕ → Pc
update pc i p j = if i == j then p else pc j

-- What a thread may do: an access, or a call where its state allows it.
pub data Move (tid lock : ℕ) : Pc → ℕ → Pc → Type 0 where
  accesses : (p : Pc) → Move tid lock p (access tid lock p).0 (access tid lock p).1
  locks : (c : Code) → Move tid lock (away c) lock (pshared_mtx_lock tid)
  tries : (c : Code) → Move tid lock (away c) lock (pshared_mtx_trylock tid)
  unlocks : (c : Code) → Move tid lock (locked c) lock pshared_mtx_unlock
  recovers : (c : Code) → Move tid lock (locked c) lock pshared_mtx_consistent

-- One of the threads `0` to `n - 1` moves; thread `i` has the number `tid i`.
pub data Step (n : ℕ) (tid : ℕ → ℕ) : System → System → Type 0 where
  moves :
      (s : System) (i lock : ℕ) (p : Pc)
      → i < n
      → Move (tid i) s.lock (s.pc i) lock p
      → Step n tid s record { lock = lock; pc = update s.pc i p }

abbrev pub init : System
init = record { lock = 0; pc = λ i. away success }

pub data Reach (n : ℕ) (tid : ℕ → ℕ) : System → Type 0 where
  start : Reach n tid init
  later : {s t : System} → Reach n tid s → Step n tid s t → Reach n tid t
