-- ===== src/Mutex/System/Inv.antt =====
-- What is true of the lock value and of the threads, as long as no more threads share the mutex than the
-- count of waiters can hold.
use mmlib.Base.{ℕ, ◌+◌, ◌-◌, ◌/◌, ◌%◌, ◌≤◌, ◌<◌, ◌≡◌, refl, Bool, true, false, arith}
use mmlib.Mutex.Lockval.{int64_mod, owner_tid, add64}
use mmlib.Mutex.Thread.{
  Pc, trying, registering, sleeping, registered, waiting, reloading, trying_once, locked,
  unlock_loading, unlocking, consistent_loading, recovering,
}
use mmlib.Mutex.System.{init}
use mmlib.Mutex.System.Count.{total, counted, total-zero}

-- Whether a thread is between the end of a lock and the subtraction of the unlock.
abbrev pub owns : Pc → Bool
owns (locked code) = true
owns unlock_loading = true
owns (unlocking unlock_val unrecoverable) = true
owns consistent_loading = true
owns recovering = true
owns _ = false

-- The waiters counted by a lock value, and the mark above them.
abbrev pub waiters : ℕ → ℕ
waiters lockval = lockval % 0x20000000000 / 0x100000000

-- What to add to the lock value that a thread has seen, to own the mutex.
abbrev pub increment : ℕ → Bool → ℕ
increment tid false = tid
increment tid true = tid + int64_mod - 0x100000000

-- The local variables of a thread.
abbrev pub IsLocal : (tid : ℕ) → Pc → Type 0
IsLocal tid (trying oldval incval notified) =
    (owner_tid oldval ≡ 0) × (incval ≡ increment tid notified)
IsLocal tid (registering oldval incval) = (waiters oldval < 0xff) × (incval ≡ tid)
IsLocal tid (sleeping incval) = ⊥
IsLocal tid (registered incval) = incval ≡ tid
IsLocal tid (waiting incval) = incval ≡ increment tid true
IsLocal tid (reloading incval) = incval ≡ increment tid true
IsLocal tid (trying_once rounds oldval newval) =
    (owner_tid oldval ≡ 0)
    × (newval ≡ add64 oldval tid)
    × (oldval < int64_mod)
    × (rounds ≤ 1)
    × (rounds ≡ 1 → oldval ≡ 0)
IsLocal tid (unlocking unlock_val unrecoverable) = unlock_val ≡ tid
IsLocal tid recovering = ⊥
IsLocal tid _ = Unit

pub record Inv (n : ℕ) (tid : ℕ → ℕ) (lock : ℕ) (pc : ℕ → Pc) : Type 0 where
  pub few : n ≤ 0xff
  pub tids : (i : ℕ) → (0 < tid i) × (tid i < 0x100000000)
  pub fits : lock < int64_mod
  pub counts : waiters lock ≡ total counted n pc
  pub local : (i : ℕ) → IsLocal (tid i) (pc i)
  pub owned : (i : ℕ) → owns (pc i) ≡ true → owner_tid lock ≡ tid i
  pub single : (i j : ℕ) → owns (pc i) ≡ true → owns (pc j) ≡ true → i ≡ j

pub Inv-init :
    (n : ℕ) (tid : ℕ → ℕ)
    → n ≤ 0xff
    → ((i : ℕ) → (0 < tid i) × (tid i < 0x100000000))
    → Inv n tid 0 (init.pc)
Inv-init n tid few tids = record {
  few = few;
  tids = tids;
  fits = omega arith;
  counts = omega (arith, total-zero counted n init.pc (λ i. refl));
  local = λ i. tt;
  owned = λ i q. cc;
  single = λ i j q r. cc;
}
