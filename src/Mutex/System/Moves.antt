-- ===== src/Mutex/System/Moves.antt =====
-- One access of a thread keeps what is true of the lock value.
use mmlib.Base.{
  ℕ, zero, suc, ◌+◌, ◌≤◌, ◌<◌, ◌≡◌, ◌≢◌, refl, sym, ◌∙◌, ℕ_discrete, Bool-cases, inl, inr, true,
  false, arith,
}
use mmlib.Mutex.Lockval.{int64_mod, owner_tid}
use mmlib.Mutex.Thread.{
  Pc, away, trying, registering, sleeping, registered, waiting, reloading, trying_once, locked,
  unlock_loading, unlocking, waking, consistent_loading, recovering, access, pshared_mtx_lock,
  pshared_mtx_trylock, success,
}
use mmlib.Mutex.System.{
  System, Step, moves, Reach, start, later, Move, accesses, locks, tries, unlocks, recovers, update,
}
use mmlib.Mutex.System.Count.{counted, counted-le, total-update, total-others}
use mmlib.Mutex.System.Inv.{owns, waiters, IsLocal, Inv, Inv-init}

-- What an access leads to, given the waiters counted before it.
pub record Access (tid lock : ℕ) (p : Pc) (lock' : ℕ) (p' : Pc) : Type 0 where
  pub fits : lock' < int64_mod
  pub counts : waiters lock' + counted p ≡ waiters lock + counted p'
  pub local : IsLocal tid p'
  pub others :
      owner_tid lock ≢ 0 → owns p ≡ false → (owner_tid lock' ≡ owner_tid lock) × (owns p' ≡ false)
  pub owned : owns p' ≡ true → owner_tid lock' ≡ tid

module _ (tid lock : ℕ) (pos : 0 < tid) (dword : tid < 0x100000000) (fits : lock < int64_mod) where
  -- The counts bound what the thread may find.
  pub Access-access :
      (p : Pc)
      → IsLocal tid p
      → counted p ≤ waiters lock
      → waiters lock + 1 ≤ 0xff + counted p
      → (owns p ≡ true → owner_tid lock ≡ tid)
      → Access tid lock p (access tid lock p).0 (access tid lock p).1
  unfolding access
  Access-access (away code) h lo hi o = ground arith
  Access-access (trying old inc true) (h, k) lo hi o = ground arith
  Access-access (trying old inc false) (h, k) lo hi o = ground arith
  Access-access (registering old inc) (h, k) lo hi o = ground arith
  Access-access (sleeping inc) h lo hi o = absurd h
  Access-access (registered inc) h lo hi o = ground arith
  Access-access (waiting inc) h lo hi o = ground arith
  Access-access (reloading inc) h lo hi o = ground arith
  Access-access (trying_once zero old new) h lo hi o = ground arith
  Access-access (trying_once (suc zero) old new) h lo hi o = ground (arith, h.4 refl)
  Access-access (trying_once (suc (suc rounds)) old new) h lo hi o = absurd (omega (arith, h.3))
  Access-access (locked code) h lo hi o = ground arith
  Access-access unlock_loading h lo hi o = ground arith
  Access-access (unlocking val unrecoverable) h lo hi o = ground arith
  Access-access (waking num) h lo hi o = ground arith
  Access-access consistent_loading h lo hi o = ground arith
  Access-access recovering h lo hi o = absurd h

-- A call is no access, and leaves all that is shared.
Move-Access :
    (tid lock : ℕ) {p p' : Pc} {lock' : ℕ}
    → Move tid lock p lock' p'
    → 0 < tid
    → tid < 0x100000000
    → lock < int64_mod
    → IsLocal tid p
    → counted p ≤ waiters lock
    → waiters lock + 1 ≤ 0xff + counted p
    → (owns p ≡ true → owner_tid lock ≡ tid)
    → Access tid lock p lock' p'
unfolding pshared_mtx_lock pshared_mtx_trylock
Move-Access tid lock (accesses p) pos dword fits h lo hi o =
    Access-access tid lock pos dword fits p h lo hi o
Move-Access tid lock (locks c) pos dword fits h lo hi o = ground arith
Move-Access tid lock (tries c) pos dword fits h lo hi o = ground arith
Move-Access tid lock (unlocks c) pos dword fits h lo hi o = ground arith
Move-Access tid lock (recovers c) pos dword fits h lo hi o = ground arith

module _ (pc : ℕ → Pc) (i : ℕ) (p : Pc) where
  update-same : update pc i p i ≡ p
  update-same = ground arith

  update-other : (j : ℕ) → i ≢ j → update pc i p j ≡ pc j
  update-other j ne = ground arith

module _ {n : ℕ} {tid : ℕ → ℕ} {lock : ℕ} {pc : ℕ → Pc} (inv : Inv n tid lock pc) (i : ℕ) where
  module _ {p' : Pc} {lock' : ℕ} (a : Access (tid i) lock (pc i) lock' p') where
    -- While another thread owns the mutex, this one does not get it.
    not_taken : (j : ℕ) → i ≢ j → owns (pc j) ≡ true → (owner_tid lock' ≡ tid j) × (owns p' ≡ false)
    not_taken j ne q = elim (Bool-cases (owns (pc i))) [
      | inl mine ↦ absurd (ne (inv.single i j mine q))
      | inr free ↦
          let (same, out) = a.others (λ z. omega (arith, z, inv.owned j q, (inv.tids j).0)) free in
          (same ∙ inv.owned j q, out)
    ]

    mover_owns : (j : ℕ) → i ≡ j → owns (update pc i p' j) ≡ true → owns p' ≡ true
    mover_owns j e q = rw (update-same pc i p') at (rw (← e) at q)

    other_owns : (j : ℕ) → i ≢ j → owns (update pc i p' j) ≡ true → owns (pc j) ≡ true
    other_owns j ne q = rw (update-other pc i p' j ne) at q

    owned-update : (j : ℕ) → owns (update pc i p' j) ≡ true → owner_tid lock' ≡ tid j
    owned-update j q = elim (ℕ_discrete i j) [
      | yes e ↦ rw (← e) (a.owned (mover_owns j e q))
      | no ne ↦ (not_taken j ne (other_owns j ne q)).0
    ]

    single-update :
        (j k : ℕ) → owns (update pc i p' j) ≡ true → owns (update pc i p' k) ≡ true → j ≡ k
    single-update j k q r = elim (ℕ_discrete i j) [
      | yes e ↦ elim (ℕ_discrete i k) [
        | yes f ↦ sym e ∙ f
        | no nf ↦ cc (mover_owns j e q, (not_taken k nf (other_owns k nf r)).1)
      ]
      | no ne ↦ elim (ℕ_discrete i k) [
        | yes f ↦ cc (mover_owns k f r, (not_taken j ne (other_owns j ne q)).1)
        | no nf ↦ inv.single j k (other_owns j ne q) (other_owns k nf r)
      ]
    ]

    IsLocal-update : (j : ℕ) → IsLocal (tid j) (update pc i p' j)
    IsLocal-update j = elim (ℕ_discrete i j) [
      | yes e ↦ rw (← e) (rw (update-same pc i p') a.local)
      | no ne ↦ rw (update-other pc i p' j ne) (inv.local j)
    ]

  Move-Inv :
      i < n
      → {p' : Pc} {lock' : ℕ} → Move (tid i) lock (pc i) lock' p'
      → Inv n tid lock' (update pc i p')
  Move-Inv lt {p'} {lock'} mv = record {
    few = inv.few;
    tids = inv.tids;
    fits = a.fits;
    counts = omega (arith, a.counts, inv.counts, total-update counted n pc i p' lt);
    local = IsLocal-update a;
    owned = owned-update a;
    single = single-update a;
  }
    where
      a : Access (tid i) lock (pc i) lock' p'
      a =
          Move-Access (tid i) lock mv (inv.tids i).0 (inv.tids i).1 inv.fits (inv.local i)
            (omega (arith, inv.counts, total-update counted n pc i (away success) lt))
            (omega (arith, inv.few, inv.counts, total-others counted counted-le n pc i lt))
            (inv.owned i)

Step-Inv :
    {n : ℕ} {tid : ℕ → ℕ} {s t : System}
    → Step n tid s t
    → Inv n tid s.lock s.pc
    → Inv n tid t.lock t.pc
Step-Inv (moves s i lock p lt mv) inv = Move-Inv inv i lt mv

pub Reach-Inv :
    {n : ℕ} {tid : ℕ → ℕ} {s : System}
    → n ≤ 0xff
    → ((i : ℕ) → (0 < tid i) × (tid i < 0x100000000))
    → Reach n tid s
    → Inv n tid s.lock s.pc
Reach-Inv {n} {tid} few tids start = Inv-init n tid few tids
Reach-Inv few tids (later r st) = Step-Inv st (Reach-Inv few tids r)
