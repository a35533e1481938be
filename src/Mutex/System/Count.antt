-- ===== src/Mutex/System/Count.antt =====
-- How many threads are registered as waiters, and how that number changes with one thread.
use mmlib.Base.{ℕ, zero, suc, ◌+◌, ◌≤◌, ◌<◌, ◌≡◌, refl, ap, dec_lt, true, arith}
use mmlib.Mutex.Thread.{Pc, trying, registered, waiting, reloading}
use mmlib.Mutex.System.{update}

module _ (w : Pc → ℕ) where
  pub total : ℕ → (ℕ → Pc) → ℕ
  total zero pc = 0
  total (suc n) pc = total n pc + w (pc n)

  total-update_of_le :
      (n : ℕ) (pc : ℕ → Pc) (i : ℕ) (p : Pc) → n ≤ i → total n (update pc i p) ≡ total n pc
  unfolding total
  total-update_of_le zero pc i p h = refl
  total-update_of_le (suc n) pc i p h = ground (arith, total-update_of_le n pc i p)

  pub total-update :
      (n : ℕ) (pc : ℕ → Pc) (i : ℕ) (p : Pc)
      → i < n
      → total n (update pc i p) + w (pc i) ≡ total n pc + w p
  unfolding total
  total-update zero pc i p h = absurd (omega arith)
  total-update (suc n) pc i p h = elim (dec_lt i n) [
    | yes below ↦ ground (arith, total-update n pc i p below)
    | no last ↦ ground (arith, total-update_of_le n pc i p)
  ]

  module _ (small : (p : Pc) → w p ≤ 1) where
    pub total-le : (n : ℕ) (pc : ℕ → Pc) → total n pc ≤ n
    unfolding total
    total-le zero pc = omega arith
    total-le (suc n) pc = omega (arith, small (pc n), total-le n pc)

    -- A thread that is not counted leaves room for one.
    pub total-others : (n : ℕ) (pc : ℕ → Pc) (i : ℕ) → i < n → total n pc + 1 ≤ n + w (pc i)
    unfolding total
    total-others zero pc i h = absurd (omega arith)
    total-others (suc n) pc i h = elim (dec_lt i n) [
      | yes below ↦ omega (arith, total-others n pc i below, small (pc n))
      | no last ↦ let e : i ≡ n = omega arith in omega (arith, total-le n pc, ap (λ k. w (pc k)) e)
    ]

  pub total-zero : (n : ℕ) (pc : ℕ → Pc) → ((i : ℕ) → w (pc i) ≡ 0) → total n pc ≡ 0
  unfolding total
  total-zero zero pc h = refl
  total-zero (suc n) pc h = omega (arith, total-zero n pc h, h n)

-- 1 for a thread that the lock value counts.
abbrev pub counted : Pc → ℕ
counted (trying oldval incval true) = 1
counted (registered incval) = 1
counted (waiting incval) = 1
counted (reloading incval) = 1
counted _ = 0

pub counted-le : (p : Pc) → counted p ≤ 1
counted-le p = ground arith
