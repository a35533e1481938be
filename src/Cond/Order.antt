-- ===== src/Cond/Order.antt =====
-- Which threads a signal and a broadcast wake.
use mmlib.Base.{
  ℕ, ◌+◌, ◌-◌, ◌≤◌, ◌<◌, ◌≡◌, refl, sym, ◌∙◌, ap, subst, true, false, List, [], ◌∷◌, ◌++◌,
  append-nil, arith, length, length-append, All, take, drop, ltb,
}
use mmlib.Base.Int.{ℤ, pos, pos_part, neg_part, ◌≤ℤ◌, int_parts, eq_of_parts}
use mmlib.Referee.Types.{Waiter, lock_init}
use mmlib.Referee.Waiters.Prefix.{lock_wake_waiters-prefix, lock_add_waiter-waits}
use mmlib.Cond.{
  Cond, wake, pshared_cond_wait, pshared_cond_signal, pshared_cond_broadcast, pshared_cond_init,
}

pub ltb-true : (a b : ℕ) → a < b → ltb a b ≡ true
ltb-true a b h = ground arith

ltb-false : (a b : ℕ) → b ≤ a → ltb a b ≡ false
ltb-false a b h = ground arith

-- The conditions that come from waits, signals and broadcasts, where the two sequences were equal at the
-- initialisation, as in zeroed memory.
pub data Reach (key : ℤ) : Cond → Type 0 where
  start : (c : Cond) → c.waiter_seq ≡ c.wakeup_seq → Reach key (pshared_cond_init c key)
  waits : (c : Cond) (client : ℕ) → Reach key c → Reach key (pshared_cond_wait c client)
  signals : (c : Cond) → Reach key c → Reach key (pshared_cond_signal c).0
  broadcasts : (c : Cond) → Reach key c → Reach key (pshared_cond_broadcast c).0

-- The wakeup values of a queue count up from `seq`.
abbrev pub Consecutive : (seq : ℕ) → List Waiter → Type 0
Consecutive seq [] = Unit
Consecutive seq (tc ∷ queue) = (tc.wakeup_val ≡ pos seq) × Consecutive (seq + 1) queue

pub record IsOrdered (c : Cond) : Type 0 where
  pub values : Consecutive c.wakeup_seq c.lock.waiters_queue
  pub size : length c.lock.waiters_queue + c.wakeup_seq ≡ c.waiter_seq
  pub counter : c.lock.nwaiter ≡ pos (length c.lock.waiters_queue)

Consecutive-append :
    (seq : ℕ) (queue : List Waiter) (tc : Waiter)
    → Consecutive seq queue
    → tc.wakeup_val ≡ pos (length queue + seq)
    → Consecutive seq (queue ++ (tc ∷ []))
Consecutive-append seq [] tc _ e = (e ∙ ap pos (omega arith), tt)
Consecutive-append seq (w ∷ queue) tc (h, hs) e =
    (h, Consecutive-append (seq + 1) queue tc hs (e ∙ ap pos (omega arith)))

-- The last value bounds all.
All-Consecutive :
    (seq val : ℕ) (queue : List Waiter)
    → Consecutive seq queue
    → length queue + seq ≤ val + 1
    → All (λ tc. tc.wakeup_val ≤ℤ pos val) queue
All-Consecutive seq val [] _ h = tt
All-Consecutive seq val (w ∷ queue) (e, es) h =
    (ground (arith, e), All-Consecutive (seq + 1) val queue es (omega arith))

IsOrdered-wait : (c : Cond) (client : ℕ) → IsOrdered c → IsOrdered (pshared_cond_wait c client)
unfolding pshared_cond_wait
IsOrdered-wait c client o =
    let q = c.lock.waiters_queue in
    let tc : Waiter = record { client = client; wakeup_val = pos c.waiter_seq } in
    let longer = length-append q (tc ∷ []) in
    rw (lock_add_waiter-waits c.lock tc (length q) o.counter) record {
      values = Consecutive-append c.wakeup_seq q tc o.values (ap pos (sym o.size));
      size = omega (arith, longer, o.size);
      counter = ap pos (omega (arith, longer));
    }

Consecutive-suffix :
    (seq t : ℕ) (ws queue : List Waiter)
    → t ≡ seq + length ws
    → Consecutive seq (ws ++ queue)
    → Consecutive t queue
Consecutive-suffix seq t [] queue e h =
    let same : seq ≡ t = omega arith in subst (λ k. Consecutive k queue) same h
Consecutive-suffix seq t (w ∷ ws) queue e (_, h) =
    Consecutive-suffix (seq + 1) t ws queue (omega arith) h

Consecutive-prefix :
    (seq : ℕ) (ws queue : List Waiter) → Consecutive seq (ws ++ queue) → Consecutive seq ws
Consecutive-prefix seq [] queue h = tt
Consecutive-prefix seq (w ∷ ws) queue (e, h) = (e, Consecutive-prefix (seq + 1) ws queue h)

-- The threads `ws` at the head of the queue are woken, and `queue` is left.
abbrev Wakes : Cond × List Waiter → (ws queue : List Waiter) → Type 0
Wakes (after, woken) ws queue = (woken ≡ ws) × (after.lock.waiters_queue ≡ queue) × IsOrdered after

wake-Wakes :
    (c : Cond) (ws queue : List Waiter) (val : ℕ)
    → IsOrdered c
    → c.lock.waiters_queue ≡ ws ++ queue
    → length ws + c.wakeup_seq ≤ val + 1
    → Wakes (wake c (length ws) val) ws queue
wake-Wakes c ws queue val o e h =
    let split : Consecutive c.wakeup_seq (ws ++ queue) = rw (← e) o.values in
    let sizes = (ap length e ∙ length-append ws queue) in
    rw
      (lock_wake_waiters-prefix c.lock ws queue (pos val) e
        (All-Consecutive c.wakeup_seq val ws (Consecutive-prefix c.wakeup_seq ws queue split) h))
      (
        refl,
        refl,
        record {
          values = Consecutive-suffix c.wakeup_seq _ ws queue refl split;
          size = omega (arith, sizes, o.size);
          counter =
              eq_of_parts _ _
                (omega (int_parts, sizes, ap pos_part o.counter, ap neg_part o.counter));
        },
      )

IsOrdered-queue :
    (c : Cond) (queue : List Waiter)
    → c.lock.waiters_queue ≡ queue
    → IsOrdered c
    → length queue + c.wakeup_seq ≡ c.waiter_seq
IsOrdered-queue c queue e o = omega (arith, ap length e, o.size)

signal-Wakes :
    (c : Cond) (queue : List Waiter)
    → c.lock.waiters_queue ≡ queue
    → IsOrdered c
    → Wakes (pshared_cond_signal c) (take 1 queue) (drop 1 queue)
unfolding pshared_cond_signal
signal-Wakes c [] e o =
    rw (ltb-false c.wakeup_seq c.waiter_seq (omega (arith, IsOrdered-queue c [] e o))) (refl, e, o)
signal-Wakes c (tc ∷ queue) e o =
    rw (ltb-true c.wakeup_seq c.waiter_seq (omega (arith, IsOrdered-queue c (tc ∷ queue) e o)))
      (wake-Wakes c (tc ∷ []) queue c.wakeup_seq o e (omega arith))

broadcast-Wakes :
    (c : Cond) (queue : List Waiter)
    → c.lock.waiters_queue ≡ queue
    → IsOrdered c
    → Wakes (pshared_cond_broadcast c) queue []
unfolding pshared_cond_broadcast
broadcast-Wakes c [] e o =
    rw (ltb-false c.wakeup_seq c.waiter_seq (omega (arith, IsOrdered-queue c [] e o))) (refl, e, o)
broadcast-Wakes c (tc ∷ queue) e o =
    let size = IsOrdered-queue c (tc ∷ queue) e o in
    let num : c.waiter_seq - c.wakeup_seq ≡ length (tc ∷ queue) = omega (arith, size) in
    rw (ltb-true c.wakeup_seq c.waiter_seq (omega (arith, size)), num)
      (wake-Wakes c (tc ∷ queue) [] (c.wakeup_seq + length (tc ∷ queue) - 1) o
        (e ∙ sym (append-nil (tc ∷ queue))) (omega arith))

pub Reach-IsOrdered : {key : ℤ} {c : Cond} → Reach key c → IsOrdered c
unfolding pshared_cond_init lock_init
Reach-IsOrdered (start c e) = record { values = tt; size = omega (arith, e); counter = refl }
Reach-IsOrdered (waits c client r) = IsOrdered-wait c client (Reach-IsOrdered r)
Reach-IsOrdered (signals c r) = (signal-Wakes c c.lock.waiters_queue refl (Reach-IsOrdered r)).2
Reach-IsOrdered (broadcasts c r) =
    (broadcast-Wakes c c.lock.waiters_queue refl (Reach-IsOrdered r)).2

-- After any waits, signals and broadcasts on a condition whose sequences began equal, with no timeout, a signal wakes the thread that has waited
-- longest, if one waits, and no other, and a broadcast wakes all that wait, in their order; the others go
-- on waiting.
pub pshared_cond-wakes :
    (key : ℤ) (c : Cond)
    → Reach key c
    → ((pshared_cond_signal c).1 ≡ take 1 c.lock.waiters_queue)
      × ((pshared_cond_signal c).0.lock.waiters_queue ≡ drop 1 c.lock.waiters_queue)
      × ((pshared_cond_broadcast c).1 ≡ c.lock.waiters_queue)
      × ((pshared_cond_broadcast c).0.lock.waiters_queue ≡ [])
pshared_cond-wakes key c r =
    let o = Reach-IsOrdered r in
    let (signalled, left, _) = signal-Wakes c c.lock.waiters_queue refl o in
    let (all, nothing, _) = broadcast-Wakes c c.lock.waiters_queue refl o in
    (signalled, left, all, nothing)
