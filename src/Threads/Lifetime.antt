-- ===== src/Threads/Lifetime.antt =====
-- The data of a thread is freed once, by the thread or by its owner, whoever comes last.
use mmlib.Base.{
  ℕ, ◌+◌, ◌≡◌, ◌≢◌, refl, sym, subst, ◌⊎◌, inr, Bool, true, false, arith, if◌then◌else◌,
}
use mmlib.Threads.{
  is_stopped, is_detached, Owner, holds, detaching, waits, returned, detached, refused, joined,
  Worker, runs, exiting, ended, Thread, mm_thr_create, thread_proc_wrapper,
  thread_local_data_on_exit, mm_thr_detach, detach_end, mm_thr_join, join_end, Step, finishes,
  exits, detaches, detach_ends, joins, join_ends, Reach, start, later,
}

-- The state and the count of frees, by where the owner and the thread are.
abbrev Counts : (state frees : ℕ) → Owner → Worker → Type 0
Counts state frees holds runs = (state ≡ 0) × (frees ≡ 0)
Counts state frees holds (exiting q) = (state ≡ 1) × (q ≡ 0) × (frees ≡ 0)
Counts state frees holds ended = (state ≡ 1) × (frees ≡ 0)
Counts state frees (detaching p) runs = (state ≡ 2) × (p ≡ 0) × (frees ≡ 0)
Counts state frees (detaching p) (exiting q) =
    (((p ≡ 0) × (q ≡ 2)) ⊎ ((p ≡ 1) × (q ≡ 0))) × (frees ≡ 0)
Counts state frees (detaching p) ended = ((p ≡ 0) × (frees ≡ 1)) ⊎ ((p ≡ 1) × (frees ≡ 0))
Counts state frees waits runs = (state ≡ 0) × (frees ≡ 0)
Counts state frees waits (exiting q) = (state ≡ 1) × (q ≡ 0) × (frees ≡ 0)
Counts state frees waits ended = (state ≡ 1) × (frees ≡ 0)
Counts state frees (returned refused) w = ⊥
Counts state frees (returned o) runs = (state ≡ 2) × (frees ≡ 0)
Counts state frees (returned o) (exiting q) = ((q ≡ 2) × (frees ≡ 0)) ⊎ ((q ≡ 0) × (frees ≡ 1))
Counts state frees (returned o) ended = frees ≡ 1

-- The value that a join gives, and that is stored when the thread leaves its routine.
abbrev Stores : (result retval : ℕ) → Worker → Type 0
Stores result retval runs = Unit
Stores result retval w = retval ≡ result

abbrev Gives : (result : ℕ) → Owner → Type 0
Gives result (returned (joined v)) = v ≡ result
Gives result o = Unit

record Inv (result : ℕ) (t : Thread) : Type 0 where
  counts : Counts t.state t.frees t.owner t.worker
  stores : Stores result t.retval t.worker
  gives : Gives result t.owner

finish-Counts :
    (state frees : ℕ) (o : Owner)
    → Counts state frees o runs
    → Counts (state + 1) frees o (exiting state)
finish-Counts state frees holds c = ground (arith, c)
finish-Counts state frees (detaching p) c = ground (arith, c)
finish-Counts state frees waits c = ground (arith, c)
finish-Counts state frees (returned refused) c = c
finish-Counts state frees (returned detached) c = ground (arith, c)
finish-Counts state frees (returned (joined v)) c = ground (arith, c)

exit-Counts :
    (state frees q : ℕ) (o : Owner)
    → Counts state frees o (exiting q)
    → Counts state (if is_detached q then frees + 1 else frees) o ended
exit-Counts state frees q holds c = ground (arith, c)
exit-Counts state frees q (detaching p) c = ground (arith, c)
exit-Counts state frees q waits c = ground (arith, c)
exit-Counts state frees q (returned refused) c = c
exit-Counts state frees q (returned detached) c = ground (arith, c)
exit-Counts state frees q (returned (joined v)) c = ground (arith, c)

detach-Counts :
    (state frees : ℕ) (w : Worker)
    → Counts state frees holds w
    → Counts (state + 2) frees (detaching state) w
detach-Counts state frees runs c = ground (arith, c)
detach-Counts state frees (exiting q) c = (inr (c.0, c.1), c.2)
detach-Counts state frees ended c = inr (c.0, c.1)

detach_end-Counts :
    (state frees p : ℕ) (w : Worker)
    → Counts state frees (detaching p) w
    → (is_detached p ≡ false)
      × Counts state (if is_stopped p then frees + 1 else frees) (returned detached) w
detach_end-Counts state frees p runs c = ground (arith, c)
detach_end-Counts state frees p (exiting q) c = ground (arith, c)
detach_end-Counts state frees p ended c = ground (arith, c)

join-Counts :
    (state frees : ℕ) (w : Worker)
    → Counts state frees holds w
    → (is_detached state ≡ false) × Counts state frees waits w
join-Counts state frees runs c = ground (arith, c)
join-Counts state frees (exiting q) c = (ground (arith, c), c)
join-Counts state frees ended c = ground (arith, c)

module _ (result : ℕ) where
  Inv-start : Inv result mm_thr_create
  Inv-start = record { counts = (refl, refl); stores = tt; gives = tt }

  Inv-detach_end :
      (t : Thread) (p : ℕ) → t.owner ≡ detaching p → Inv result t → Inv result (detach_end t p)
  unfolding detach_end
  Inv-detach_end t p e i =
      let (first, counts) =
        detach_end-Counts t.state t.frees p t.worker
          (subst (λ o. Counts t.state t.frees o t.worker) e i.counts) in
      rw first record { counts = counts; stores = i.stores; gives = tt }

  Inv-join : (t : Thread) → t.owner ≡ holds → Inv result t → Inv result (mm_thr_join t)
  unfolding mm_thr_join
  Inv-join t e i =
      let (first, counts) =
        join-Counts t.state t.frees t.worker
          (subst (λ o. Counts t.state t.frees o t.worker) e i.counts) in
      rw first record { counts = counts; stores = i.stores; gives = tt }

  Inv-Step : (t u : Thread) → Step result t u → Inv result t → Inv result u
  unfolding thread_proc_wrapper thread_local_data_on_exit mm_thr_detach join_end
  Inv-Step t _ (finishes _ e) i = record {
    counts =
        finish-Counts t.state t.frees t.owner (subst (Counts t.state t.frees t.owner) e i.counts);
    stores = refl;
    gives = i.gives;
  }
  Inv-Step t _ (exits _ q e) i = record {
    counts =
        exit-Counts t.state t.frees q t.owner (subst (Counts t.state t.frees t.owner) e i.counts);
    stores = subst (Stores result t.retval) e i.stores;
    gives = i.gives;
  }
  Inv-Step t _ (detaches _ e) i = record {
    counts =
        detach-Counts t.state t.frees t.worker
          (subst (λ o. Counts t.state t.frees o t.worker) e i.counts);
    stores = i.stores;
    gives = tt;
  }
  Inv-Step t _ (detach_ends _ p e) i = Inv-detach_end t p e i
  Inv-Step t _ (joins _ e) i = Inv-join t e i
  Inv-Step t _ (join_ends _ e f) i =
      let counts : Counts t.state t.frees waits ended =
        subst (λ o. Counts t.state t.frees o ended) e
          (subst (Counts t.state t.frees t.owner) f i.counts) in
      let stored : Stores result t.retval ended = subst (Stores result t.retval) f i.stores in
      record {
        counts =
            subst (Counts t.state (t.frees + 1) (returned (joined t.retval))) (sym f)
              (ground (arith, counts));
        stores = i.stores;
        gives = stored;
      }

  Reach-Inv : (t : Thread) → Reach result t → Inv result t
  Reach-Inv _ start = Inv-start
  Reach-Inv u (later {t = t} r s) = Inv-Step t u s (Reach-Inv t r)

-- Whether the owner, or the thread, may still use the data.
abbrev pub uses_data : Owner → Bool
uses_data (returned o) = false
uses_data (detaching p) = is_stopped p
uses_data o = true

abbrev pub runs_on : Worker → Bool
runs_on runs = true
runs_on (exiting q) = is_detached q
runs_on ended = false

frees-by :
    (state frees : ℕ) (o : Owner) (w : Worker)
    → Counts state frees o w
    → frees ≡ (if uses_data o then 0 else if runs_on w then 0 else 1)
frees-by state frees holds runs c = ground (arith, c)
frees-by state frees holds (exiting q) c = ground (arith, c)
frees-by state frees holds ended c = ground (arith, c)
frees-by state frees (detaching p) runs c = ground (arith, c)
frees-by state frees (detaching p) (exiting q) c = ground (arith, c)
frees-by state frees (detaching p) ended c = ground (arith, c)
frees-by state frees waits runs c = ground (arith, c)
frees-by state frees waits (exiting q) c = ground (arith, c)
frees-by state frees waits ended c = ground (arith, c)
frees-by state frees (returned refused) w c = absurd c
frees-by state frees (returned detached) runs c = ground (arith, c)
frees-by state frees (returned detached) (exiting q) c = ground (arith, c)
frees-by state frees (returned detached) ended c = ground (arith, c)
frees-by state frees (returned (joined v)) runs c = ground (arith, c)
frees-by state frees (returned (joined v)) (exiting q) c = ground (arith, c)
frees-by state frees (returned (joined v)) ended c = ground (arith, c)

never_refused :
    (state frees : ℕ) (o : Owner) (w : Worker) → Counts state frees o w → o ≢ returned refused
never_refused state frees o w c e = subst (λ o. Counts state frees o w) e c

-- However the end of a thread and the one call of its owner, a join or a detach, are ordered, the data of
-- the thread is freed once as soon as neither uses it any more, and not before; the call is not refused;
-- and a join gives the value of the routine.
pub thread-freed_once :
    (result : ℕ) (t : Thread)
    → Reach result t
    → (t.frees ≡ (if uses_data t.owner then 0 else if runs_on t.worker then 0 else 1))
      × (t.owner ≢ returned refused)
      × ((v : ℕ) → t.owner ≡ returned (joined v) → v ≡ result)
thread-freed_once result t r =
    let i = Reach-Inv result t r in
    (
      frees-by t.state t.frees t.owner t.worker i.counts,
      never_refused t.state t.frees t.owner t.worker i.counts,
      (λ v e. subst (Gives result) e i.gives),
    )
