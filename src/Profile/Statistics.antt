-- ===== src/Profile/Statistics.antt =====
-- src/profile.c: the statistics are those of all the iterations that are over.
use mmlib.Base.{
  ℕ, zero, suc, ◌+◌, ◌-◌, ◌<◌, ◌≡◌, refl, ap, ◌∙◌, inr, true, false, dec_lt, List, [], ◌∷◌, arith,
  length, get_or, set, length-set, get_or-set_same,
}
use mmlib.Base.Int.{ℤ, ◌+ℤ◌}
use mmlib.Time.{Timespec}
use mmlib.Profile.Points.{
  Filled, toc_all-Filled, update_points-other, update_points-in, length-update_points,
  length-reset_points,
}
use mmlib.Profile.{
  Profile, Diffs, no_time, zero_diffs, timestamp, get_diff_ts, min_ℤ, max_ℤ, add_diff,
  update_points, update_diffs, reset_point, reset_diffs, local_toc, mm_tic, reset_points,
}
use mmlib.Profile.Iterations.{
  Iteration, run, measure, measured, difference, differences, total, least, greatest,
}

-- The statistics of a point after some differences, the last one first.
abbrev summarise : Diffs → List ℤ → Diffs
summarise d [] = d
summarise d (x ∷ xs) = add_diff (summarise d xs) x

-- The state after some iterations: with the last one taken into account, each point has the statistics of its
-- differences.
record Tracks (d : ℕ → Diffs) (overhead : ℤ) (history : List Iteration) (p : Profile) : Type 0 where
  size : length p.timestamps ≡ 16
  slots : length p.diffs ≡ 16
  counted : p.num_iter ≡ length history
  cost : p.toc_overhead ≡ overhead
  stats :
      (i : ℕ)
      → i < 14
      → get_or (update_diffs p).diffs (suc i) zero_diffs
        ≡ summarise (d i) (differences overhead history i)

record Started (p : Profile) (ts : Timespec) (q : Profile) : Type 0 where
  next : q.next_ts ≡ 1
  times : q.timestamps ≡ set p.timestamps 0 ts
  diffs : q.diffs ≡ (update_diffs p).diffs
  iter : q.num_iter ≡ p.num_iter + 1
  overhead : q.toc_overhead ≡ p.toc_overhead

mm_tic-Started : (p : Profile) (ts : Timespec) → Started p ts (mm_tic p ts)
unfolding mm_tic local_toc update_diffs
mm_tic-Started p ts = record {
  next = refl;
  times = refl;
  diffs = refl;
  iter = refl;
  overhead = refl;
}

-- The times of an iteration in the array.
timestamp-run :
    (p q r : Profile) (it : Iteration) (i : ℕ)
    → Started p it.start q
    → Filled q it.points r
    → length p.timestamps ≡ 16
    → i < 15
    → i < suc (length it.points)
    → timestamp r i ≡ measure it i
timestamp-run p q r it zero s f size small within =
    f.before 0 (omega (arith, s.next))
    ∙ ap (λ t. get_or t 0 no_time) s.times
    ∙ get_or-set_same p.timestamps 0 it.start no_time (omega (arith, size))
timestamp-run p q r it (suc i) s f size small within =
    ap (λ n. get_or r.timestamps n no_time) (omega (arith, s.next))
    ∙ f.at i (omega arith) (omega (arith, s.next))

get_diff_ts-difference :
    (q : Profile) (it : Iteration) (i : ℕ) (overhead : ℤ)
    → timestamp q i ≡ measure it i
    → timestamp q (suc i) ≡ measure it (suc i)
    → q.toc_overhead ≡ overhead
    → get_diff_ts q i ≡ difference overhead it i
unfolding get_diff_ts
get_diff_ts-difference q it i overhead e f o = rw (e, f, o, get_diff_ts) refl

stats_step :
    (d : ℕ → Diffs) (overhead : ℤ) (history : List Iteration) (p q r : Profile) (it : Iteration)
    (i : ℕ)
    → Tracks d overhead history p
    → Started p it.start q
    → Filled q it.points r
    → i < 14
    → get_or (update_diffs r).diffs (suc i) zero_diffs
      ≡ summarise (d i) (differences overhead (it ∷ history) i)
unfolding update_diffs
stats_step d overhead history p q r it i h s f small =
    let old : get_or r.diffs (suc i) zero_diffs ≡ summarise (d i) (differences overhead history i) =
      ap (λ t. get_or t (suc i) zero_diffs) (f.diffs ∙ s.diffs) ∙ h.stats i small in
    elim (dec_lt i (length it.points)) [
      | yes lt ↦
          let m : measured it i ≡ true = ground (arith, small, lt) in
          let next = f.next (suc i) (omega arith) (omega (arith, s.next)) in
          let diff =
            get_diff_ts-difference r it i overhead
              (timestamp-run p q r it i s f h.size (omega arith) (omega arith))
              (timestamp-run p q r it (suc i) s f h.size (omega arith) (omega arith))
              (f.overhead ∙ s.overhead ∙ h.cost) in
          let slots : length r.diffs ≡ 16 =
            ap length (f.diffs ∙ s.diffs)
            ∙ length-update_points p (p.next_ts - 1) 0 p.diffs
            ∙ h.slots in
          update_points-in r (r.next_ts - 1) 0 i r.diffs (omega arith) (omega (arith, next))
            (omega (arith, slots))
          ∙ rw (m, old, diff) refl
      | no ge ↦
          let m : measured it i ≡ false = ground (arith, small, ge) in
          update_points-other r (r.next_ts - 1) 0 i r.diffs
            (inr (omega (arith, f.bound.0, s.next, ge)))
          ∙ rw m old
    ]

Tracks-step :
    (d : ℕ → Diffs) (overhead : ℤ) (history : List Iteration) (p q r : Profile) (it : Iteration)
    → Tracks d overhead history p
    → Started p it.start q
    → Filled q it.points r
    → Tracks d overhead (it ∷ history) r
unfolding update_diffs
Tracks-step d overhead history p q r it h s f = record {
  size = f.size ∙ ap length s.times ∙ length-set p.timestamps 0 it.start ∙ h.size;
  slots =
      ap length (f.diffs ∙ s.diffs) ∙ length-update_points p (p.next_ts - 1) 0 p.diffs ∙ h.slots;
  counted = omega (arith, f.iter, s.iter, h.counted);
  cost = f.overhead ∙ s.overhead ∙ h.cost;
  stats = λ i small. stats_step d overhead history p q r it i h s f small;
}

Tracks-run :
    (d : ℕ → Diffs) (overhead : ℤ) (p : Profile) (history : List Iteration)
    → Tracks d overhead [] p
    → Tracks d overhead history (run p history)
Tracks-run d overhead p [] h = h
Tracks-run d overhead p (it ∷ history) h =
    let before = Tracks-run d overhead p history h in
    let s = mm_tic-Started (run p history) it.start in
    let size = ap length s.times ∙ length-set (run p history).timestamps 0 it.start ∙ before.size in
    Tracks-step d overhead history (run p history) (mm_tic (run p history) it.start)
      (run p (it ∷ history)) it before s
      (toc_all-Filled (mm_tic (run p history) it.start) it.points (omega (arith, s.next)) size)

get_or-reset_points :
    (diffs : List Diffs) (i : ℕ)
    → i < length diffs
    → get_or (reset_points diffs) i zero_diffs ≡ reset_point (get_or diffs i zero_diffs)
get_or-reset_points [] i h = absurd (omega arith)
get_or-reset_points (d ∷ diffs) zero h = refl
get_or-reset_points (d ∷ diffs) (suc i) h = get_or-reset_points diffs i (omega arith)

Tracks-reset :
    (p : Profile)
    → length p.timestamps ≡ 16
    → length p.diffs ≡ 16
    → Tracks
        (λ i. reset_point (get_or p.diffs (suc i) zero_diffs))
        p.toc_overhead
        []
        (reset_diffs p)
unfolding reset_diffs update_diffs update_points
Tracks-reset p size slots = record {
  size = size;
  slots = length-reset_points p.diffs ∙ slots;
  counted = refl;
  cost = refl;
  stats = λ i small. get_or-reset_points p.diffs (suc i) (omega (arith, slots));
}

summarise-total : (d : Diffs) (xs : List ℤ) → (summarise (reset_point d) xs).sum_diff_ts ≡ total xs
unfolding add_diff reset_point
summarise-total d [] = refl
summarise-total d (x ∷ xs) = ap (λ s. s +ℤ x) (summarise-total d xs)

summarise-least : (d : Diffs) (xs : List ℤ) → (summarise (reset_point d) xs).min_diff_ts ≡ least xs
unfolding add_diff reset_point
summarise-least d [] = refl
summarise-least d (x ∷ xs) = ap (min_ℤ x) (summarise-least d xs)

summarise-greatest :
    (d : Diffs) (xs : List ℤ) → (summarise (reset_point d) xs).max_diff_ts ≡ greatest xs
unfolding add_diff reset_point
summarise-greatest d [] = refl
summarise-greatest d (x ∷ xs) = ap (max_ℤ x) (summarise-greatest d xs)

-- After a reset and some iterations, and the mm_tic of the next one: of each of the 14 first points of
-- measure, the sum, the least and the greatest value are those of the differences of all the iterations that
-- came to it (with INT64_MAX and 0 where there is none), and the number of iterations is one more than those.
pub mm_tic-statistics :
    (p : Profile) (history : List Iteration) (ts : Timespec) (i : ℕ)
    → length p.timestamps ≡ 16
    → length p.diffs ≡ 16
    → i < 14
    → let q = mm_tic (run (reset_diffs p) history) ts in
      let d = get_or q.diffs (suc i) zero_diffs in
      let xs = differences p.toc_overhead history i in
      (d.sum_diff_ts ≡ total xs)
      × (d.min_diff_ts ≡ least xs)
      × (d.max_diff_ts ≡ greatest xs)
      × (q.num_iter ≡ length history + 1)
mm_tic-statistics p history ts i size slots small =
    let start : ℕ → Diffs = λ k. reset_point (get_or p.diffs (suc k) zero_diffs) in
    let h = Tracks-run start p.toc_overhead (reset_diffs p) history (Tracks-reset p size slots) in
    let s = mm_tic-Started (run (reset_diffs p) history) ts in
    let xs = differences p.toc_overhead history i in
    let d : get_or (mm_tic (run (reset_diffs p) history) ts).diffs (suc i) zero_diffs
        ≡ summarise (start i) xs =
      ap (λ t. get_or t (suc i) zero_diffs) s.diffs ∙ h.stats i small in
    let old = get_or p.diffs (suc i) zero_diffs in
    (
      ap (λ k. k.sum_diff_ts) d ∙ summarise-total old xs,
      ap (λ k. k.min_diff_ts) d ∙ summarise-least old xs,
      ap (λ k. k.max_diff_ts) d ∙ summarise-greatest old xs,
      s.iter ∙ ap (λ n. n + 1) h.counted,
    )
