-- ===== src/Profile/Points.antt =====
-- src/profile.c: what update_diffs does to each point of measure, and mm_toc to each time stamp.
use mmlib.Base.{
  ℕ, zero, suc, ◌+◌, ◌≤◌, ◌<◌, ◌≡◌, refl, sym, ap, ◌∙◌, subst, ◌⊎◌, inl, true, false, List, [], ◌∷◌,
  arith, ◌==◌, length, get_or, set, length-set, get_or-set_same, get_or-set_other, dec_le, dec_lt,
}
use mmlib.Time.{Timespec}
use mmlib.Profile.{
  Profile, Diffs, no_time, zero_diffs, get_diff_ts, add_diff, update_points, local_toc, mm_toc,
  reset_points,
}

-- The points before the index, and behind the last one, are left as they are; the others get their
-- difference.
pub update_points-other :
    (p : Profile) (left i j : ℕ) (diffs : List Diffs)
    → (j < i) ⊎ (i + left ≤ j)
    → get_or (update_points p left i diffs) (suc j) zero_diffs ≡ get_or diffs (suc j) zero_diffs
unfolding update_points
update_points-other p zero i j diffs h = refl
update_points-other p (suc left) i j diffs h =
    let d = add_diff (get_or diffs (suc i) zero_diffs) (get_diff_ts p i) in
    update_points-other p left (suc i) j (set diffs (suc i) d) (ground (arith, h))
    ∙ get_or-set_other diffs (suc i) (suc j) d zero_diffs (ground (arith, h))

pub update_points-in :
    (p : Profile) (left i j : ℕ) (diffs : List Diffs)
    → i ≤ j
    → j < i + left
    → suc j < length diffs
    → get_or (update_points p left i diffs) (suc j) zero_diffs
      ≡ add_diff (get_or diffs (suc j) zero_diffs) (get_diff_ts p j)
unfolding update_points
update_points-in p zero i j diffs ge lt within = absurd (omega arith)
update_points-in p (suc left) i j diffs ge lt within =
    let d = add_diff (get_or diffs (suc i) zero_diffs) (get_diff_ts p i) in
    elim (dec_le (suc i) j) [
      | yes after ↦
          update_points-in p left (suc i) j (set diffs (suc i) d) after (omega arith)
            (omega (arith, length-set diffs (suc i) d))
          ∙ ap (λ k. add_diff k (get_diff_ts p j))
              (get_or-set_other diffs (suc i) (suc j) d zero_diffs (omega arith))
      | no before ↦
          let same : i ≡ j = omega (arith, before) in
          update_points-other p left (suc i) j (set diffs (suc i) d) (inl (omega arith))
          ∙ subst
              (λ k.
                get_or (set diffs (suc i) d) (suc k) zero_diffs
                ≡ add_diff (get_or diffs (suc k) zero_diffs) (get_diff_ts p k))
              same (get_or-set_same diffs (suc i) d zero_diffs (omega arith))
    ]

pub length-update_points :
    (p : Profile) (left i : ℕ) (diffs : List Diffs)
    → length (update_points p left i diffs) ≡ length diffs
unfolding update_points
length-update_points p zero i diffs = refl
length-update_points p (suc left) i diffs =
    let d = add_diff (get_or diffs (suc i) zero_diffs) (get_diff_ts p i) in
    length-update_points p left (suc i) (set diffs (suc i) d) ∙ length-set diffs (suc i) d

pub length-reset_points : (diffs : List Diffs) → length (reset_points diffs) ≡ length diffs
length-reset_points [] = refl
length-reset_points (d ∷ diffs) = ap suc (length-reset_points diffs)

abbrev pub toc_all : Profile → List Timespec → Profile
toc_all p [] = p
toc_all p (ts ∷ points) = toc_all (mm_toc p ts) points

-- A time that is kept.
record Kept (p : Profile) (ts : Timespec) (q : Profile) : Type 0 where
  next : q.next_ts ≡ suc p.next_ts
  times : q.timestamps ≡ set p.timestamps p.next_ts ts
  diffs : q.diffs ≡ p.diffs
  iter : q.num_iter ≡ p.num_iter
  overhead : q.toc_overhead ≡ p.toc_overhead

mm_toc-Kept : (p : Profile) (ts : Timespec) → p.next_ts < 15 → Kept p ts (mm_toc p ts)
unfolding mm_toc local_toc
mm_toc-Kept p ts lt =
    let room : (p.next_ts == 15) ≡ false = ground (arith, lt) in
    record {
      next = rw (room, mm_toc, local_toc) (omega arith);
      times = rw (room, mm_toc, local_toc) refl;
      diffs = rw (room, mm_toc, local_toc) refl;
      iter = rw (room, mm_toc, local_toc) refl;
      overhead = rw (room, mm_toc, local_toc) refl;
    }

mm_toc-full : (p : Profile) (ts : Timespec) → p.next_ts ≡ 15 → mm_toc p ts ≡ p
unfolding mm_toc local_toc
mm_toc-full p ts e =
    let full : (p.next_ts == 15) ≡ true = ground (arith, e) in rw (full, mm_toc, local_toc) refl

toc_all-full : (p : Profile) (points : List Timespec) → p.next_ts ≡ 15 → toc_all p points ≡ p
toc_all-full p [] e = refl
toc_all-full p (ts ∷ points) e =
    ap (λ q. toc_all q points) (mm_toc-full p ts e) ∙ toc_all-full p points e

-- The times of an iteration, of which 15 are kept.
pub record Filled (p : Profile) (points : List Timespec) (q : Profile) : Type 0 where
  pub next : (i : ℕ) → i < 15 → i < p.next_ts + length points → i < q.next_ts
  pub bound : (q.next_ts ≤ p.next_ts + length points) × (q.next_ts ≤ 15)
  pub before :
      (i : ℕ) → i < p.next_ts → get_or q.timestamps i no_time ≡ get_or p.timestamps i no_time
  pub at :
      (i : ℕ)
      → i < length points
      → p.next_ts + i < 15
      → get_or q.timestamps (p.next_ts + i) no_time ≡ get_or points i no_time
  pub diffs : q.diffs ≡ p.diffs
  pub iter : q.num_iter ≡ p.num_iter
  pub overhead : q.toc_overhead ≡ p.toc_overhead
  pub size : length q.timestamps ≡ length p.timestamps

full-Filled : (p : Profile) (points : List Timespec) → p.next_ts ≡ 15 → Filled p points p
full-Filled p points e = record {
  next = λ i lt within. omega (arith, e, lt);
  bound = (omega (arith, e), omega (arith, e));
  before = λ i lt. refl;
  at = λ i lt within. absurd (omega (arith, e, within));
  diffs = refl;
  iter = refl;
  overhead = refl;
  size = refl;
}

Kept-at :
    (p : Profile) (ts : Timespec) (points : List Timespec) (q r : Profile)
    → Kept p ts q
    → Filled q points r
    → length p.timestamps ≡ 16
    → p.next_ts < 15
    → (i : ℕ) → i < suc (length points)
    → p.next_ts + i < 15
    → get_or r.timestamps (p.next_ts + i) no_time ≡ get_or (ts ∷ points) i no_time
Kept-at p ts points q r k f size lt zero within small =
    ap (λ n. get_or r.timestamps n no_time) (omega arith)
    ∙ f.before p.next_ts (omega (arith, k.next))
    ∙ ap (λ t. get_or t p.next_ts no_time) k.times
    ∙ get_or-set_same p.timestamps p.next_ts ts no_time (omega (arith, size, lt))
Kept-at p ts points q r k f size lt (suc i) within small =
    ap (λ n. get_or r.timestamps n no_time) (omega (arith, k.next))
    ∙ f.at i (omega arith) (omega (arith, k.next, small))

pub toc_all-Filled :
    (p : Profile) (points : List Timespec)
    → p.next_ts ≤ 15
    → length p.timestamps ≡ 16
    → Filled p points (toc_all p points)
toc_all-Filled p [] le size = record {
  next = λ i lt within. omega (arith, within);
  bound = (omega arith, le);
  before = λ i lt. refl;
  at = λ i lt within. absurd (omega (arith, lt));
  diffs = refl;
  iter = refl;
  overhead = refl;
  size = refl;
}
toc_all-Filled p (ts ∷ points) le size = elim (dec_lt p.next_ts 15) [
  | no full ↦
      let e : p.next_ts ≡ 15 = omega (arith, full) in
      subst (λ q. Filled p (ts ∷ points) q) (sym (toc_all-full p (ts ∷ points) e))
        (full-Filled p (ts ∷ points) e)
  | yes lt ↦
      let k = mm_toc-Kept p ts lt in
      let len = ap length k.times ∙ length-set p.timestamps p.next_ts ts in
      let f =
        toc_all-Filled (mm_toc p ts) points (omega (arith, k.next)) (omega (arith, len, size)) in
      record {
        next = λ i small within. f.next i small (omega (arith, k.next, within));
        bound = (omega (arith, f.bound, k.next), f.bound.1);
        before = λ i lt.
            f.before i (omega (arith, k.next))
            ∙ ap (λ t. get_or t i no_time) k.times
            ∙ get_or-set_other p.timestamps p.next_ts i ts no_time (omega (arith, lt));
        at = Kept-at p ts points (mm_toc p ts) (toc_all (mm_toc p ts) points) k f size lt;
        diffs = f.diffs ∙ k.diffs;
        iter = f.iter ∙ k.iter;
        overhead = f.overhead ∙ k.overhead;
        size = f.size ∙ len;
      }
]
