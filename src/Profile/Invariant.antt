-- ===== src/Profile/Invariant.antt =====
-- src/profile.c: every index stays within its array, whatever is called in whatever order.
use mmlib.Base.{
  ℕ, zero, suc, ◌+◌, ◌-◌, ◌≤◌, ◌<◌, ◌≡◌, refl, ◌∙◌, Bool, true, false, Bool-cases, inl, inr, Option,
  none, some, List, [], ◌∷◌, arith, ◌==◌, length, length-set, get_or, set, replicate, All,
  length-take,
}
use mmlib.Base.Int.{ℤ, pos}
use mmlib.Base.CString.{Bytes}
use mmlib.Time.{Timespec}
use mmlib.Profile.{
  Profile, num_ts_max, update_diffs, reset_diffs, local_toc, mm_tic, mm_toc, mm_toc_label,
  start_iteration, with_labels, with_overhead, first_label, overhead_round, overhead_rounds,
  estimate_toc_overhead, mm_profile_reset,
}
use mmlib.Profile.Points.{length-update_points, length-reset_points}
use mmlib.Profile.Lines.{IsLabel, IsLabel-get_or, IsPrintf, table_lines_fit}
use mmlib.Profile.Print.{Printf, table_lines}

-- The state that the functions keep. The labels of the program's start are all NULL.
pub record Bounded (p : Profile) : Type 0 where
  pub next_le : p.next_ts ≤ p.num_ts
  pub num_le : p.num_ts ≤ num_ts_max - 1
  pub times : length p.timestamps ≡ num_ts_max
  pub slots : length p.diffs ≡ num_ts_max
  pub names : length p.labels ≡ num_ts_max
  pub short : All IsLabel p.labels

-- The calls of a program.
pub data Call : Type 0 where
  tic : Timespec → Call
  toc : Timespec → Call
  toc_label : Bytes → Timespec → Call
  print : Call
  reset : (clock : ℕ → Timespec) → (keep_label : Bool) → Call

abbrev pub call : Profile → Call → Profile
call p (tic ts) = mm_tic p ts
call p (toc ts) = mm_toc p ts
call p (toc_label label ts) = mm_toc_label p label ts
call p print = update_diffs p
call p (reset clock keep_label) = mm_profile_reset clock p keep_label

abbrev pub calls : Profile → List Call → Profile
calls p [] = p
calls p (c ∷ rest) = calls (call p c) rest

update_diffs-Bounded : (p : Profile) → Bounded p → Bounded (update_diffs p)
unfolding update_diffs
update_diffs-Bounded p h = record {
  next_le = h.next_le;
  num_le = h.num_le;
  times = h.times;
  slots = length-update_points p (p.next_ts - 1) 0 p.diffs ∙ h.slots;
  names = h.names;
  short = h.short;
}

reset_diffs-Bounded : (p : Profile) → Bounded p → Bounded (reset_diffs p)
unfolding reset_diffs
reset_diffs-Bounded p h = record {
  next_le = omega arith;
  num_le = omega arith;
  times = h.times;
  slots = length-reset_points p.diffs ∙ h.slots;
  names = h.names;
  short = h.short;
}

local_toc-Bounded : (p : Profile) (ts : Timespec) → Bounded p → Bounded (local_toc p ts)
unfolding local_toc
local_toc-Bounded p ts h = elim (Bool-cases (p.next_ts == 15)) [
  | inl full ↦ rw (full, local_toc) h
  | inr room ↦
      rw (room, local_toc)
        (record {
          next_le = ground (arith, h.next_le);
          num_le = ground (arith, h.num_le, h.next_le, room);
          times = length-set p.timestamps p.next_ts ts ∙ h.times;
          slots = h.slots;
          names = h.names;
          short = h.short;
        })
]

start_iteration-Bounded : (p : Profile) → Bounded p → Bounded (start_iteration p)
start_iteration-Bounded p h = record {
  next_le = omega arith;
  num_le = h.num_le;
  times = h.times;
  slots = h.slots;
  names = h.names;
  short = h.short;
}

mm_tic-Bounded : (p : Profile) (ts : Timespec) → Bounded p → Bounded (mm_tic p ts)
unfolding mm_tic
mm_tic-Bounded p ts h =
    local_toc-Bounded (start_iteration (update_diffs p)) ts
      (start_iteration-Bounded (update_diffs p) (update_diffs-Bounded p h))

mm_toc-Bounded : (p : Profile) (ts : Timespec) → Bounded p → Bounded (mm_toc p ts)
unfolding mm_toc
mm_toc-Bounded p ts h = local_toc-Bounded p ts h

first_label-IsLabel :
    (old : Option Bytes) (label : Bytes) → IsLabel old → IsLabel (first_label old label)
first_label-IsLabel none label h = omega (arith, length-take 63 label)
first_label-IsLabel (some kept) label h = h

All-set :
    (labels : List (Option Bytes)) (i : ℕ) (label : Option Bytes)
    → All IsLabel labels
    → IsLabel label
    → All IsLabel (set labels i label)
All-set [] i label h k = tt
All-set (l ∷ labels) zero label (hl, h) k = (k, h)
All-set (l ∷ labels) (suc i) label (hl, h) k = (hl, All-set labels i label h k)

mm_toc_label-Bounded :
    (p : Profile) (label : Bytes) (ts : Timespec) → Bounded p → Bounded (mm_toc_label p label ts)
unfolding mm_toc_label
mm_toc_label-Bounded p label ts h =
    let old = get_or p.labels p.next_ts none in
    let labels = set p.labels p.next_ts (first_label old label) in
    local_toc-Bounded (with_labels p labels) ts (record {
      next_le = h.next_le;
      num_le = h.num_le;
      times = h.times;
      slots = h.slots;
      names = length-set p.labels p.next_ts (first_label old label) ∙ h.names;
      short =
          All-set p.labels p.next_ts (first_label old label) h.short
            (first_label-IsLabel old label (IsLabel-get_or p.labels p.next_ts h.short));
    })

overhead_round-Bounded :
    (clock : ℕ → Timespec) (k : ℕ) (p : Profile) → Bounded p → Bounded (overhead_round clock k p)
overhead_round-Bounded clock k p h = mm_toc_label-Bounded _ [] (clock (k + 5)) (
    mm_toc_label-Bounded _ [] (clock (k + 4)) (
      mm_tic-Bounded _ (clock (k + 3)) (
        mm_toc-Bounded _ (clock (k + 2))
          (mm_toc-Bounded _ (clock (k + 1)) (mm_tic-Bounded p (clock k) h)))))

overhead_rounds-Bounded :
    (clock : ℕ → Timespec) (left k : ℕ) (p : Profile)
    → Bounded p
    → Bounded (overhead_rounds clock left k p)
unfolding overhead_rounds
overhead_rounds-Bounded clock zero k p h = h
overhead_rounds-Bounded clock (suc left) k p h =
    overhead_rounds-Bounded clock left (k + 6) (overhead_round clock k p)
      (overhead_round-Bounded clock k p h)

with_overhead-Bounded :
    (p : Profile) (toc_overhead : ℤ) → Bounded p → Bounded (with_overhead p toc_overhead)
with_overhead-Bounded p toc_overhead h = record {
  next_le = h.next_le;
  num_le = h.num_le;
  times = h.times;
  slots = h.slots;
  names = h.names;
  short = h.short;
}

estimate_toc_overhead-Bounded :
    (clock : ℕ → Timespec) (p : Profile) → Bounded p → Bounded (estimate_toc_overhead clock p)
unfolding estimate_toc_overhead
estimate_toc_overhead-Bounded clock p h = with_overhead-Bounded _ _ (
    overhead_rounds-Bounded clock 999 6 _ (
      reset_diffs-Bounded _ (
        overhead_round-Bounded clock 0 _
          (with_overhead-Bounded _ (pos 0) (reset_diffs-Bounded p h)))))

no_labels : (n : ℕ) → All IsLabel (replicate n none)
no_labels zero = tt
no_labels (suc n) = (tt, no_labels n)

mm_profile_reset-Bounded :
    (clock : ℕ → Timespec) (p : Profile) (keep_label : Bool)
    → Bounded p
    → Bounded (mm_profile_reset clock p keep_label)
unfolding mm_profile_reset
mm_profile_reset-Bounded clock p true h =
    reset_diffs-Bounded _ (estimate_toc_overhead-Bounded clock p h)
mm_profile_reset-Bounded clock p false h =
    let r = reset_diffs-Bounded _ (estimate_toc_overhead-Bounded clock p h) in
    record {
      next_le = r.next_le;
      num_le = r.num_le;
      times = r.times;
      slots = r.slots;
      names = refl;
      short = (omega arith, no_labels 15);
    }

call-Bounded : (p : Profile) (c : Call) → Bounded p → Bounded (call p c)
call-Bounded p (tic ts) h = mm_tic-Bounded p ts h
call-Bounded p (toc ts) h = mm_toc-Bounded p ts h
call-Bounded p (toc_label label ts) h = mm_toc_label-Bounded p label ts h
call-Bounded p print h = update_diffs-Bounded p h
call-Bounded p (reset clock keep_label) h = mm_profile_reset-Bounded clock p keep_label h

-- However mm_tic, mm_toc, mm_toc_label, mm_profile_print and mm_profile_reset are called, the next point is at
-- most the number of points, this is at most 15, the arrays keep their 16 elements, and each label fits its
-- place, so that no index and no label leaves its array; and so every line that mm_profile_print makes then,
-- for any mask, fits its buffer of 512 bytes with its terminator.
pub calls-Bounded :
    (c : Printf) (divide : ℤ → ℕ → ℤ) (p : Profile) (history : List Call) (mask : ℕ)
    → IsPrintf c
    → Bounded p
    → Bounded (calls p history)
      × All (λ line. length line < 512) (table_lines c divide (update_diffs (calls p history)) mask)
calls-Bounded c divide p [] mask laws h =
    let u = update_diffs-Bounded p h in
    (h, table_lines_fit c divide (update_diffs p) mask laws u.short)
calls-Bounded c divide p (k ∷ history) mask laws h =
    calls-Bounded c divide (call p k) history mask laws (call-Bounded p k h)
