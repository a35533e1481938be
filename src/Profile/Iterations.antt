-- ===== src/Profile/Iterations.antt =====
-- src/profile.c: iterations of measures, and the differences that are expected of them.
use mmlib.Base.{ℕ, suc, Bool, false, List, [], ◌∷◌, ltb, if◌then◌else◌, length, get_or}
use mmlib.Base.Int.{ℤ, pos, ◌+ℤ◌, ◌-ℤ◌, scale}
use mmlib.Time.{Timespec}
use mmlib.Profile.Points.{toc_all}
use mmlib.Profile.{Profile, int64_max, sec_in_nsec, no_time, min_ℤ, max_ℤ, mm_tic}

-- An iteration: the time of its mm_tic, and of each mm_toc.
pub record Iteration : Type 0 where
  pub start : Timespec
  pub points : List Timespec

-- The iterations of a history, the last one first.
abbrev pub run : Profile → List Iteration → Profile
run p [] = p
run p (it ∷ earlier) = toc_all (mm_tic (run p earlier) it.start) it.points

abbrev pub measure : Iteration → ℕ → Timespec
measure it i = get_or (it.start ∷ it.points) i no_time

-- The differences of the point i + 1, in the iterations that have come to it; no more than 15 times are
-- kept of an iteration.
abbrev pub measured : Iteration → ℕ → Bool
measured it i = if ltb i 14 then ltb i (length it.points) else false

abbrev pub difference : (overhead : ℤ) → Iteration → ℕ → ℤ
difference overhead it i =
    scale ((measure it (suc i)).tv_sec -ℤ (measure it i).tv_sec) sec_in_nsec
    +ℤ ((measure it (suc i)).tv_nsec -ℤ (measure it i).tv_nsec)
    -ℤ overhead

abbrev pub differences : (overhead : ℤ) → List Iteration → ℕ → List ℤ
differences overhead [] i = []
differences overhead (it ∷ earlier) i =
    let rest = differences overhead earlier i in
    if measured it i then difference overhead it i ∷ rest else rest

abbrev pub total : List ℤ → ℤ
total [] = pos 0
total (x ∷ xs) = total xs +ℤ x

abbrev pub least : List ℤ → ℤ
least [] = pos int64_max
least (x ∷ xs) = min_ℤ x (least xs)

abbrev pub greatest : List ℤ → ℤ
greatest [] = pos 0
greatest (x ∷ xs) = max_ℤ x (greatest xs)
