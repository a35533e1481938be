-- ===== src/Profile/Table.antt =====
-- src/profile.c: the results that are computed, and the table that shows them. The quotient of a sum as a
-- double, the text of a number, and what mm_write returns come from the C library.
use mmlib.Base.{
  ℕ, zero, suc, ◌+◌, ◌-◌, ◌*◌, ◌/◌, ◌%◌, Bool, true, false, ◌&&◌, ◌||◌, Option, none, some, List,
  [], ◌∷◌, ◌++◌, ◌==◌, if◌then◌else◌, get_elem?, get_or,
}
use mmlib.Base.Int.{ℤ, pos, negsuc, ◌-ℤ◌, ltb_ℤ}
use mmlib.Base.CString.{Bytes, codes}
use mmlib.Profile.{Profile, Diffs, zero_diffs, get_diff_ts, min_ℤ, max_ℤ, int64_max}

abbrev pub prof_curr : ℕ
prof_curr = 1

abbrev pub prof_min : ℕ
prof_min = 2

abbrev pub prof_max : ℕ
prof_max = 4

abbrev pub prof_mean : ℕ
prof_mean = 8

abbrev pub prof_median : ℕ
prof_median = 16

-- mask & flag, for one bit
abbrev pub has_flag : (mask flag : ℕ) → Bool
has_flag mask flag = mask / flag % 2 == 1

-- The values of one column, from the point i + 1 on.
abbrev pub column : (value : ℕ → ℤ) → (num_points i : ℕ) → List ℤ
column value zero i = []
column value (suc num_points) i = value i ∷ column value num_points (suc i)

abbrev pub diffs_at : Profile → ℕ → Diffs
diffs_at p i = get_or p.diffs (suc i) zero_diffs

abbrev pub when : Bool → List ℤ → List ℤ
when true values = values
when false values = []

-- The columns one after the other, and their number. `divide` is the quotient of a sum by a number of
-- iterations, in double arithmetic, made an integer again.
unfoldable pub compute_requested_timings :
    (divide : ℤ → ℕ → ℤ) → Profile → (mask num_points : ℕ) → List ℤ
compute_requested_timings divide p mask num_points =
    when (has_flag mask prof_curr) (column (get_diff_ts p) num_points 0)
    ++ (when (has_flag mask prof_mean)
          (column (λ i. divide (diffs_at p i).sum_diff_ts p.num_iter) num_points 0)
        ++ (when (has_flag mask prof_min) (column (λ i. (diffs_at p i).min_diff_ts) num_points 0)
            ++ (when (has_flag mask prof_max)
                  (column (λ i. (diffs_at p i).max_diff_ts) num_points 0)
                ++ when (has_flag mask prof_median)
                    (column (λ i. (diffs_at p i).median_diff_ts.median) num_points 0))))

abbrev pub one_if : Bool → ℕ
one_if true = 1
one_if false = 0

-- The value that compute_requested_timings returns.
unfoldable pub num_columns : (mask : ℕ) → ℕ
num_columns mask =
    one_if (has_flag mask prof_curr)
    + one_if (has_flag mask prof_mean)
    + one_if (has_flag mask prof_min)
    + one_if (has_flag mask prof_max)
    + one_if (has_flag mask prof_median)

-- struct unit
pub record TimeUnit : Type 0 where
  pub scale : ℕ
  pub name : Bytes
  pub forcemask : ℕ

abbrev pub unit_list : List TimeUnit
unit_list =
    record { scale = 1; name = codes "ns"; forcemask = 256 }
    ∷ record { scale = 1000; name = codes "us"; forcemask = 512 }
    ∷ record { scale = 1_000_000; name = codes "ms"; forcemask = 768 }
    ∷ record { scale = 1_000_000_000; name = codes "s"; forcemask = 1024 }
    ∷ []

-- mask & UNIT_MASK
abbrev pub unit_mask : ℕ → ℕ
unit_mask mask = mask / 256 % 8 * 256

unfoldable pub forced_unit : List TimeUnit → (mask i : ℕ) → Option ℕ
forced_unit [] mask i = none
forced_unit (u ∷ units) mask i =
    let rest = forced_unit units mask (i + 1) in
    if u.forcemask == unit_mask mask then some i else rest

abbrev min_of : ℤ → List ℤ → ℤ
min_of minval [] = minval
min_of minval (x ∷ values) = min_of (min_ℤ minval x) values

abbrev max_of : ℤ → List ℤ → ℤ
max_of maxval [] = maxval
max_of maxval (x ∷ values) = max_of (max_ℤ maxval x) values

abbrev is_suitable : (minval maxval : ℤ) → (scale : ℕ) → Bool
is_suitable minval maxval scale =
    ltb_ℤ minval (pos (scale * 100)) && ltb_ℤ maxval (pos (scale * 10000))
    || ltb_ℤ (maxval -ℤ minval) (pos scale)

-- The last unit is taken without a test.
unfoldable pub suitable_unit : List TimeUnit → (minval maxval : ℤ) → (i : ℕ) → ℕ
suitable_unit [] minval maxval i = i
suitable_unit (u ∷ []) minval maxval i = i
suitable_unit (u ∷ v ∷ units) minval maxval i =
    let rest = suitable_unit (v ∷ units) minval maxval (i + 1) in
    if is_suitable minval maxval u.scale then i else rest

abbrev or_suitable : Option ℕ → ℕ → ℕ
or_suitable none i = i
or_suitable (some forced) i = forced

unfoldable pub get_display_unit : List ℤ → (mask : ℕ) → ℕ
get_display_unit values mask =
    or_suitable (forced_unit unit_list mask 0)
      (suitable_unit unit_list (min_of (pos int64_max) values) (max_of (pos 0) values) 0)

-- mm_profile_get_data; `none` is a read outside of the array `data`.
abbrev pub is_type : ℕ → Bool
is_type type =
    type == prof_curr
    || type == prof_min
    || type == prof_mean
    || type == prof_max
    || type == prof_median

abbrev pub read_data : List ℤ → (measure_point : ℤ) → Option ℤ
read_data values (negsuc n) = none
read_data values (pos i) = get_elem? values i

unfoldable pub mm_profile_get_data :
    (divide : ℤ → ℕ → ℤ) → Profile → (measure_point : ℤ) → (type : ℕ) → Option ℤ
mm_profile_get_data divide p measure_point type =
    let value =
      read_data (compute_requested_timings divide p (type + 256) (p.num_ts - 1)) measure_point in
    if ltb_ℤ measure_point (pos p.num_ts -ℤ pos 1)
    then if is_type type then value else some (negsuc 0)
    else some (negsuc 0)
