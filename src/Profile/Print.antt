-- ===== src/Profile/Print.antt =====
-- src/profile.c: the lines of the table, and the loop that writes them. A string that sprintf makes is a
-- list of bytes; the texts of numbers come from the C library.
use mmlib.Base.{
  ℕ, zero, suc, ◌+◌, ◌-◌, ◌*◌, Bool, true, false, Option, none, some, List, [], ◌∷◌, ◌++◌, ltb,
  if◌then◌else◌, length, get_or, take, drop, replicate,
}
use mmlib.Base.Int.{ℤ, pos, negsuc}
use mmlib.Base.CString.{Bytes, codes}
use mmlib.Profile.{Profile, max_label_size, max_ℕ, update_diffs}
use mmlib.Profile.Table.{
  has_flag, prof_curr, prof_min, prof_max, prof_mean, prof_median, TimeUnit, unit_list, num_columns,
  compute_requested_timings, get_display_unit,
}

-- What "%.2f" makes of a value divided by a scale, and "%i" and "%li" of a number.
pub record Printf : Type 0 where
  pub fixed : ℤ → (scale : ℕ) → Bytes
  pub decimal : ℤ → Bytes

abbrev pub space : ℕ
space = b' '

-- "%*s"
abbrev pub pad_left : (width : ℕ) → Bytes → Bytes
pad_left width s = replicate (width - length s) space ++ s

abbrev label_len : Option Bytes → ℕ
label_len none = 2
label_len (some label) = length label

-- The loop of max_label_len, from the label i on.
unfoldable pub longest_label : List (Option Bytes) → (left i : ℕ) → (max : ℕ) → ℕ
longest_label labels zero i max = max
longest_label labels (suc left) i max =
    longest_label labels left (suc i) (max_ℕ max (label_len (get_or labels i none)))

unfoldable pub max_label_len : Profile → ℕ
max_label_len p =
    let max = longest_label p.labels (p.num_ts - 1) 1 0 in
    if ltb (max_label_size - 1) max then max_label_size - 1 else max

-- " |", behind a value and its unit
abbrev pub cell : (value unit : Bytes) → Bytes
cell value unit = pad_left 8 value ++ (space ∷ (pad_left 2 unit ++ (space ∷ b'|' ∷ [])))

abbrev pub header_cell : (mask flag : ℕ) → (name : Bytes) → Bytes
header_cell mask flag name = if has_flag mask flag then cell name [] else []

unfoldable pub header_titles : (mask label_width : ℕ) → Bytes
header_titles mask label_width =
    pad_left label_width []
    ++ (space
        ∷ b'|'
        ∷ (header_cell mask prof_curr (codes "current")
            ++ (header_cell mask prof_mean (codes "mean")
                ++ (header_cell mask prof_min (codes "min")
                    ++ (header_cell mask prof_max (codes "max")
                        ++ header_cell mask prof_median (codes "median"))))))

unfoldable pub format_header_line : (mask label_width : ℕ) → Bytes
format_header_line mask label_width =
    let titles = header_titles mask label_width in
    titles ++ (b'\n' ∷ (replicate (length titles) b'-' ++ (b'\n' ∷ [])))

abbrev pub no_unit : TimeUnit
no_unit = record { scale = 1; name = []; forcemask = 0 }

unfoldable pub label_cell : Printf → (label : Option Bytes) → (v label_width : ℕ) → Bytes
label_cell c none v label_width = pad_left label_width (c.decimal (pos (v + 1)))
label_cell c (some label) v label_width = pad_left label_width label

-- The values of the line v, in `ncol` columns from number i on.
unfoldable pub value_cells :
    Printf → TimeUnit → (values : List ℤ) → (ncol i num_points v : ℕ) → Bytes
value_cells c unit values zero i num_points v = []
value_cells c unit values (suc ncol) i num_points v =
    cell (c.fixed (get_or values (i * num_points + v) (pos 0)) unit.scale) unit.name
    ++ value_cells c unit values ncol (suc i) num_points v

unfoldable pub format_result_line :
    Printf
    → (labels : List (Option Bytes)) → (ncol num_points v unit_index label_width : ℕ)
    → (values : List ℤ) → Bytes
format_result_line c labels ncol num_points v unit_index label_width values =
    label_cell c (get_or labels (v + 1) none) v label_width
    ++ (space
        ∷ b'|'
        ∷ (value_cells c (get_or unit_list unit_index no_unit) values ncol 0 num_points v
            ++ (b'\n' ∷ [])))

abbrev pub result_lines : (line : ℕ → Bytes) → (left v : ℕ) → List Bytes
result_lines line zero v = []
result_lines line (suc left) v = line v ∷ result_lines line left (suc v)

-- The strings that mm_profile_print writes, in turn.
unfoldable pub table_lines : Printf → (divide : ℤ → ℕ → ℤ) → Profile → (mask : ℕ) → List Bytes
table_lines c divide p mask =
    let values = compute_requested_timings divide p mask (p.num_ts - 1) in
    let width = max_label_len p in
    let rows =
      result_lines
        (λ v.
          format_result_line c p.labels (num_columns mask) (p.num_ts - 1) v
            (get_display_unit values mask) width values)
        (p.num_ts - 1) 0 in
    (if ltb 0 p.num_ts then format_header_line mask width ∷ rows else [])
    ++ ((codes "toc overhead = " ++ (c.decimal p.toc_overhead ++ codes " ns\n")) ∷ [])

-- What is written of a buffer, the results of mm_write that are left, and whether all of it was written;
-- `none` where the results have come to an end.
abbrev also_written : Bytes → Option (Bytes × List ℤ × Bool) → Option (Bytes × List ℤ × Bool)
also_written buf none = none
also_written buf (some (written, results, done)) = some (buf ++ written, results, done)

unfoldable pub full_mm_write : (results : List ℤ) → (buf : Bytes) → Option (Bytes × List ℤ × Bool)
full_mm_write results [] = some ([], results, true)
full_mm_write [] (c ∷ buf) = none
full_mm_write (negsuc n ∷ results) (c ∷ buf) = some ([], results, false)
full_mm_write (pos rsz ∷ results) (c ∷ buf) =
    also_written (take rsz (c ∷ buf)) (full_mm_write results (drop rsz (c ∷ buf)))

abbrev write_rest :
    Option (Bytes × List ℤ × Bool)
    → (List ℤ → Option (Bytes × List ℤ × Bool))
    → Option (Bytes × List ℤ × Bool)
write_rest none rest = none
write_rest (some (written, results, false)) rest = some (written, results, false)
write_rest (some (written, results, true)) rest = also_written written (rest results)

unfoldable pub write_lines :
    (lines : List Bytes) → (results : List ℤ) → Option (Bytes × List ℤ × Bool)
write_lines [] results = some ([], results, true)
write_lines (line ∷ lines) results =
    write_rest (full_mm_write results line) (λ left. write_lines lines left)

unfoldable pub mm_profile_print :
    Printf
    → (divide : ℤ → ℕ → ℤ) → Profile
    → (mask : ℕ) → (results : List ℤ) → Profile × Option (Bytes × List ℤ × Bool)
mm_profile_print c divide p mask results =
    let updated = update_diffs p in
    (updated, write_lines (table_lines c divide updated mask) results)
