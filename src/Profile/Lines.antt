-- ===== src/Profile/Lines.antt =====
-- src/profile.c: every line of the table fits the buffer of mm_profile_print.
use mmlib.Base.{
  ℕ, zero, suc, ◌+◌, ◌-◌, ◌*◌, ◌≤◌, ◌<◌, Bool, true, false, Option, none, some, List, [], ◌∷◌, ◌++◌,
  arith, ltb, if◌then◌else◌, length, length-append, length-replicate, get_or, replicate, All,
  All-append,
}
use mmlib.Base.Int.{ℤ, pos}
use mmlib.Base.CString.{Bytes, codes}
use mmlib.Profile.{Profile, max_label_size}
use mmlib.Profile.Table.{
  TimeUnit, unit_list, num_columns, compute_requested_timings, get_display_unit, prof_curr,
  prof_min, prof_max, prof_mean, prof_median,
}
use mmlib.Profile.Print.{
  Printf, space, pad_left, max_label_len, cell, header_cell, header_titles, format_header_line,
  no_unit, label_cell, value_cells, format_result_line, result_lines, table_lines,
}

-- What the C library documents: a number of 64 bits has at most 20 characters, and with its sign and two
-- decimals at most 23.
pub record IsPrintf (c : Printf) : Type 0 where
  pub fixed_len : (value : ℤ) (scale : ℕ) → length (c.fixed value scale) ≤ 23
  pub decimal_len : (value : ℤ) → length (c.decimal value) ≤ 20

-- No label is longer than its place in label_storage.
abbrev pub IsLabel : Option Bytes → Type 0
IsLabel none = Unit
IsLabel (some label) = length label < max_label_size

length-pad_left :
    (width bound : ℕ) (s : Bytes)
    → width ≤ bound
    → length s ≤ bound
    → length (pad_left width s) ≤ bound
length-pad_left width bound s h k = ground (
  arith,
  length-append (replicate (width - length s) space) s,
  length-replicate {A = ℕ} (width - length s) space,
)

length-cell :
    (value unit : Bytes) → length value ≤ 23 → length unit ≤ 2 → length (cell value unit) ≤ 28
length-cell value unit h k = ground (
  arith,
  length-append (pad_left 8 value) (space ∷ (pad_left 2 unit ++ (space ∷ b'|' ∷ []))),
  length-append (pad_left 2 unit) (space ∷ b'|' ∷ []),
  length-pad_left 8 23 value (omega arith) h,
  length-pad_left 2 2 unit (omega arith) k,
)

length-header_cell :
    (mask flag : ℕ) (name : Bytes) → length name ≤ 8 → length (header_cell mask flag name) ≤ 13
length-header_cell mask flag name h = ground (
  arith,
  length-append (pad_left 8 name) (space ∷ (pad_left 2 [] ++ (space ∷ b'|' ∷ []))),
  length-append (pad_left 2 []) (space ∷ b'|' ∷ []),
  length-pad_left 8 8 name (omega arith) h,
  length-pad_left 2 2 [] (omega arith) (omega arith),
)

length-header_titles : (mask width : ℕ) → width ≤ 63 → length (header_titles mask width) ≤ 130
unfolding header_titles
length-header_titles mask width h =
    let c1 = header_cell mask prof_curr (codes "current") in
    let c2 = header_cell mask prof_mean (codes "mean") in
    let c3 = header_cell mask prof_min (codes "min") in
    let c4 = header_cell mask prof_max (codes "max") in
    let c5 = header_cell mask prof_median (codes "median") in
    omega (
      arith,
      length-append (pad_left width []) (space ∷ b'|' ∷ (c1 ++ (c2 ++ (c3 ++ (c4 ++ c5))))),
      length-pad_left width 63 [] h (omega arith),
      length-append c1 (c2 ++ (c3 ++ (c4 ++ c5))),
      length-append c2 (c3 ++ (c4 ++ c5)),
      length-append c3 (c4 ++ c5),
      length-append c4 c5,
      length-header_cell mask prof_curr (codes "current") (omega arith),
      length-header_cell mask prof_mean (codes "mean") (omega arith),
      length-header_cell mask prof_min (codes "min") (omega arith),
      length-header_cell mask prof_max (codes "max") (omega arith),
      length-header_cell mask prof_median (codes "median") (omega arith),
    )

length-format_header_line :
    (mask width : ℕ) → width ≤ 63 → length (format_header_line mask width) < 512
unfolding format_header_line
length-format_header_line mask width h =
    let titles = header_titles mask width in
    omega (
      arith,
      length-append {A = ℕ} titles (b'\n' ∷ (replicate (length titles) b'-' ++ (b'\n' ∷ []))),
      length-append {A = ℕ} (replicate (length titles) b'-') (b'\n' ∷ []),
      length-replicate {A = ℕ} (length titles) b'-',
      length-header_titles mask width h,
    )

unit_name-short : (i : ℕ) → length (get_or unit_list i no_unit).name ≤ 2
unit_name-short zero = omega arith
unit_name-short (suc zero) = omega arith
unit_name-short (suc (suc zero)) = omega arith
unit_name-short (suc (suc (suc zero))) = omega arith
unit_name-short (suc (suc (suc (suc i)))) = omega arith

module _ (c : Printf) (laws : IsPrintf c) where
  length-value_cells :
      (unit : TimeUnit) (values : List ℤ) (ncol i num_points v : ℕ)
      → length unit.name ≤ 2
      → length (value_cells c unit values ncol i num_points v) ≤ ncol * 28
  unfolding value_cells
  length-value_cells unit values zero i num_points v h = omega arith
  length-value_cells unit values (suc ncol) i num_points v h =
      let value = c.fixed (get_or values (i * num_points + v) (pos 0)) unit.scale in
      omega (
        arith,
        length-append (cell value unit.name) (value_cells c unit values ncol (suc i) num_points v),
        length-cell value unit.name
            (laws.fixed_len (get_or values (i * num_points + v) (pos 0)) unit.scale) h,
        length-value_cells unit values ncol (suc i) num_points v h,
      )

  length-label_cell :
      (label : Option Bytes) (v width : ℕ)
      → IsLabel label
      → width ≤ 63
      → length (label_cell c label v width) ≤ 63
  unfolding label_cell
  length-label_cell none v width h k =
      length-pad_left width 63 (c.decimal (pos (v + 1))) k
        (omega (arith, laws.decimal_len (pos (v + 1))))
  length-label_cell (some label) v width h k = length-pad_left width 63 label k (omega arith)

  length-format_result_line :
      (labels : List (Option Bytes)) (ncol num_points v unit_index width : ℕ) (values : List ℤ)
      → IsLabel (get_or labels (v + 1) none)
      → width ≤ 63
      → ncol ≤ 5
      → length (format_result_line c labels ncol num_points v unit_index width values) < 512
  unfolding format_result_line
  length-format_result_line labels ncol num_points v unit_index width values h k n =
      let label = get_or labels (v + 1) none in
      let cells = value_cells c (get_or unit_list unit_index no_unit) values ncol 0 num_points v in
      omega (
        arith,
        length-append (label_cell c label v width) (space ∷ b'|' ∷ (cells ++ (b'\n' ∷ []))),
        length-append cells (b'\n' ∷ []),
        length-label_cell label v width h k,
        length-value_cells (get_or unit_list unit_index no_unit) values ncol 0 num_points v
            (unit_name-short unit_index),
      )

num_columns_le : (mask : ℕ) → num_columns mask ≤ 5
unfolding num_columns
num_columns_le mask = ground arith

max_label_len_le : (p : Profile) → max_label_len p ≤ 63
unfolding max_label_len
max_label_len_le p = ground arith

All-result_lines :
    (P : Bytes → Type 0) (line : ℕ → Bytes)
    → ((v : ℕ) → P (line v))
    → (left v : ℕ) → All P (result_lines line left v)
All-result_lines P line h zero v = tt
All-result_lines P line h (suc left) v = (h v, All-result_lines P line h left (suc v))

pub IsLabel-get_or :
    (labels : List (Option Bytes)) (i : ℕ) → All IsLabel labels → IsLabel (get_or labels i none)
IsLabel-get_or [] i h = tt
IsLabel-get_or (l ∷ labels) zero (hl, h) = hl
IsLabel-get_or (l ∷ labels) (suc i) (hl, h) = IsLabel-get_or labels i h

abbrev Short : Bytes → Type 0
Short line = length line < 512

All-if : (lines : List Bytes) (b : Bool) → All Short lines → All Short (if b then lines else [])
All-if lines true h = h
All-if lines false h = tt

abbrev overhead_line : Printf → Profile → Bytes
overhead_line c p = codes "toc overhead = " ++ (c.decimal p.toc_overhead ++ codes " ns\n")

length-overhead_line : (c : Printf) (p : Profile) → IsPrintf c → Short (overhead_line c p)
length-overhead_line c p laws = omega (
  arith,
  length-append (codes "toc overhead = ") (c.decimal p.toc_overhead ++ codes " ns\n"),
  length-append (c.decimal p.toc_overhead) (codes " ns\n"),
  laws.decimal_len p.toc_overhead,
)

-- For every mask and unit, each line that mm_profile_print makes fits its buffer of 512 bytes with its
-- terminator, when no label is longer than its place.
pub table_lines_fit :
    (c : Printf) (divide : ℤ → ℕ → ℤ) (p : Profile) (mask : ℕ)
    → IsPrintf c
    → All IsLabel p.labels
    → All (λ line. length line < 512) (table_lines c divide p mask)
unfolding table_lines
table_lines_fit c divide p mask laws h =
    let values = compute_requested_timings divide p mask (p.num_ts - 1) in
    let width = max_label_len p in
    let line : ℕ → Bytes = λ v.
      format_result_line c p.labels (num_columns mask) (p.num_ts - 1) v
        (get_display_unit values mask) width values in
    let rows =
      All-result_lines Short line
        (λ v.
          length-format_result_line c laws p.labels (num_columns mask) (p.num_ts - 1) v
            (get_display_unit values mask) width values (IsLabel-get_or p.labels (v + 1) h)
            (max_label_len_le p) (num_columns_le mask))
        (p.num_ts - 1) 0 in
    All-append Short
      (if ltb 0 p.num_ts
        then format_header_line mask width ∷ result_lines line (p.num_ts - 1) 0
        else [])
      (overhead_line c p ∷ [])
      (All-if (format_header_line mask width ∷ result_lines line (p.num_ts - 1) 0) (ltb 0 p.num_ts)
        (length-format_header_line mask width (max_label_len_le p), rows))
      (length-overhead_line c p laws, tt)
