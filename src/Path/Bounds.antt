-- ===== src/Path/Bounds.antt =====
-- How much the two functions write.
use Prim.Native.Nat.{max}
use mmlib.Base.{
  ℕ, zero, suc, true, ◌+◌, ◌-◌, ◌≤◌, ◌<◌, ◌≡◌, Option, arith, [], ◌∷◌, length, drop, length-take,
  length-drop,
}
use mmlib.Base.CString.{Bytes, char_at}
use mmlib.Path.{
  Platform, is_path_separator, or_empty, get_last_nonsep_ptr, get_basename_ptr, skip_separators,
  mm_basename, mm_dirname,
}
use mmlib.Path.Scan.{skip_separators-le, basename_loop-le, get_last_nonsep_ptr_bounds}

get_basename_ptr-le :
    (os : Platform) (s : Bytes) → get_basename_ptr os s ≤ get_last_nonsep_ptr os s - 1
unfolding get_basename_ptr
get_basename_ptr-le os s = basename_loop-le os s _ _

-- The buffer for the base name needs the length of the path and a terminator, and two bytes at
-- least; the name is never empty.
mm_basename_bounds :
    (os : Platform) (path : Option Bytes)
    → (0 < length (mm_basename os path))
      × (length (mm_basename os path) ≤ max 1 (length (or_empty path)))
unfolding mm_basename
mm_basename_bounds os path =
    let s = or_empty path in
    let b = get_basename_ptr os s in
    let e = get_last_nonsep_ptr os s in
    ground (
      arith,
      get_basename_ptr-le os s,
      get_last_nonsep_ptr_bounds os s,
      length-take 1 (drop b s),
      length-take (e - b) (drop b s),
      length-drop b s,
    )

lt_of_separator :
    (os : Platform) (s : Bytes) (i : ℕ) → is_path_separator os (char_at s i) ≡ true → i < length s
unfolding is_path_separator
lt_of_separator Platform.posix [] i h = cc
lt_of_separator Platform.windows [] i h = cc
lt_of_separator os (c ∷ s) zero h = omega arith
lt_of_separator os (c ∷ s) (suc i) h = omega (arith, lt_of_separator os s i h)

-- The buffer for the directory needs no more, and the directory is never empty.
mm_dirname_bounds :
    (os : Platform) (path : Option Bytes)
    → (0 < length (mm_dirname os path))
      × (length (mm_dirname os path) ≤ max 1 (length (or_empty path)))
unfolding mm_dirname
mm_dirname_bounds os path =
    let s = or_empty path in
    let b = get_basename_ptr os s in
    let k = skip_separators os s (b - 1) in
    ground (
      arith,
      get_basename_ptr-le os s,
      get_last_nonsep_ptr_bounds os s,
      skip_separators-le os s (b - 1),
      lt_of_separator os s b,
      length-take 1 s,
      length-take (k + 1) s,
    )

-- The base name and the directory are never empty, and they are no longer than the path or one byte.
path_parts_bounds :
    (os : Platform) (path : Option Bytes)
    → let limit = max 1 (length (or_empty path)) in
      (0 < length (mm_basename os path))
      × (length (mm_basename os path) ≤ limit)
      × (0 < length (mm_dirname os path))
      × (length (mm_dirname os path) ≤ limit)
path_parts_bounds os path =
    let (base, base_fits) = mm_basename_bounds os path in
    let (dir, dir_fits) = mm_dirname_bounds os path in (base, base_fits, dir, dir_fits)
