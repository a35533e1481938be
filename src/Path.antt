-- ===== src/Path.antt =====
-- src/utils.c, mm_basename and mm_dirname, and the tests of src/file-internal.h. A pointer
-- into the path is its offset.
pub mod Scan
pub mod Split
pub mod Bounds
mod Examples
use mmlib.Base.{
  ℕ, zero, suc, ◌+◌, ◌-◌, Bool, true, false, ◌||◌, ◌&&◌, Option, none, some, [], ◌∷◌, ◌==◌, leb,
  if◌then◌else◌, length, take, drop,
}
use mmlib.Base.CString.{Bytes, codes, first, char_at}

-- `_WIN32` is defined or not.
pub data Platform : Type 0 where
  posix windows : Platform

unfoldable pub is_wildcard_directory : Bytes → Bool
is_wildcard_directory (c ∷ []) = c == b'.'
is_wildcard_directory (c ∷ d ∷ []) = c == b'.' && d == b'.'
is_wildcard_directory _ = false

unfoldable pub is_path_separator : Platform → ℕ → Bool
is_path_separator posix c = c == b'/'
is_path_separator windows c = c == 0x5c || c == b'/'

-- `while (c > path && is_path_separator(*c)) c--`
pub skip_separators : Platform → Bytes → ℕ → ℕ
skip_separators os s zero = zero
skip_separators os s (suc c) =
    let rest = skip_separators os s c in
    if is_path_separator os (char_at s (suc c)) then rest else suc c

-- The pointer behind the one that `get_last_nonsep_ptr` returns: for "" that is `path - 1`.
pub get_last_nonsep_ptr : Platform → Bytes → ℕ
get_last_nonsep_ptr os [] = 0
get_last_nonsep_ptr os (c ∷ s) = skip_separators os (c ∷ s) (length s) + 1

-- `for (c = lastptr-1; c >= path; c--)`; the last argument counts the offsets left, and `end` is
-- `lastptr + 1`.
pub basename_loop : Platform → Bytes → (end : ℕ) → ℕ → ℕ
basename_loop os s end zero = 0
basename_loop os s end (suc c) =
    let rest = basename_loop os s end c in
    if is_path_separator os (char_at s c) then (if c + 1 == end then c else c + 1) else rest

pub get_basename_ptr : Platform → Bytes → ℕ
get_basename_ptr os s = let end = get_last_nonsep_ptr os s in basename_loop os s end (end - 1)

abbrev pub or_empty : Option Bytes → Bytes
or_empty none = []
or_empty (some s) = s

-- What is written to `base`; the returned length is the length of it.
pub mm_basename : Platform → Option Bytes → Bytes
mm_basename os path =
    let s = or_empty path in
    let baseptr = get_basename_ptr os s in
    let len = get_last_nonsep_ptr os s - baseptr in
    if leb len 0
    then (if first s == 0 then codes "." else take 1 (drop baseptr s))
    else take len (drop baseptr s)

-- What is written to `dir`; the returned length is the length of it.
pub mm_dirname : Platform → Option Bytes → Bytes
mm_dirname os path =
    let s = or_empty path in
    let baseptr = get_basename_ptr os s in
    if baseptr == 0
    then (if is_path_separator os (char_at s baseptr) then take 1 s else codes ".")
    else take (skip_separators os s (baseptr - 1) + 1) s
