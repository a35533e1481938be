-- ===== src/Process/Search.antt =====
-- src/process-win32.c, the search of an executable. Whether a file can be run is the system's to say.
pub mod Components
pub mod Candidates
use mmlib.Base.{
  ℕ, zero, suc, ◌+◌, Bool, true, false, not, ◌||◌, ◌&&◌, ltb, Option, none, some, List, [], ◌∷◌,
  ◌++◌, ◌==◌, length, take, drop, if◌then◌else◌,
}
use mmlib.Base.CString.{Bytes, codes}
use mmlib.Path.{windows, is_path_separator}

unfoldable pub contains_dirsep : Bytes → Bool
contains_dirsep [] = false
contains_dirsep (c ∷ path) =
    let rest = contains_dirsep path in if is_path_separator windows c then true else rest

-- What mm_check_access returns: 0, EACCES, ENOENT, or -1 for an error.
pub data Access : Type 0 where
  granted denied absent failed : Access

-- The path found, or the error ENOENT or EACCES, or that of realloc.
pub data Found : Type 0 where
  found : Bytes → Found
  not_found : (is_denied : Bool) → Found
  no_memory : Found

-- The length of the first component: strchr, or strlen.
unfoldable pub dir_length : Bytes → ℕ
dir_length [] = 0
dir_length (c ∷ dir) = let rest = dir_length dir in if c == b';' then 0 else suc rest

unfoldable pub skip_semicolon : Bytes → Bytes
skip_semicolon [] = []
skip_semicolon (c ∷ dir) = if c == b';' then dir else c ∷ dir

abbrev pub search_exts : List Bytes
search_exts = codes "" ∷ codes ".exe" ∷ []

-- What one candidate comes to: the error so far is kept, or becomes EACCES.
abbrev pub check_candidate : Access → (file : Bytes) → (is_denied : Bool) → (Bool → Found) → Found
check_candidate granted file is_denied next = found file
check_candidate denied file is_denied next = next true
check_candidate absent file is_denied next = next is_denied
check_candidate failed file is_denied next = next is_denied

-- The loop over the extensions.
unfoldable pub try_exts :
    (access : Bytes → Access) → (path : Bytes) → List Bytes → (is_denied : Bool) → Found
try_exts access path [] is_denied = not_found is_denied
try_exts access path (ext ∷ exts) is_denied =
    check_candidate (access (path ++ ext)) (path ++ ext) is_denied
      (λ error. try_exts access path exts error)

abbrev pub next_component : Found → (Bool → Option Found) → Option Found
next_component (found file) next = some (found file)
next_component (not_found is_denied) next = next is_denied
next_component no_memory next = some no_memory

-- The size of the buffer for the path; `resize` says whether realloc can make one of a size.
abbrev pub path_len : (dirlen : ℕ) → (base : Bytes) → ℕ
path_len dirlen base = dirlen + length base + 6

-- The rounds over the components, with a buffer of `maxlen` bytes; `none` where the fuel runs out.
unfoldable pub search_loop :
    (fuel : ℕ)
    → (resize : ℕ → Bool) → (access : Bytes → Access) → (base dir : Bytes) → (maxlen : ℕ)
    → (is_denied : Bool) → Option Found
search_loop zero resize access base dir maxlen is_denied = none
search_loop (suc fuel) resize access base [] maxlen is_denied = some (not_found is_denied)
search_loop (suc fuel) resize access base (c ∷ dir) maxlen is_denied =
    let dirlen = dir_length (c ∷ dir) in
    let len = path_len dirlen base in
    let path = take dirlen (c ∷ dir) ++ (0x5c ∷ base) in
    let searched = next_component (try_exts access path search_exts is_denied) (λ error.
      search_loop fuel resize access base (skip_semicolon (drop dirlen (c ∷ dir)))
        (if ltb maxlen len then len else maxlen) error) in
    if ltb maxlen len && not (resize len) then some no_memory else searched

-- `path` is the variable PATH, or the default.
unfoldable pub search_bin_in_path :
    (resize : ℕ → Bool) → (access : Bytes → Access) → (path base : Bytes) → Option Found
search_bin_in_path resize access path base =
    search_loop (length path + 1) resize access base path 0 false
