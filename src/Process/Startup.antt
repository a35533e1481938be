-- ===== src/Process/Startup.antt =====
-- src/process-win32.c, the file descriptors that a new process inherits, on 64-bit Windows. The three arrays of
-- the buffer for the C runtime are one list of cells. The handle and the info of a descriptor, and the
-- duplicates of handles, come from the system.
pub mod Bounds
pub mod Duplicates
pub mod Mapping
use mmlib.Base.{
  ℕ, zero, suc, ◌+◌, ◌-◌, ◌*◌, ◌/◌, ◌%◌, ◌<◌, Bool, true, false, not, ◌&&◌, ◌||◌, Option, none,
  some, List, [], ◌∷◌, ◌++◌, ◌==◌, ltb, set, length, replicate, if◌then◌else◌,
}
use mmlib.Base.Int.{ℤ, pos, negsuc, pos_part, ltb_ℤ}

-- `struct mm_remap_fd`
pub record RemapFd : Type 0 where
  pub child_fd : ℤ
  pub parent_fd : ℤ

pub record CrtFd : Type 0 where
  pub flags : ℕ
  pub hnd : ℕ
  pub info : ℕ

abbrev pub fopen : ℕ
fopen = 0x01

-- INVALID_HANDLE_VALUE
abbrev pub invalid_handle : ℕ
invalid_handle = 0xffffffffffffffff

-- The types and flags of a descriptor.
abbrev fd_type_pipe : ℕ
fd_type_pipe = 2

abbrev fd_type_console : ℕ
fd_type_console = 3

-- `fdinfo & FD_FLAG_APPEND` and `fdinfo & FD_FLAG_TEXT`
abbrev has_append : ℕ → Bool
has_append fdinfo = fdinfo / 0x08 % 2 == 1

abbrev has_text : ℕ → Bool
has_text fdinfo = fdinfo / 0x20 % 2 == 1

-- FPIPE is 0x08, FDEV 0x40, FAPPEND 0x20 and FTEXT 0x80: no two have a bit in common, so `|=` adds.
unfoldable pub convert_fdinfo_to_crtflags : ℕ → ℕ
convert_fdinfo_to_crtflags fdinfo =
    let fd_type = fdinfo % 8 in
    fopen
    + (if fd_type == fd_type_pipe then 0x08 else if fd_type == fd_type_console then 0x40 else 0)
    + (if has_append fdinfo then 0x20 else 0)
    + (if has_text fdinfo then 0x80 else 0)

unfoldable pub highest_loop : ℤ → List RemapFd → ℤ
highest_loop fd_max [] = fd_max
highest_loop fd_max (map ∷ fd_map) =
    highest_loop (if ltb_ℤ fd_max map.child_fd then map.child_fd else fd_max) fd_map

unfoldable pub get_highest_child_fd : List RemapFd → ℤ
get_highest_child_fd fd_map = highest_loop (negsuc 0) fd_map

unfoldable pub round_up : (value divider : ℕ) → ℕ
round_up value divider = (value + divider - 1) / divider * divider

-- `num_fd` of startup_config_init.
unfoldable pub num_fd : List RemapFd → ℕ
num_fd fd_map = let n = get_highest_child_fd fd_map in if ltb_ℤ n (pos 2) then 3 else pos_part n + 1

-- `num_crt_fd` of startup_config_alloc_crt_buffs, and its cells, which calloc clears.
unfoldable pub num_crt_fd : (num_fd : ℕ) → ℕ
num_crt_fd num_fd = round_up (4 + num_fd) 8 - 4

unfoldable pub startup_config_alloc_crt_buffs : (num_fd : ℕ) → List CrtFd
startup_config_alloc_crt_buffs num_fd =
    replicate (num_crt_fd num_fd) record { flags = 0; hnd = 0; info = 0 }

abbrev pub info_at : List CrtFd → ℕ → ℕ
info_at [] i = 0
info_at (c ∷ cells) zero = c.info
info_at (c ∷ cells) (suc i) = info_at cells i

-- What the system knows of the descriptors of this process: _get_osfhandle and get_fd_info.
pub record Fds : Type 0 where
  pub osfhandle : ℤ → ℕ
  pub fd_info : ℤ → ℕ

-- One mapping: the cells, or the error EBADF.
abbrev setup_child : Fds → List CrtFd → (child : ℕ) → (parent : ℤ) → Option (List CrtFd)
setup_child fds cells child (negsuc zero) =
    some (set cells child record { flags = 0; hnd = invalid_handle; info = info_at cells child })
setup_child fds cells child parent =
    if fds.osfhandle parent == invalid_handle
    then none
    else some (
        set cells child record {
          flags = convert_fdinfo_to_crtflags (fds.fd_info parent);
          hnd = fds.osfhandle parent;
          info = fds.fd_info parent;
        })

abbrev setup_mapping : Fds → List CrtFd → (child parent : ℤ) → Option (List CrtFd)
setup_mapping fds cells (pos child) parent = setup_child fds cells child parent
setup_mapping fds cells (negsuc n) parent = none

unfoldable pub startup_config_setup_mappings :
    Fds → Option (List CrtFd) → List RemapFd → Option (List CrtFd)
startup_config_setup_mappings fds none fd_map = none
startup_config_setup_mappings fds (some cells) [] = some cells
startup_config_setup_mappings fds (some cells) (map ∷ fd_map) =
    startup_config_setup_mappings fds (setup_mapping fds cells map.child_fd map.parent_fd) fd_map

abbrev pub std_fd_mappings : List RemapFd
std_fd_mappings =
    record { child_fd = pos 0; parent_fd = pos 0 }
    ∷ record { child_fd = pos 1; parent_fd = pos 1 }
    ∷ record { child_fd = pos 2; parent_fd = pos 2 }
    ∷ []

-- startup_config_dup_inherited_hnds: the first `n` cells with the duplicates, and the handles inherited; `none` where the
-- system cannot duplicate a handle.
abbrev is_inherited : CrtFd → Bool
is_inherited c = not (c.hnd == invalid_handle || c.flags % 2 == 0)

abbrev with_cell : CrtFd → Option (List CrtFd × List ℕ) → Option (List CrtFd × List ℕ)
with_cell c none = none
with_cell c (some (cells, hnds)) = some (c ∷ cells, hnds)

abbrev with_dup : CrtFd → Option ℕ → Option (List CrtFd × List ℕ) → Option (List CrtFd × List ℕ)
with_dup c none rest = none
with_dup c (some dup) none = none
with_dup c (some dup) (some (cells, hnds)) =
    some (record { flags = c.flags; hnd = dup; info = c.info } ∷ cells, dup ∷ hnds)

unfoldable pub startup_config_dup_inherited_hnds :
    (dup : ℕ → Option ℕ) → ℕ → List CrtFd → Option (List CrtFd × List ℕ)
startup_config_dup_inherited_hnds dup zero cells = some (cells, [])
startup_config_dup_inherited_hnds dup (suc n) [] = some ([], [])
startup_config_dup_inherited_hnds dup (suc n) (c ∷ cells) =
    let rest = startup_config_dup_inherited_hnds dup n cells in
    if is_inherited c then with_dup c (dup c.hnd) rest else with_cell c rest

abbrev duplicated : (dup : ℕ → Option ℕ) → ℕ → Option (List CrtFd) → Option (List CrtFd × List ℕ)
duplicated dup n none = none
duplicated dup n (some cells) = startup_config_dup_inherited_hnds dup n cells

-- The cells and the handles inherited, where the buffers can be allocated.
unfoldable pub startup_config_init :
    Fds → (dup : ℕ → Option ℕ) → List RemapFd → Option (List CrtFd × List ℕ)
startup_config_init fds dup fd_map =
    let cells = startup_config_alloc_crt_buffs (num_fd fd_map) in
    duplicated dup (num_fd fd_map) (
      startup_config_setup_mappings fds
        (startup_config_setup_mappings fds (some cells) std_fd_mappings) fd_map)
