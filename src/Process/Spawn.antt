-- ===== src/Process/Spawn.antt =====
-- src/process-win32.c, mm_spawn, over the parts of this folder. What CreateProcessW makes of a path, a command
-- line and a buffer of descriptors is the system's; the environment is passed on as it is, and left out.
pub mod Wait
use mmlib.Base.{
  ℕ, suc, ◌+◌, ◌/◌, ◌%◌, Bool, true, false, not, ◌&&◌, ◌||◌, Option, none, some, List, [], ◌∷◌,
  ◌==◌, ◌!=◌, if◌then◌else◌,
}
use mmlib.Base.CString.{Bytes}
use mmlib.Process.Quote.{escape_argv, concat_strv}
use mmlib.Process.Children.{ChildrenList, add_to_children_list}
use mmlib.Process.Startup.{Fds, RemapFd, CrtFd, startup_config_init}
use mmlib.Process.Search.{Access, Found, found, not_found, contains_dirsep, search_bin_in_path}

pub record Windows : Type 0 where
  pub check_access : Bytes → Access
  pub resize : ℕ → Bool
  pub path_variable : Bytes
  pub fds : Fds
  pub duplicate : ℕ → Option ℕ
  pub create_process : (path cmdline : Bytes) → List CrtFd → Option (ℕ × ℕ)

-- CreateProcessW, behind startup_config_init.
abbrev create_with :
    Windows → (path cmdline : Bytes) → Option (List CrtFd × List ℕ) → Option (ℕ × ℕ)
create_with w path cmdline none = none
create_with w path cmdline (some (cells, hnds)) = w.create_process path cmdline cells

-- The number and the handle of the new process.
unfoldable pub spawn_process :
    Windows → (path : Bytes) → List RemapFd → (argv : List Bytes) → Option (ℕ × ℕ)
spawn_process w path fd_map argv =
    create_with w path (concat_strv argv 0x20) (startup_config_init w.fds w.duplicate fd_map)

-- An error, a process whose handle is kept, or one whose handle is closed.
pub data Spawned : Type 0 where
  failed : Spawned
  kept : (pid : ℕ) → Spawned
  closed : Spawned

abbrev register :
    ChildrenList → (is_kept allocated : Bool) → Option (ℕ × ℕ) → ChildrenList × Spawned
register list is_kept allocated none = (list, failed)
register list true allocated (some (pid, hnd)) =
    ((add_to_children_list allocated list pid hnd).0, kept pid)
register list false allocated (some (pid, hnd)) = (list, closed)

abbrev spawn_found :
    Windows
    → ChildrenList
    → (is_kept allocated : Bool) → List RemapFd
    → List Bytes
    → Option Found
    → ChildrenList × Spawned
spawn_found w list is_kept allocated fd_map argv (some (found path)) =
    register list is_kept allocated (spawn_process w path fd_map argv)
spawn_found w list is_kept allocated fd_map argv _ = (list, failed)

abbrev or_path : Bytes → Option (List Bytes) → List Bytes
or_path path none = path ∷ []
or_path path (some argv) = argv

abbrev daemonize : ℕ → Bool
daemonize flags = flags % 2 == 1

abbrev keep_fds : ℕ → Bool
keep_fds flags = flags / 2 % 2 == 1

-- `child_pid` says whether the pointer is there, and `allocated` whether the list of children can grow.
unfoldable pub mm_spawn :
    Windows
    → ChildrenList
    → (child_pid allocated : Bool) → Option Bytes
    → List RemapFd
    → (flags : ℕ) → Option (List Bytes)
    → ChildrenList × Spawned
mm_spawn w list child_pid allocated none fd_map flags argv = (list, failed)
mm_spawn w list child_pid allocated (some path) fd_map flags argv =
    if flags / 4 != 0 || keep_fds flags
    then (list, failed)
    else spawn_found w list (child_pid && not (daemonize flags)) allocated fd_map
        (escape_argv (or_path path argv))
        (if contains_dirsep path
          then some (found path)
          else search_bin_in_path w.resize w.check_access w.path_variable path)
