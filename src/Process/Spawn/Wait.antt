-- ===== src/Process/Spawn/Wait.antt =====
-- A process that is started can be waited for.
use mmlib.Base.{
  ℕ, ◌+◌, ◌%◌, ◌≤◌, ◌≡◌, refl, sym, ◌∙◌, ap, true, some, List, [], ◌∷◌, ◌++◌, append-nil, length,
  ltb, ◌==◌, if◌then◌else◌, arith,
}
use mmlib.Base.CString.{Bytes}
use mmlib.Process.Quote.{escape_argv, concat_strv}
use mmlib.Process.Children.{
  ChildrenList, ended, no_child, mm_wait_process, translate_exitcode_in_status,
  add_to_children_list,
}
use mmlib.Process.Children.Wait.{IsAbsent, mm_wait_process-once}
use mmlib.Process.Startup.{RemapFd, CrtFd, startup_config_init}
use mmlib.Process.Search.{contains_dirsep}
use mmlib.Process.Spawn.{Windows, spawn_process, kept, mm_spawn}

-- The number of the signal for an exit code of the system that stands for an exception: SIGSEGV for a bad access,
-- SIGFPE for arithmetic, SIGILL, SIGINT, and SIGABRT for every other one.
abbrev pub signal_table : List (ℕ × ℕ)
signal_table =
    (0xC0000005, 11)
    ∷ (0xC000008C, 11)
    ∷ (0xC00000FD, 11)
    ∷ (0xC000008D, 8)
    ∷ (0xC000008E, 8)
    ∷ (0xC000008F, 8)
    ∷ (0xC0000090, 8)
    ∷ (0xC0000091, 8)
    ∷ (0xC0000092, 8)
    ∷ (0xC0000093, 8)
    ∷ (0xC0000094, 8)
    ∷ (0xC0000095, 8)
    ∷ (0xC000001D, 4)
    ∷ (0xC000013A, 2)
    ∷ []

abbrev pub look_up : List (ℕ × ℕ) → ℕ → ℕ
look_up [] code = 22
look_up ((key, signal) ∷ table) code =
    let rest = look_up table code in if code == key then signal else rest

-- The bits MM_WSTATUS_EXITED and MM_WSTATUS_SIGNALED above the low byte, which holds the end of the exit code or
-- the signal.
abbrev pub status_of : (exitcode : ℕ) → ℕ
status_of exitcode =
    if ltb exitcode 3221225472 then 256 + exitcode % 256 else 512 + look_up signal_table exitcode

translate_exitcode_in_status-status_of :
    (exitcode : ℕ) → translate_exitcode_in_status exitcode ≡ status_of exitcode
unfolding translate_exitcode_in_status
translate_exitcode_in_status-status_of exitcode = ground arith

mm_spawn-kept :
    (w : Windows) (list : ChildrenList) (path : Bytes) (fd_map : List RemapFd) (argv : List Bytes)
    (cells : List CrtFd) (hnds : List ℕ) (pid hnd : ℕ)
    → contains_dirsep path ≡ true
    → startup_config_init w.fds w.duplicate fd_map ≡ some (cells, hnds)
    → w.create_process path (concat_strv (escape_argv argv) 0x20) cells ≡ some (pid, hnd)
    → mm_spawn w list true true (some path) fd_map 0 (some argv)
      ≡ ((add_to_children_list true list pid hnd).0, kept pid)
unfolding mm_spawn spawn_process
mm_spawn-kept w list path fd_map argv cells hnds pid hnd here inherits creates =
    rw (here, inherits, creates) refl

-- Where a path has a separator, and a process can be started from it with the descriptors mapped and the
-- command line of the arguments given, no child in the list, which is within its memory, has its number,
-- and there is memory for the list to grow, mm_spawn without flags, whose caller asks for the number,
-- registers the process and gives its number; mm_wait_process gives MM_WSTATUS_EXITED with the low byte of
-- an exit code below 0xC0000000, and else MM_WSTATUS_SIGNALED with the signal for the code, and leaves the
-- list as it was before, and then finds no such child.
pub mm_spawn-mm_wait_process :
    (w : Windows) (exitcode : ℕ → ℕ) (list : ChildrenList) (path : Bytes) (fd_map : List RemapFd)
    (argv : List Bytes) (cells : List CrtFd) (hnds : List ℕ) (pid hnd : ℕ)
    → contains_dirsep path ≡ true
    → startup_config_init w.fds w.duplicate fd_map ≡ some (cells, hnds)
    → w.create_process path (concat_strv (escape_argv argv) 0x20) cells ≡ some (pid, hnd)
    → length list.entries ≤ list.num_max
    → IsAbsent pid list.entries
    → let (started, result) = mm_spawn w list true true (some path) fd_map 0 (some argv) in
      let (left, waited) = mm_wait_process exitcode started pid in
      (result ≡ kept pid)
      × (waited ≡ ended (status_of (exitcode hnd)))
      × (left.entries ≡ list.entries)
      × ((mm_wait_process exitcode left pid).1 ≡ no_child)
mm_spawn-mm_wait_process w exitcode list path fd_map argv cells hnds pid hnd here inherits creates
      fits absent =
    let added = (add_to_children_list true list pid hnd).0 in
    let (_, _, status, same, gone) =
      mm_wait_process-once exitcode list pid hnd added.num_max [] fits absent tt in
    let run = mm_spawn-kept w list path fd_map argv cells hnds pid hnd here inherits creates in
    let whole : record { num_max = added.num_max; entries = added.entries ++ [] } ≡ added =
      ap (λ entries. record { num_max = added.num_max; entries = entries })
        (append-nil added.entries) in
    let first = ap (λ r. r.0) run ∙ sym whole in
    (
      ap (λ r. r.1) run,
      ap (λ l. (mm_wait_process exitcode l pid).1) first
          ∙ status
          ∙ ap ended (translate_exitcode_in_status-status_of (exitcode hnd)),
      ap (λ l. (mm_wait_process exitcode l pid).0.entries) first ∙ same ∙ append-nil list.entries,
      ap (λ l. (mm_wait_process exitcode (mm_wait_process exitcode l pid).0 pid).1) first ∙ gone,
    )
