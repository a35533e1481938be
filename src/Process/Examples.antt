-- ===== src/Process/Examples.antt =====
-- The theorems about processes, at concrete command lines, lists and files.
use mmlib.Base.{
  ℕ, ◌+◌, ◌<◌, ◌≤◌, ◌%◌, ◌≡◌, refl, inr, true, Option, some, List, [], ◌∷◌, ◌++◌, arith,
  if◌then◌else◌, ◌==◌, ltb, Bool, get_or, length,
}
use mmlib.Base.Int.{ℤ, pos, negsuc}
use mmlib.Base.CString.{Bytes, codes, first}
use mmlib.Path.{is_path_separator}
use mmlib.Process.Quote.{
  escape_cmd_str, escape_loop, escape_char, escape_argv, concat_strv, with_separator,
}
use mmlib.Process.Cmdline.{parse_cmdline, parse_loop, parse_char, max_num_args}
use mmlib.Process.Cmdline.RoundTrip.{parse_cmdline-escape_argv}
use mmlib.Process.Cmdline.Bounds.{num_bytes, parse_cmdline_fits}
use mmlib.Process.Children.{ChildrenList, mm_wait_process, ended, no_child}
use mmlib.Process.Startup.{
  RemapFd, CrtFd, Fds, invalid_handle, startup_config_init, startup_config_setup_mappings,
  startup_config_alloc_crt_buffs, startup_config_dup_inherited_hnds, num_fd, num_crt_fd, round_up,
  get_highest_child_fd, highest_loop, convert_fdinfo_to_crtflags,
}
use mmlib.Process.Startup.Duplicates.{empty}
use mmlib.Process.Startup.Mapping.{IsMappable, GetsFd, startup_config_init-maps}
use mmlib.Process.Search.{Access, granted, denied, failed, contains_dirsep, search_bin_in_path}
use mmlib.Process.Search.Components.{components}
use mmlib.Process.Search.Candidates.{
  candidates, readable, answer, first_granted, any_denied, search_bin_in_path-first_granted,
}
use mmlib.Process.Spawn.{Windows, kept, mm_spawn}
use mmlib.Process.Spawn.Wait.{status_of, mm_spawn-mm_wait_process}

abbrev say : List Bytes
say = (b'"' ∷ codes "hi" ++ (b'"' ∷ 0x5c ∷ [])) ∷ [] ∷ []

escape_runs :
    concat_strv (escape_argv (codes "a b" ∷ codes "c" ∷ [])) 0x20
    ≡ b'"' ∷ codes "a b" ++ (b'"' ∷ b' ' ∷ b'"' ∷ codes "c" ++ (b'"' ∷ []))
unfolding concat_strv with_separator escape_cmd_str escape_loop escape_char
escape_runs = refl

-- Backslashes at the end of an argument that is not quoted are lost, or go to the next one.
backslash_runs :
    (parse_cmdline (codes "a" ++ (0x5c ∷ [])) ≡ codes "a" ∷ [])
    × (parse_cmdline (codes "a" ++ (0x5c ∷ codes " b")) ≡ codes "a" ∷ (0x5c ∷ codes "b") ∷ [])
unfolding parse_cmdline parse_loop parse_char
backslash_runs = (refl, refl)

-- Behind a tab there is an argument more than the array has cells for.
tab_run :
    let cmdline = codes "a" ++ (0x09 ∷ codes "b") in
    (length (parse_cmdline cmdline) ≡ 2) × (max_num_args cmdline ≡ 1)
unfolding parse_cmdline parse_loop parse_char max_num_args
tab_run = (refl, refl)

parse_cmdline-escape_argv_example :
    parse_cmdline (concat_strv (escape_argv (codes "say" ∷ say)) 0x20) ≡ codes "say" ∷ say
parse_cmdline-escape_argv_example = parse_cmdline-escape_argv (codes "say") say

-- Between the arguments there is a tab.
abbrev say_tab : Bytes
say_tab = codes "say" ++ 0x09 ∷ codes "it"

parse_cmdline_fits_example :
    (num_bytes (parse_cmdline say_tab) ≤ length say_tab + 1)
    × (length (parse_cmdline (codes "a b")) ≤ max_num_args (codes "a b"))
parse_cmdline_fits_example =
    parse_cmdline_fits say_tab (codes "a b")
      (λ e. ground (arith, e), (λ e. refl, (λ e. ground (arith, e), tt)))

-- Descriptor n has the handle n + 100, and is a plain file.
abbrev plain_handle : ℤ → ℕ
plain_handle (pos n) = n + 100
plain_handle (negsuc n) = invalid_handle

abbrev plain_files : Fds
plain_files = record { osfhandle = plain_handle; fd_info = λ fd. 1 }

abbrev copies : ℕ → Option ℕ
copies hnd = some (hnd + 1000)

abbrev five_from_one : RemapFd
five_from_one = record { child_fd = pos 5; parent_fd = pos 1 }

std : (n : ℕ) → n < 3 → IsMappable plain_files record { child_fd = pos n; parent_fd = pos n }
std n h = record { child = n; child_fd = refl; valid = inr (ground (arith, h)) }

abbrev five_from_one-IsMappable : IsMappable plain_files five_from_one
five_from_one-IsMappable = record { child = 5; child_fd = refl; valid = inr refl }

startup_config_init-maps_example :
    (cells : List CrtFd) × (hnds : List ℕ) × (startup_config_init plain_files copies
        (five_from_one ∷ [])
      ≡ some (cells, hnds))
    × (5 < length cells)
    × ((4 + length cells) % 8 ≡ 0)
    × GetsFd plain_files (λ hnd. hnd + 1000) (pos 1) (get_or cells 5 empty) hnds
startup_config_init-maps_example =
    startup_config_init-maps plain_files copies (λ hnd. hnd + 1000) [] [] five_from_one
      (λ hnd. refl) (std 0 (omega arith), (std 1 (omega arith), (std 2 (omega arith), tt))) tt
      five_from_one-IsMappable tt tt

-- Only one file can be run, and another one is denied.
abbrev some_files : Bytes → Access
some_files path =
    if first path == b'B' then granted else if first path == b'A' then denied else failed

-- There is memory for short paths.
abbrev small : ℕ → Bool
small size = ltb size 10

search_bin_in_path-first_granted_example :
    let (dirs, all) = readable small (codes "x") 0 (components (codes "A;ABCDE;B")) in
    let files = candidates (codes "x") dirs in
    search_bin_in_path small some_files (codes "A;ABCDE;B") (codes "x")
    ≡ some (answer (first_granted some_files files) all (any_denied some_files files))
search_bin_in_path-first_granted_example =
    search_bin_in_path-first_granted small some_files (codes "A;ABCDE;B") (codes "x")

abbrev computer : Windows
computer = record {
  check_access = some_files;
  resize = small;
  path_variable = codes "A;B";
  fds = plain_files;
  duplicate = copies;
  create_process = λ path cmdline cells. some (7, 70);
}

abbrev inherited_fd : ℕ → CrtFd
inherited_fd n = record { flags = 1; hnd = n + 1100; info = 1 }

computer-inherits :
    startup_config_init computer.fds computer.duplicate []
    ≡ some (inherited_fd 0 ∷ inherited_fd 1 ∷ inherited_fd 2 ∷ empty ∷ [], 1100 ∷ 1101 ∷ 1102 ∷ [])
unfolding startup_config_init startup_config_setup_mappings startup_config_alloc_crt_buffs
    startup_config_dup_inherited_hnds num_fd num_crt_fd round_up get_highest_child_fd highest_loop
    convert_fdinfo_to_crtflags
computer-inherits = refl

abbrev no_children : ChildrenList
no_children = record { num_max = 0; entries = [] }

mm_spawn-mm_wait_process_example :
    let (started, result) =
      mm_spawn computer no_children true true (some (0x5c ∷ [])) [] 0 (some (codes "x" ∷ [])) in
    let (left, waited) = mm_wait_process (λ hnd. 3) started 7 in
    (result ≡ kept 7)
    × (waited ≡ ended (status_of 3))
    × (left.entries ≡ [])
    × ((mm_wait_process (λ hnd. 3) left 7).1 ≡ no_child)
unfolding contains_dirsep is_path_separator
mm_spawn-mm_wait_process_example =
    mm_spawn-mm_wait_process computer (λ hnd. 3) no_children (0x5c ∷ []) [] (codes "x" ∷ [])
      (inherited_fd 0 ∷ inherited_fd 1 ∷ inherited_fd 2 ∷ empty ∷ []) (1100 ∷ 1101 ∷ 1102 ∷ []) 7 70
      refl computer-inherits refl (omega arith) tt
