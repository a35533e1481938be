-- ===== src/File/Examples.antt =====
-- The theorems about mm_remove at a directory that holds a file, a directory and another file.
use mmlib.Base.{◌≡◌, ◌&&◌, refl, Bool, true, false, none, some, arith, if◌then◌else◌}
use mmlib.Base.Int.{pos, negsuc}
use mmlib.Base.CString.{codes}
use mmlib.File.Remove.{
  FileNode, Nodes, file, folder, empty, entry, opened, reg, lnk, unknown, RemoveFlags, selected,
  considered, file_type, mm_remove,
}
use mmlib.File.Remove.Survivors.{survivors, no_entry, mm_remove-survivors}
use mmlib.File.Remove.Stops.{append, mm_remove-stops}

-- MM_DT_ANY with MM_RECURSIVE
abbrev all_types : (fail_on_error : Bool) → RemoveFlags
all_types fail_on_error = record { types = 255; recursive = true; fail_on_error = fail_on_error }

abbrev first_file : Nodes
first_file = entry (file (codes "a") reg true) empty

abbrev inner_files : Nodes
inner_files = entry (file (codes "x") lnk true) empty

abbrev last_file : FileNode
last_file = file (codes "z") reg true

abbrev kept_file : Nodes
kept_file = entry (file (codes "k") reg false) first_file

-- MM_DT_REG, MM_DT_DIR and MM_RECURSIVE
abbrev files_and_dirs : RemoveFlags
files_and_dirs = record { types = 48; recursive = true; fail_on_error = false }

-- A link, a file of unknown type, and two directories, of which one holds a link.
abbrev mixed : Nodes
mixed = entry (file (codes "l") lnk true) (
    entry (file (codes "u") unknown true) (
      entry (folder (codes "e") opened true first_file)
        (entry (folder (codes "f") opened true inner_files) kept_file)))

mm_remove-survivors_example :
    mm_remove files_and_dirs false (some (folder (codes "d") opened true mixed)) ≡ (
      let left = survivors files_and_dirs mixed in
      if true && no_entry left
      then (none, pos 0)
      else (some (folder (codes "d") opened true left), negsuc 0))
mm_remove-survivors_example =
    mm_remove-survivors files_and_dirs (codes "d") true mixed refl refl refl (omega arith)

mm_remove-kept :
    survivors files_and_dirs mixed
    ≡ entry (file (codes "l") lnk true) (
        entry
          (folder (codes "f") opened true inner_files)
          (entry (file (codes "k") reg false) empty))
unfolding survivors
mm_remove-kept = refl

mm_remove-stops_example :
    mm_remove (all_types true) false (
      some (
        folder (codes "d") opened true (
          append first_file
            (entry (folder (codes "inner") opened true inner_files) (entry last_file empty)))))
    ≡ (some (folder (codes "d") opened true (entry last_file empty)), negsuc 0)
unfolding selected considered file_type
mm_remove-stops_example =
    mm_remove-stops (all_types true) (codes "d") (codes "inner") first_file inner_files last_file
      empty refl refl refl (refl, refl, tt) (refl, refl, tt)
