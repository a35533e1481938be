-- ===== src/File/Remove/Stops.antt =====
-- src/file-posix.c: a recursive mm_remove that is to stop at the first error stops behind the first directory.
use mmlib.Base.{
  ℕ, suc, ◌≡◌, refl, ap, ◌∙◌, Bool, true, false, not, Option, none, some, arith, if◌then◌else◌,
}
use mmlib.Base.Int.{ℤ, negsuc}
use mmlib.File.Remove.Survivors.{both_true}
use mmlib.Base.CString.{Bytes}
use mmlib.File.Remove.{
  FileNode, Nodes, file, folder, empty, entry, opened, RemoveFlags, file_type, dir_type, considered,
  selected, unlink_folder, mm_remove_rec, mm_remove, end_remove, recursion_max, go_on,
}

-- Files whose types are in the flags, and that the system lets go.
abbrev pub OnlyFiles : RemoveFlags → Nodes → Type 0
OnlyFiles flags empty = Unit
OnlyFiles flags (entry (file name type removable) rest) =
    (considered flags (file_type type) ≡ true) × (removable ≡ true) × OnlyFiles flags rest
OnlyFiles flags (entry (folder name opening removable inside) rest) = ⊥

abbrev pub append : Nodes → Nodes → Nodes
append empty rest = rest
append (entry node nodes) rest = entry node (append nodes rest)

-- Files before others are removed.
mm_remove_rec-files :
    (flags : RemoveFlags) (levels : ℕ) (files rest : Nodes)
    → OnlyFiles flags files
    → mm_remove_rec flags (suc levels) opened (append files rest)
      ≡ mm_remove_rec flags (suc levels) opened rest
unfolding mm_remove_rec
mm_remove_rec-files flags levels empty rest h = refl
mm_remove_rec-files flags levels (entry (file name type true) files) rest (c, r, h) =
    rw (c, mm_remove_rec-files flags levels files rest h, mm_remove_rec) refl
mm_remove_rec-files flags levels (entry (file name type false) files) rest (c, r, h) =
    absurd (ground (arith, r))
mm_remove_rec-files flags levels (entry (folder name opening removable inside) files) rest h =
    absurd h

OnlyFiles-removed :
    (flags : RemoveFlags) (levels : ℕ) (files : Nodes)
    → OnlyFiles flags files
    → mm_remove_rec flags (suc levels) opened files ≡ (empty, true)
unfolding mm_remove_rec
OnlyFiles-removed flags levels empty h = refl
OnlyFiles-removed flags levels (entry (file name type true) files) (c, r, h) =
    rw (c, OnlyFiles-removed flags levels files h, mm_remove_rec) refl
OnlyFiles-removed flags levels (entry (file name type false) files) (c, r, h) =
    absurd (ground (arith, r))
OnlyFiles-removed flags levels (entry (folder name opening removable inside) files) h = absurd h

stops :
    (fail_on_error : Bool) (rest : Nodes) (removed_rest : Nodes × Bool)
    → fail_on_error ≡ true
    → go_on true fail_on_error none rest removed_rest ≡ (rest, false)
stops true rest removed_rest h = refl
stops false rest removed_rest h = absurd (ground (arith, h))

first_folder :
    (flags : RemoveFlags) (levels : ℕ) (name : Bytes) (inside rest : Nodes)
    → considered flags dir_type ≡ true
    → OnlyFiles flags inside
    → flags.fail_on_error ≡ true
    → mm_remove_rec flags (suc (suc levels)) opened (entry (folder name opened true inside) rest)
      ≡ (rest, false)
unfolding mm_remove_rec unlink_folder
first_folder flags levels name inside rest c h stop =
    rw (c, OnlyFiles-removed flags levels inside h, mm_remove_rec)
      (stops flags.fail_on_error rest (mm_remove_rec flags (suc (suc levels)) opened rest) stop)

either_way : (b : Bool) (x : Option FileNode × ℤ) → (if b then x else x) ≡ x
either_way true x = refl
either_way false x = refl

-- With MM_FAILONERROR, mm_remove with MM_RECURSIVE of a directory that holds some files, a directory of files
-- only, and then at least one more entry, removes the former ones and returns -1 with the entries behind the
-- directory left, although the types of all these files and of directories are in the flags and the system
-- lets all of them go.
pub mm_remove-stops :
    (flags : RemoveFlags) (name inner : Bytes) (files inside : Nodes) (next : FileNode)
    (rest : Nodes)
    → flags.fail_on_error ≡ true
    → flags.recursive ≡ true
    → selected flags dir_type ≡ true
    → OnlyFiles flags files
    → OnlyFiles flags inside
    → mm_remove flags false (
        some (
          folder name opened true
            (append files (entry (folder inner opened true inside) (entry next rest)))))
      ≡ (some (folder name opened true (entry next rest)), negsuc 0)
unfolding mm_remove considered
mm_remove-stops flags name inner files inside next rest stop rec dir h k =
    let after = entry next rest in
    let dir_seen : considered flags dir_type ≡ true = rw (dir, considered) refl in
    let nodes = append files (entry (folder inner opened true inside) after) in
    let removed : mm_remove_rec flags (suc recursion_max) opened nodes ≡ (after, false) =
      mm_remove_rec-files flags recursion_max files (entry (folder inner opened true inside) after)
        h
      ∙ first_folder flags 99 inner inside after dir_seen k stop in
    both_true _ _ _ (selected flags dir_type) flags.recursive dir rec
    ∙ ap (end_remove flags false name opened true) removed
    ∙ either_way (not flags.fail_on_error) (some (folder name opened true after), negsuc 0)
