-- ===== src/File/Remove/Survivors.antt =====
-- src/file-posix.c: what a recursive mm_remove leaves when it goes on behind errors.
use Prim.Native.Nat.{max}
use mmlib.Base.{
  ℕ, zero, suc, ◌/◌, ◌%◌, ◌==◌, ◌≤◌, ◌≡◌, refl, ap, ◌∙◌, inl, inr, Bool, true, false, ◌&&◌,
  Bool-cases, Option, none, some, arith, if◌then◌else◌,
}
use mmlib.Base.Int.{ℤ, pos, negsuc}
use mmlib.Base.CString.{Bytes}
use mmlib.File.Remove.{
  FileNode, FileType, fifo, chr, blk, reg, lnk, sock, unknown, Nodes, file, folder, empty, entry,
  Opening, not_opened, not_read, opened, RemoveFlags, file_type, dir_type, considered, selected,
  is_empty, keep, unlink_folder, mm_remove_rec, mm_remove, end_remove, recursion_max, remove_one,
}

-- Whether a bit of the flags is set.
abbrev pub has_bit : RemoveFlags → (bit : ℕ) → Bool
has_bit flags bit = flags.types / bit % 2 == 1

-- The bits MM_DT_* of the types; a file of unknown type may always go.
abbrev pub may_go : RemoveFlags → FileType → Bool
may_go flags fifo = has_bit flags 2
may_go flags chr = has_bit flags 4
may_go flags blk = has_bit flags 8
may_go flags reg = has_bit flags 32
may_go flags lnk = has_bit flags 64
may_go flags sock = has_bit flags 128
may_go flags unknown = true

abbrev pub no_entry : Nodes → Bool
no_entry empty = true
no_entry (entry node nodes) = false

-- The entries that stay where directories may go: files of other types, those that the system keeps, and the
-- directories that were not opened or in which something stays. A directory that cannot be read keeps its entries.
unfoldable pub survivors : RemoveFlags → Nodes → Nodes
survivors flags empty = empty
survivors flags (entry (file name type removable) rest) =
    let left = survivors flags rest in
    if may_go flags type && removable then left else entry (file name type removable) left
survivors flags (entry (folder name not_opened removable inside) rest) =
    entry (folder name not_opened removable inside) (survivors flags rest)
survivors flags (entry (folder name not_read removable inside) rest) =
    let left = survivors flags rest in
    if removable && no_entry inside
    then left
    else entry (folder name not_read removable inside) left
survivors flags (entry (folder name opened removable inside) rest) =
    let left = survivors flags rest in
    let left_inside = survivors flags inside in
    if removable && no_entry left_inside
    then left
    else entry (folder name opened removable left_inside) left

considered-may_go :
    (flags : RemoveFlags) (type : FileType) → considered flags (file_type type) ≡ may_go flags type
unfolding considered selected file_type
considered-may_go flags fifo = refl
considered-may_go flags chr = refl
considered-may_go flags blk = refl
considered-may_go flags reg = refl
considered-may_go flags lnk = refl
considered-may_go flags sock = refl
considered-may_go flags unknown = refl

considered-dir : (flags : RemoveFlags) → considered flags dir_type ≡ has_bit flags 16
unfolding considered selected
considered-dir flags = refl

keep-unlink_folder :
    (name : Bytes) (opening : Opening) (removable : Bool) (inside left : Nodes)
    → keep (unlink_folder name opening removable inside) left ≡ (
        if removable && no_entry inside
        then left
        else entry (folder name opening removable inside) left)
unfolding unlink_folder
keep-unlink_folder name opening false inside left = refl
keep-unlink_folder name opening true empty left = refl
keep-unlink_folder name opening true (entry node nodes) left = refl

-- How deep directories stand in directories.
abbrev pub depth : Nodes → ℕ
depth empty = 0
depth (entry (file name type removable) rest) = depth rest
depth (entry (folder name opening removable inside) rest) = max (suc (depth inside)) (depth rest)

depth_rest :
    (name : Bytes) (opening : Opening) (removable : Bool) (inside rest : Nodes)
    → depth rest ≤ depth (entry (folder name opening removable inside) rest)
depth_rest name opening removable inside rest = omega arith

depth_inside :
    (name : Bytes) (opening : Opening) (removable : Bool) (inside rest : Nodes)
    → suc (depth inside) ≤ depth (entry (folder name opening removable inside) rest)
depth_inside name opening removable inside rest = omega arith

module _ (flags : RemoveFlags) (go : flags.fail_on_error ≡ false)
    (dirs : has_bit flags 16 ≡ true) where
  dir_seen : considered flags dir_type ≡ true
  dir_seen = considered-dir flags ∙ dirs

  mm_remove_rec-survivors :
      (levels : ℕ) (nodes : Nodes)
      → depth nodes ≤ levels
      → mm_remove_rec flags (suc levels) opened nodes ≡ (survivors flags nodes, true)
  unfolding mm_remove_rec survivors
  mm_remove_rec-survivors levels empty h = refl
  mm_remove_rec-survivors levels (entry (file name type true) rest) h =
      let later = mm_remove_rec-survivors levels rest h in
      let same = considered-may_go flags type in
      elim (Bool-cases (may_go flags type)) [
        | inl c ↦ rw (same, c, later, mm_remove_rec, survivors) refl
        | inr c ↦ rw (same, c, later, mm_remove_rec, survivors) refl
      ]
  mm_remove_rec-survivors levels (entry (file name type false) rest) h =
      let later = mm_remove_rec-survivors levels rest h in
      let same = considered-may_go flags type in
      elim (Bool-cases (may_go flags type)) [
        | inl c ↦ rw (same, c, go, later, mm_remove_rec, survivors) refl
        | inr c ↦ rw (same, c, later, mm_remove_rec, survivors) refl
      ]
  mm_remove_rec-survivors levels (entry (folder name not_opened removable inside) rest) h =
      let later =
        mm_remove_rec-survivors levels rest
          (omega (arith, h, depth_rest name not_opened removable inside rest)) in
      rw (dir_seen, go, later, mm_remove_rec, survivors) refl
  mm_remove_rec-survivors zero (entry (folder name not_read removable inside) rest) h =
      absurd (omega (arith, h, depth_inside name not_read removable inside rest))
  mm_remove_rec-survivors (suc levels) (entry (folder name not_read removable inside) rest) h =
      let later =
        mm_remove_rec-survivors (suc levels) rest
          (omega (arith, h, depth_rest name not_read removable inside rest)) in
      rw (dir_seen, go, later, mm_remove_rec, survivors)
        (ap (λ nodes. (nodes, true))
          (keep-unlink_folder name not_read removable inside (survivors flags rest)))
  mm_remove_rec-survivors zero (entry (folder name opened removable inside) rest) h =
      absurd (omega (arith, h, depth_inside name opened removable inside rest))
  mm_remove_rec-survivors (suc levels) (entry (folder name opened removable inside) rest) h =
      let later =
        mm_remove_rec-survivors (suc levels) rest
          (omega (arith, h, depth_rest name opened removable inside rest)) in
      let within =
        mm_remove_rec-survivors levels inside
          (omega (arith, h, depth_inside name opened removable inside rest)) in
      rw (dir_seen, go, later, within, mm_remove_rec, survivors)
        (ap (λ nodes. (nodes, true))
          (keep-unlink_folder name opened removable (survivors flags inside)
            (survivors flags rest)))

pub both_true :
    (x y z : Option FileNode × ℤ) (a b : Bool)
    → a ≡ true
    → b ≡ true
    → (if a then (if b then x else y) else z) ≡ x
both_true x y z true true h k = refl
both_true x y z true false h k = absurd (ground (arith, k))
both_true x y z false b h k = absurd (ground (arith, h))

remove_one_if :
    (name : Bytes) (removable : Bool) (left : Nodes)
    → remove_one (removable && is_empty left) (folder name opened removable left) ≡ (
        if removable && no_entry left
        then (none, pos 0)
        else (some (folder name opened removable left), negsuc 0))
remove_one_if name false left = refl
remove_one_if name true empty = refl
remove_one_if name true (entry node nodes) = refl

-- mm_remove of a directory that can be opened, and is named in its parent, with MM_RECURSIVE and MM_DT_DIR
-- but not MM_FAILONERROR, no more than 100 directories deep: its entries that stay are the files of a known
-- type that is not in the flags, those that the system keeps, and the directories that were not opened or
-- in which something stays, while a file of unknown type that the system lets go is removed whatever the
-- flags are; the directory goes, and 0 is returned, exactly if no entry stays and the system lets it go.
pub mm_remove-survivors :
    (flags : RemoveFlags) (name : Bytes) (removable : Bool) (inside : Nodes)
    → flags.fail_on_error ≡ false
    → flags.recursive ≡ true
    → has_bit flags 16 ≡ true
    → depth inside ≤ recursion_max
    → mm_remove flags false (some (folder name opened removable inside)) ≡ (
        let left = survivors flags inside in
        if removable && no_entry left
        then (none, pos 0)
        else (some (folder name opened removable left), negsuc 0))
unfolding mm_remove selected
mm_remove-survivors flags name removable inside go rec dir h =
    let removed = end_remove flags false name opened removable in
    both_true _ _ _ (selected flags dir_type) flags.recursive dir rec
    ∙ ap removed (mm_remove_rec-survivors flags go dir recursion_max inside h)
    ∙ remove_one_if name removable (survivors flags inside)
