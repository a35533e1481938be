-- ===== src/File/Remove.antt =====
-- src/file-posix.c, mm_remove. The files are a tree, whose entries stand in the order in which readdir gives
-- them, without "." and ".."; what the system refuses is noted in it.
pub mod Survivors
pub mod Stops
use mmlib.Base.{
  ℕ, zero, suc, ◌+◌, ◌/◌, ◌%◌, Bool, true, false, not, ◌&&◌, ◌||◌, Option, none, some, ltb, ◌==◌,
  if◌then◌else◌,
}
use mmlib.Base.Int.{ℤ, pos, negsuc}
use mmlib.Base.CString.{Bytes}

-- The types of files that are no directories.
pub data FileType : Type 0 where
  fifo : FileType
  chr : FileType
  blk : FileType
  reg : FileType
  lnk : FileType
  sock : FileType
  unknown : FileType

-- What becomes of openat and fdopendir on a directory.
pub data Opening : Type 0 where
  not_opened : Opening
  not_read : Opening
  opened : Opening

-- `removable`: the system lets the entry be removed, if it is a file or an empty directory.
mutual
  pub data FileNode : Type 0 where
    file : Bytes → FileType → (removable : Bool) → FileNode
    folder : Bytes → Opening → (removable : Bool) → Nodes → FileNode

  pub data Nodes : Type 0 where
    empty : Nodes
    entry : FileNode → Nodes → Nodes

-- The flags MM_DT_* of the types that may be removed, MM_RECURSIVE and MM_FAILONERROR.
pub record RemoveFlags : Type 0 where
  pub types : ℕ
  pub recursive : Bool
  pub fail_on_error : Bool

abbrev pub dir_type : ℕ
dir_type = 16

-- get_file_type of a file
unfoldable pub file_type : FileType → ℕ
file_type fifo = 2
file_type chr = 4
file_type blk = 8
file_type reg = 32
file_type lnk = 64
file_type sock = 128
file_type unknown = 0

-- flags & type, for a type that is one bit or none
unfoldable pub selected : RemoveFlags → (type : ℕ) → Bool
selected flags type = ltb 0 type && flags.types / type % 2 == 1

-- The filter of mm_remove_rec lets a file of unknown type pass.
unfoldable pub considered : RemoveFlags → (type : ℕ) → Bool
considered flags type = type == 0 || selected flags type

abbrev pub is_empty : Nodes → Bool
is_empty empty = true
is_empty (entry node nodes) = false

-- What the two calls of unlinkat leave of a directory, which is given after the removal of its entries: the
-- first one removes it if it can, and the second one fails then, since it is gone.
unfoldable pub unlink_folder : Bytes → Opening → (removable : Bool) → Nodes → Option FileNode
unlink_folder name opening removable inside =
    if removable && is_empty inside then none else some (folder name opening removable inside)

abbrev pub keep : Option FileNode → Nodes → Nodes
keep none nodes = nodes
keep (some node) nodes = entry node nodes

abbrev pub also : Option FileNode → Nodes × Bool → Nodes × Bool
also node (nodes, done) = (keep node nodes, done)

-- The end of a round for an entry: the loop is left where a call has failed and MM_FAILONERROR is set.
abbrev pub go_on :
    (failed fail_on_error : Bool)
    → (left : Option FileNode) → (rest : Nodes) → (removed_rest : Nodes × Bool) → Nodes × Bool
go_on true true left rest removed_rest = (keep left rest, false)
go_on true false left rest removed_rest = also left removed_rest
go_on false fail_on_error left rest removed_rest = also left removed_rest

-- The round for a directory that was opened, behind the recursive call.
abbrev pub end_folder :
    RemoveFlags
    → Bytes
    → Opening
    → (removable : Bool) → (inside : Nodes × Bool) → (rest : Nodes) → (removed_rest : Nodes × Bool)
    → Nodes × Bool
end_folder flags name opening removable (inside, false) rest removed_rest =
    if flags.fail_on_error
    then (entry (folder name opening removable inside) rest, false)
    else also (unlink_folder name opening removable inside) removed_rest
end_folder flags name opening removable (inside, true) rest removed_rest =
    go_on true flags.fail_on_error (unlink_folder name opening removable inside) rest removed_rest

-- The round for a directory, with what the recursive call would make of its entries.
abbrev pub folder_round :
    RemoveFlags
    → Bytes
    → Opening
    → (removable : Bool) → (inside : Nodes) → (removed_inside : Nodes × Bool) → (rest : Nodes)
    → (removed_rest : Nodes × Bool) → Nodes × Bool
folder_round flags name not_opened removable inside removed_inside rest removed_rest =
    go_on true flags.fail_on_error (some (folder name not_opened removable inside)) rest
      removed_rest
folder_round flags name not_read removable inside removed_inside rest removed_rest =
    end_folder flags name not_read removable removed_inside rest removed_rest
folder_round flags name opened removable inside removed_inside rest removed_rest =
    end_folder flags name opened removable removed_inside rest removed_rest

abbrev pub file_round :
    RemoveFlags
    → Bytes
    → FileType
    → (removable : Bool) → (rest : Nodes) → (removed_rest : Nodes × Bool) → Nodes × Bool
file_round flags name type true rest removed_rest = also none removed_rest
file_round flags name type false rest removed_rest =
    go_on true flags.fail_on_error (some (file name type false)) rest removed_rest

-- mm_remove_rec on the entries of a directory: what is left of them, and whether it returns 0. The recursion
-- level is one less than `levels`.
unfoldable pub mm_remove_rec : RemoveFlags → (levels : ℕ) → Opening → Nodes → Nodes × Bool
mm_remove_rec flags zero opening nodes = (nodes, false)
mm_remove_rec flags (suc levels) not_read nodes = (nodes, not flags.fail_on_error)
mm_remove_rec flags (suc levels) not_opened nodes = (nodes, not flags.fail_on_error)
mm_remove_rec flags (suc levels) opened empty = (empty, true)
mm_remove_rec flags (suc levels) opened (entry (file name type removable) rest) =
    let removed_rest = mm_remove_rec flags (suc levels) opened rest in
    if considered flags (file_type type)
    then file_round flags name type removable rest removed_rest
    else also (some (file name type removable)) removed_rest
mm_remove_rec flags (suc levels) opened (entry (folder name opening removable inside) rest) =
    let removed_rest = mm_remove_rec flags (suc levels) opened rest in
    let removed_inside = mm_remove_rec flags levels opening inside in
    if considered flags dir_type
    then folder_round flags name opening removable inside removed_inside rest removed_rest
    else also (some (folder name opening removable inside)) removed_rest

abbrev pub recursion_max : ℕ
recursion_max = 100

-- mm_rmdir and mm_unlink of the file itself.
abbrev pub remove_one : (removable : Bool) → FileNode → Option FileNode × ℤ
remove_one true node = (none, pos 0)
remove_one false node = (some node, negsuc 0)

abbrev pub end_remove :
    RemoveFlags
    → (wildcard : Bool) → Bytes
    → Opening
    → (removable : Bool) → Nodes × Bool
    → Option FileNode × ℤ
end_remove flags wildcard name opening removable (inside, done) =
    let rv = if done then pos 0 else negsuc 0 in
    let node = folder name opening removable inside in
    if not done && not flags.fail_on_error
    then (some node, negsuc 0)
    else if wildcard
    then (some node, rv)
    else remove_one (removable && is_empty inside) node

abbrev pub remove_recursively :
    RemoveFlags
    → (wildcard : Bool) → Bytes
    → Opening
    → (removable : Bool) → Nodes
    → Option FileNode × ℤ
remove_recursively flags wildcard name not_opened removable inside =
    (some (folder name not_opened removable inside), negsuc 0)
remove_recursively flags wildcard name not_read removable inside =
    end_remove flags wildcard name not_read removable
      (mm_remove_rec flags (suc recursion_max) not_read inside)
remove_recursively flags wildcard name opened removable inside =
    end_remove flags wildcard name opened removable
      (mm_remove_rec flags (suc recursion_max) opened inside)

-- What is left of the file at the path, `none` where there is none, and the value returned; `wildcard` says
-- that the path is "." or "..".
unfoldable pub mm_remove : RemoveFlags → (wildcard : Bool) → Option FileNode → Option FileNode × ℤ
mm_remove flags wildcard none = (none, negsuc 0)
mm_remove flags wildcard (some (file name type removable)) =
    if selected flags (file_type type)
    then remove_one removable (file name type removable)
    else (some (file name type removable), negsuc 0)
mm_remove flags wildcard (some (folder name opening removable inside)) =
    let node = folder name opening removable inside in
    if selected flags dir_type
    then if flags.recursive
      then remove_recursively flags wildcard name opening removable inside
      else remove_one (removable && is_empty inside) node
    else (some node, negsuc 0)
