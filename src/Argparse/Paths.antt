-- ===== src/Argparse/Paths.antt =====
-- src/argparse.c, mm_arg_complete_path: the paths that complete an argument. What a directory holds is the operating system's.
use Prim.Native.Nat.{bit_and}
use mmlib.Base.{
  ℕ, ◌-◌, Bool, true, false, ◌&&◌, ◌||◌, not, Option, none, some, List, [], ◌∷◌, ◌++◌, ◌==◌, ◌!=◌,
  if◌then◌else◌, length,
}
use mmlib.Base.Int.{ℤ, pos, negsuc}
use mmlib.Base.CString.{Bytes, codes, char_at}
use mmlib.Path.{is_wildcard_directory, Platform, is_path_separator, mm_basename, mm_dirname}
use mmlib.Argparse.Opt.{Dirent}
use mmlib.Argparse.Find.{strn_eq}
use mmlib.Argparse.Help.{linefeed}

-- MM_DT_DIR and MM_DT_REG
abbrev pub dt_dir : ℕ
dt_dir = 16

abbrev pub dt_reg : ℕ
dt_reg = 32

-- Whether a name is "." or "..".
-- The user's callback: name, directory and type of a candidate.
abbrev pub PathCallback : Type 0
PathCallback = Bytes → Bytes → ℕ → ℤ

abbrev pub is_one : ℤ → Bool
is_one (pos n) = n == 1
is_one _ = false

pub is_kept : Option PathCallback → (dirpath : Bytes) → Dirent → Bool
is_kept none dirpath dirent = true
is_kept (some cb) dirpath dirent = is_one (cb (dirent.name) dirpath (dirent.type))

pub is_candidate : (base dirpath : Bytes) → ℕ → Option PathCallback → Dirent → Bool
is_candidate base dirpath type_mask cb dirent =
    strn_eq (length base) (dirent.name) base
    && not (is_wildcard_directory (dirent.name))
    && is_kept cb dirpath dirent
    && bit_and (dirent.type) type_mask != 0

pub candidate_lines :
    (base dirpath disp_dir : Bytes) → ℕ → Option PathCallback → List Dirent → Bytes
candidate_lines base dirpath disp_dir type_mask cb [] = []
candidate_lines base dirpath disp_dir type_mask cb (dirent ∷ rest) =
    (if is_candidate base dirpath type_mask cb dirent
      then disp_dir
        ++ (dirent.name
            ++ ((if bit_and (dirent.type) dt_dir != 0 then codes "/" else []) ++ linefeed))
      else [])
    ++ candidate_lines base dirpath disp_dir type_mask cb rest

pub has_separator : Platform → Bytes → Bool
has_separator os [] = false
has_separator os (c ∷ s) = is_path_separator os c || has_separator os s

-- Whether the argument is empty or ends by a separator, and is searched as a folder.
abbrev pub is_folder : Platform → Bytes → Bool
is_folder os arg = length arg == 0 || is_path_separator os (char_at arg (length arg - 1))

pub search_dir : Platform → Bytes → Bytes
search_dir os arg =
    if is_folder os arg
    then (if length arg == 0 then codes "./" else arg)
    else mm_dirname os (some arg) ++ codes "/"

pub search_base : Platform → Bytes → Bytes
search_base os arg = if is_folder os arg then [] else mm_basename os (some arg)

-- The return value and what is printed. Memory for the paths is there.
pub mm_arg_complete_path :
    Platform
    → (opendir : Bytes → Option (List Dirent)) → Option Bytes
    → ℕ
    → Option PathCallback
    → ℤ × Bytes
mm_arg_complete_path os opendir none type_mask cb = (negsuc 0, [])
mm_arg_complete_path os opendir (some arg) type_mask cb =
    let dirpath = search_dir os arg in
    let disp_dir : Bytes = if has_separator os arg then dirpath else [] in
    elim (opendir dirpath) [
      | none ↦ (negsuc 0, [])
      | some entries ↦
          (pos 0, candidate_lines (search_base os arg) dirpath disp_dir type_mask cb entries)
    ]
