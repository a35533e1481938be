-- ===== src/File/Mkdir.antt =====
-- src/file.c, mm_mkdir, on POSIX. A path is its bytes, and a pointer into it is an offset; the separators that
-- internal_dirname takes away are put back by the caller, so that the path stays as it is.
pub mod Scan
pub mod Paths
pub mod Wildcards
pub mod Parents
mod Examples
use mmlib.Base.{
  ℕ, zero, suc, ◌+◌, Bool, true, false, ◌&&◌, ◌||◌, Option, none, some, [], ◌∷◌, ◌==◌,
  if◌then◌else◌, length, take, leb,
}
use mmlib.Base.Int.{ℤ, pos, negsuc}
use mmlib.Base.CString.{Bytes, char_at, codes}
use mmlib.Path.{posix, is_path_separator, is_wildcard_directory}

-- What mkdir answers: 0, EEXIST, ENOENT or another error.
pub data Made : Type 0 where
  made : Made
  exists : Made
  missing : Made
  refused : Made

-- The loops that go back over separators, from an offset on; the offset 0 is not tested.
unfoldable pub skip_back : Bytes → (c : ℕ) → ℕ
skip_back path zero = 0
skip_back path (suc c) =
    let before = skip_back path c in
    if is_path_separator posix (char_at path (suc c)) then before else suc c

-- The search for a separator, from the offset before c on; the length of the path that is left.
unfoldable pub cut_at : Bytes → (c : ℕ) → Option ℕ
cut_at path zero = none
cut_at path (suc zero) = none
cut_at path (suc (suc c)) =
    let before = cut_at path (suc c) in
    if is_path_separator posix (char_at path (suc c))
    then some (suc (skip_back path (suc c)))
    else before

abbrev pub cut : Bytes → Option ℕ → Bytes
cut path none = b'.' ∷ []
cut path (some len) = take len path

abbrev pub last_char : Bytes → ℕ → Option ℕ
last_char path zero = none
last_char path (suc c) = cut_at path (skip_back path c)

unfoldable pub internal_dirname : Bytes → Bytes
internal_dirname path = cut path (last_char path (length path))

module _ {F : Type 0} (mkdir : F → Bytes → F × Made) where
  -- internal_mkdir that does not report what is there or missing, where 0 is success.
  abbrev pub last_mkdir : F × Made → F × ℤ
  last_mkdir (fs, made) = (fs, pos 0)
  last_mkdir (fs, exists) = (fs, negsuc 0)
  last_mkdir (fs, missing) = (fs, negsuc 0)
  last_mkdir (fs, refused) = (fs, negsuc 0)

  abbrev pub behind_parent : Bytes → F × ℤ → F × ℤ
  behind_parent path (fs, pos zero) = last_mkdir (mkdir fs path)
  behind_parent path (fs, pos (suc n)) = (fs, negsuc 0)
  behind_parent path (fs, negsuc n) = (fs, negsuc 0)

  abbrev pub first_mkdir : Bytes → F × Made → (with_parent : F → F × ℤ) → F × ℤ
  first_mkdir path (fs, made) with_parent = (fs, pos 0)
  first_mkdir path (fs, exists) with_parent = (fs, pos 0)
  first_mkdir path (fs, missing) with_parent =
      if is_wildcard_directory path then (fs, pos 0) else with_parent fs
  first_mkdir path (fs, refused) with_parent = (fs, negsuc 0)

  -- The recursion, on fuel: -1 where it runs out.
  unfoldable pub mm_mkdir_rec : (fuel : ℕ) → F → (path : Bytes) → F × ℤ
  mm_mkdir_rec zero fs path = (fs, negsuc 0)
  mm_mkdir_rec (suc fuel) fs path =
      first_mkdir path (mkdir fs path)
        (λ tried. behind_parent path (mm_mkdir_rec fuel tried (internal_dirname path)))

  unfoldable pub mm_mkdir : F → (path : Bytes) → (recursive : Bool) → F × ℤ
  mm_mkdir fs path true = mm_mkdir_rec (length path + 2) fs path
  mm_mkdir fs path false = last_mkdir (mkdir fs path)
