-- ===== src/Path/Examples.antt =====
-- Runs of the path functions, and the theorems about them at concrete paths.

use mmlib.Base.{◌≡◌, refl, none, some, [], ◌∷◌, ◌++◌, arith}
use mmlib.Base.CString.{codes}
use mmlib.Path.{
  posix, windows, is_path_separator, skip_separators, get_last_nonsep_ptr, get_basename_ptr,
  basename_loop, mm_basename, mm_dirname,
}
use mmlib.Path.Split.{mm_dirname-mm_basename}

basename_runs :
    (mm_basename posix (some (codes "/usr/lib/")) ≡ codes "lib")
    × (mm_basename posix (some (codes "///")) ≡ codes "/")
    × (mm_basename posix none ≡ codes ".")
    × (mm_basename windows (some (0x43 ∷ b':' ∷ 0x5c ∷ b'a' ∷ [])) ≡ codes "a")
unfolding mm_basename get_basename_ptr basename_loop get_last_nonsep_ptr skip_separators
    is_path_separator
basename_runs = (refl, refl, refl, refl)

dirname_runs :
    (mm_dirname posix (some (codes "/usr//lib/")) ≡ codes "/usr")
    × (mm_dirname posix (some (codes "/usr")) ≡ codes "/")
    × (mm_dirname posix (some (codes "usr/")) ≡ codes ".")
    × (mm_dirname posix (some (codes "//")) ≡ codes "/")
unfolding mm_dirname get_basename_ptr basename_loop get_last_nonsep_ptr skip_separators
    is_path_separator
dirname_runs = (refl, refl, refl, refl)

mm_dirname-mm_basename_example :
    (mm_dirname posix (some (codes "/usr" ++ (codes "//" ++ (codes "lib" ++ codes "/"))))
      ≡ codes "/usr")
    × (mm_basename posix (some (codes "/usr" ++ (codes "//" ++ (codes "lib" ++ codes "/"))))
        ≡ codes "lib")
unfolding is_path_separator
mm_dirname-mm_basename_example =
    mm_dirname-mm_basename posix (codes "/usr") (codes "//") (codes "lib") (codes "/") (omega arith)
      refl (omega arith) (refl, (refl, tt)) (omega arith, (refl, (refl, (refl, tt)))) (refl, tt)
