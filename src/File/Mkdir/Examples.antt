-- ===== src/File/Mkdir/Examples.antt =====
-- The theorem about mm_mkdir where some directories are there, of which the root is one.
use mmlib.Base.{ℕ, ◌≡◌, refl, Bool, true, false, ◌||◌, List, [], ◌∷◌, ◌&&◌, arith, if◌then◌else◌}
use mmlib.Base.Int.{pos, negsuc}
use mmlib.Base.CString.{Bytes, codes, bytes_eq}
use mmlib.Path.{is_wildcard_directory, is_path_separator}
use mmlib.File.Mkdir.{Made, made, exists, missing, mm_mkdir}
use mmlib.File.Mkdir.Paths.{IsName}
use mmlib.File.Mkdir.Parents.{
  Spelled, top, sub, IsSpelled, ancestors, climb, descend, mm_mkdir-climb,
}

abbrev among : Bytes → List Bytes → Bool
among path [] = false
among path (dir ∷ dirs) = bytes_eq path dir || among path dirs

-- The parents of some paths.
abbrev parent_among : Bytes → List Bytes → Bool
parent_among path dirs =
    bytes_eq path (codes "/a")
    || bytes_eq path (codes "/a//b") && among (codes "/a") dirs
    || bytes_eq path (codes "/a//b/c/") && among (codes "/a//b") dirs

-- The directories that are there, the last one made first.
abbrev mkdir : List Bytes → Bytes → List Bytes × Made
mkdir dirs path =
    if among path dirs
    then (dirs, exists)
    else if parent_among path dirs
    then (path ∷ dirs, made)
    else (dirs, missing)

abbrev deep_path : Spelled
deep_path = sub (sub (top 1 (codes "a")) 1 (codes "b")) 0 (codes "c")

letter : (c : ℕ) → is_path_separator mmlib.Path.posix c ≡ false → IsName (c ∷ [])
letter c h = record { size = omega arith; clear = (h, tt) }

deep_path-IsSpelled : IsSpelled deep_path
unfolding is_wildcard_directory is_path_separator
deep_path-IsSpelled = (letter b'c' refl, (letter b'b' refl, (letter b'a' refl, refl, omega arith)))

mm_mkdir-climb_example :
    (mm_mkdir mkdir [] (codes "/a//b/c/") true ≡ climb mkdir [] (ancestors deep_path 1) [])
    × (mm_mkdir mkdir [] (codes "/a//b/c/") false ≡ descend mkdir [] (codes "/a//b/c/" ∷ []))
mm_mkdir-climb_example = mm_mkdir-climb mkdir [] deep_path 1 deep_path-IsSpelled

-- The parents are made first.
climb_run :
    climb mkdir [] (ancestors deep_path 1) []
    ≡ (codes "/a//b/c/" ∷ codes "/a//b" ∷ codes "/a" ∷ [], pos 0)
climb_run = refl

-- Without MM_RECURSIVE, the path is not made.
descend_run : descend mkdir [] (codes "/a//b/c/" ∷ []) ≡ ([], negsuc 0)
descend_run = refl
