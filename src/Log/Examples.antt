-- ===== src/Log/Examples.antt =====
-- Lines of the log.
use mmlib.Base.{◌≤◌, ◌≡◌, refl, none, some, [], ◌∷◌, ◌++◌, arith, length}
use mmlib.Base.Int.{pos, negsuc}
use mmlib.Base.CString.{Bytes, codes}
use mmlib.Log.{log_header, format_log_str, init_log, find_level, mm_log, write_loop}
use mmlib.Log.Format.{line, format_log_str_bounds}

abbrev stamp : Bytes
stamp = codes "01/01/26 10:00:00"

-- A level that is none in the environment turns the log off.
init_log_runs :
    (init_log (pos 3) (some (codes "WARN")) ≡ pos 2)
    × (init_log (pos 3) (some (codes "ALL")) ≡ negsuc 0)
    × (init_log (pos 3) none ≡ pos 3)
unfolding init_log find_level
init_log_runs = (refl, refl, refl)

mm_log_run :
    mm_log (pos 3) (pos 1) stamp (codes "m") (codes "x") (some 20 ∷ some 26 ∷ [])
    ≡ some (stamp ++ codes " ERROR m                : x" ++ (0x0a ∷ []))
unfolding mm_log format_log_str write_loop
mm_log_run = refl

format_log_str_bounds_example :
    let header = log_header 1 (codes "m") in
    (format_log_str 64 stamp 1 (codes "m") (codes "x") ≡ some (line 64 stamp header (codes "x")))
    × (length (line 64 stamp header (codes "x")) ≤ 64)
    × (format_log_str 40 stamp 1 (codes "m") (codes "x") ≡ none)
format_log_str_bounds_example =
    format_log_str_bounds 64 40 1 stamp (codes "m") (codes "x") (omega arith) (omega arith)
