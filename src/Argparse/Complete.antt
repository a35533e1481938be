-- ===== src/Argparse/Complete.antt =====
-- src/argparse.c, the candidates that shell completion prints.
use mmlib.Base.{
  ℕ, ◌+◌, Bool, true, false, ◌&&◌, ◌||◌, Option, none, some, List, [], ◌∷◌, ◌++◌, ◌==◌, ◌!=◌,
  if◌then◌else◌, is_some, length,
}
use mmlib.Base.Int.{ℤ, pos}
use mmlib.Base.CString.{Bytes, codes}
use mmlib.Argparse.Opt.{
  Opt, opt_noval, opt_optval, opt_needval, reqflags, is_filepath, is_dirpath, mm_arg_opt_get_key,
  mm_arg_opt_get_name, help_opt,
}
use mmlib.Argparse.Help.{linefeed, or_default}
use mmlib.Argparse.Find.{strn_eq, find_opt}
use mmlib.Argparse.Paths.{dt_dir, dt_reg, mm_arg_complete_path}
use mmlib.Argparse.Run.{
  ArgVal, str, Libc, Callback, Parser, ret, M, pure, ◌>>=◌, ◌>>◌, print, argparse_complete,
}

abbrev pub longopt_line : Bytes → Bytes → Bytes
longopt_line lname end = codes "--" ++ (lname ++ (end ++ linefeed))

-- The candidates for one option; `len` is the length of `name_start`.
pub complete_longopt : Opt → ℕ → Bytes → Bytes
complete_longopt opt len name_start = elim (mm_arg_opt_get_name opt) [
  | none ↦ []
  | some lname ↦
      (if strn_eq len name_start lname
        then (if reqflags (opt.flags) == opt_noval
            then longopt_line lname []
            else if reqflags (opt.flags) == opt_needval
            then longopt_line lname (codes "=")
            else if reqflags (opt.flags) == opt_optval
            then longopt_line lname (codes "=") ++ longopt_line lname []
            else [])
        else [])
]

pub longopt_candidates : List Opt → Bytes → Bytes
longopt_candidates [] arg = complete_longopt help_opt (length arg) arg
longopt_candidates (opt ∷ optv) arg =
    complete_longopt opt (length arg) arg ++ longopt_candidates optv arg

-- An `arg` of NULL is "".
unfoldable pub complete_longopts : {D : Type 0} → Parser D → Option Bytes → M D ℤ
complete_longopts parser arg = do
  print (longopt_candidates (parser.optv) (or_default arg []))
  pure argparse_complete

-- Whether every key of the argument is that of an option.
pub all_known : List Opt → Bytes → Bool
all_known optv [] = true
all_known optv (c ∷ s) = is_some (find_opt optv c [] 0) && all_known optv s

pub key_lines : List Opt → Bytes
key_lines [] = codes "-h" ++ linefeed
key_lines (opt ∷ optv) =
    let key = mm_arg_opt_get_key opt in
    (if key != 0 then b'-' ∷ key ∷ linefeed else []) ++ key_lines optv

pub shortopt_candidates : List Opt → Bytes → Bytes
shortopt_candidates optv arg =
    if all_known optv arg
    then (if length arg != 0 then b'-' ∷ (arg ++ linefeed) else key_lines optv)
    else []

unfoldable pub complete_shortopts : {D : Type 0} → Parser D → Option Bytes → M D ℤ
complete_shortopts parser arg = do
  print (shortopt_candidates (parser.optv) (or_default arg []))
  pure argparse_complete

-- What `complete_opt_value` prints where no callback has completed the value.
pub value_candidates : Libc → Opt → Option Bytes → Bytes
value_candidates libc opt arg =
    if is_filepath (opt.flags) || is_dirpath (opt.flags)
    then (mm_arg_complete_path (libc.os) (libc.opendir) arg
        (if is_filepath (opt.flags) then dt_reg + dt_dir else dt_dir) none).1
    else elim arg [ none ↦ [] | some a ↦ a ++ linefeed ]

-- MM_ARG_OPT_COMPLETION
abbrev pub arg_opt_completion : ℕ
arg_opt_completion = 1

abbrev pub is_zero : ℤ → Bool
is_zero (pos n) = n == 0
is_zero _ = false

abbrev pub call : {D : Type 0} → Callback D → Opt → ArgVal → ℕ → M D ℤ
call cb opt value state w = let (rv, w') = cb opt value state w in ret rv w'

unfoldable pub complete_opt_value : {D : Type 0} → Libc → Parser D → Opt → Option Bytes → M D ℤ
complete_opt_value libc parser opt arg =
    let candidates = do print (value_candidates libc opt arg); pure argparse_complete
    in elim (parser.cb) [
      | none ↦ candidates
      | some cb ↦ do
        rv ← call cb opt (str arg) arg_opt_completion
        if is_zero rv then candidates else pure argparse_complete
    ]
