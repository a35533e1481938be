-- ===== src/Argparse/Find.antt =====
-- src/argparse.c, the search for an option by key or by name, and the test of the configuration.
pub mod Match
use mmlib.Base.{
  ℕ, zero, suc, Bool, true, false, ◌&&◌, ◌||◌, not, Option, none, some, List, [], ◌∷◌, ◌++◌, ◌==◌,
  ◌!=◌, if◌then◌else◌,
}
use mmlib.Base.Int.{ℤ, pos}
use mmlib.Base.CString.{Bytes, codes, nul, char_at}
use mmlib.Argparse.Opt.{
  Opt, mm_arg_opt_get_key, mm_arg_opt_get_name, help_opt, is_valid_short_opt_key,
  is_valid_long_opt_name, set_name,
}
use mmlib.Argparse.Help.{linefeed}
use mmlib.Argparse.Run.{Found, user, help, M, pure, ◌>>=◌, ◌>>◌, eprint, argparse_error}

-- `!strncmp(s, t, n)`
unfoldable pub strn_eq : ℕ → Bytes → Bytes → Bool
strn_eq zero s t = true
strn_eq (suc n) [] [] = true
strn_eq (suc n) [] (d ∷ t) = false
strn_eq (suc n) (c ∷ s) [] = false
strn_eq (suc n) (c ∷ s) (d ∷ t) = let rest = strn_eq n s t in if c == d then rest else false

-- IGNORE_KEY is 0.
unfoldable pub match_opt_key_or_name : Opt → ℕ → Bytes → ℕ → Bool
match_opt_key_or_name opt key name namelen =
    if key != 0 then key == mm_arg_opt_get_key opt else elim (mm_arg_opt_get_name opt) [
      | none ↦ false
      | some opt_name ↦ strn_eq namelen opt_name name && char_at opt_name namelen == nul
    ]

-- The options of the configuration in order, then the help option.
unfoldable pub find_opt : List Opt → ℕ → Bytes → ℕ → Option Found
find_opt [] key name namelen =
    if match_opt_key_or_name help_opt key name namelen then some help else none
find_opt (opt ∷ optv) key name namelen =
    let rest = find_opt optv key name namelen in
    if match_opt_key_or_name opt key name namelen then some (user opt) else rest

abbrev pub opt_of : Found → Opt
opt_of (user opt) = opt
opt_of help = help_opt

-- Whether the key and the long name of an option are allowed.
unfoldable pub has_valid_names : Opt → Bool
has_valid_names opt =
    let key = mm_arg_opt_get_key opt in
    (key == 0 || is_valid_short_opt_key key) && elim (mm_arg_opt_get_name opt) [
      | none ↦ true
      | some lname ↦ is_valid_long_opt_name lname false
    ]

abbrev pub name_not_set : Bytes
name_not_set = codes "name in mm_arg_opt must be set"

abbrev pub invalid_names : Opt → Bytes
invalid_names opt = codes "invalid short or long name for option " ++ set_name opt

abbrev pub is_unset : Option Bytes → Bool
is_unset none = true
is_unset (some []) = true
is_unset (some (c ∷ s)) = false

unfoldable pub validate_options : {D : Type 0} → List Opt → M D ℤ
validate_options [] = pure (pos 0)
validate_options (opt ∷ optv) =
    let rest = validate_options optv in
    if is_unset (opt.name)
    then (do eprint (name_not_set ++ linefeed); pure argparse_error)
    else if has_valid_names opt
    then rest
    else (do eprint (invalid_names opt ++ linefeed); pure argparse_error)
