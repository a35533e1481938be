-- ===== src/Argparse/Help/Synopsis.antt =====
-- How long the synopsis of an option is.
use mmlib.Base.{ℕ, ◌+◌, ◌*◌, ◌≤◌, ◌<◌, ◌≡◌, ◌↔◌, some, [], ◌∷◌, ◌++◌, arith, length, length-append}
use mmlib.Base.CString.{Bytes, codes}
use mmlib.Argparse.Opt.{Opt, reqflags, mm_arg_opt_get_key, mm_arg_opt_get_name}
use mmlib.Argparse.Help.{
  key_synopsis, name_synopsis, separator, set_option_synopsis, opt_synopsis_maxlen,
}

length-key_synopsis :
    (key : ℕ) (valname : Bytes) → 0 < key → length (key_synopsis key 1 valname) ≡ 5 + length valname
unfolding key_synopsis
length-key_synopsis key valname pos = ground (arith, length-append valname (b']' ∷ []))

length-name_synopsis :
    (name valname : Bytes)
    → length (name_synopsis (some name) 1 valname) ≡ 5 + length name + length valname
unfolding name_synopsis
length-name_synopsis name valname = ground (
  arith,
  length-append name (codes "[=" ++ (valname ++ b']' ∷ [])),
  length-append valname (b']' ∷ []),
)

-- An option with a key, a name of `n` bytes and an optional value of a name of `v` bytes has a
-- synopsis of `14 + 2 * v + n` bytes: the buffer of 64 bytes holds it and its terminator exactly if
-- `n + 2 * v` is below 50.
pub set_option_synopsis_fits :
    (opt : Opt) (name valname : Bytes)
    → 0 < mm_arg_opt_get_key opt
    → mm_arg_opt_get_name opt ≡ some name
    → reqflags (opt.flags) ≡ 1
    → (length (set_option_synopsis opt valname) + 1 ≤ opt_synopsis_maxlen)
      ↔ (length name + 2 * length valname < 50)
unfolding set_option_synopsis separator
set_option_synopsis_fits opt name valname key named req =
    rw (named, req)
      (ground (
        arith,
        length-key_synopsis (mm_arg_opt_get_key opt) valname key,
        length-append (key_synopsis (mm_arg_opt_get_key opt) 1 valname)
            (separator (mm_arg_opt_get_key opt) (some name) ++ name_synopsis (some name) 1 valname),
        length-name_synopsis name valname,
      ))
