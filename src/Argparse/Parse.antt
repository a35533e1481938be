-- ===== src/Argparse/Parse.antt =====
-- src/argparse.c, the processing of the options, and mm_arg_parse.
pub mod Ensures
pub mod Outcome
pub mod Store
use mmlib.Base.{
  ℕ, zero, suc, ◌+◌, Bool, true, false, ◌&&◌, ◌||◌, not, Option, none, some, List, [], ◌∷◌, ◌++◌,
  ltb, leb, ◌==◌, ◌!=◌, if◌then◌else◌, length, take, drop,
}
use mmlib.Base.Int.{ℤ, pos, negsuc}
use mmlib.Base.CString.{Bytes, codes, nul, char_at}
use mmlib.Argparse.Opt.{
  Opt, opt_noval, opt_needval, reqflags, get_first_token_length, is_valid_short_opt_key,
  is_arg_an_option,
}
use mmlib.Argparse.Help.{linefeed, print_help}
use mmlib.Argparse.Find.{find_opt, opt_of, validate_options}
use mmlib.Argparse.Complete.{
  call, is_zero, complete_longopts, complete_shortopts, complete_opt_value,
}
use mmlib.Argparse.Value.{print_opt_error, conv_str_to_argval, mm_arg_opt_set_value}
use mmlib.Argparse.Run.{
  Found, user, help, ArgVal, Libc, Parser, no_exit, is_completing, argparse_error, argparse_stop,
  argparse_complete, Run, exited, M, pure, lift, ◌>>=◌, ◌>>◌, print, eprint,
}

abbrev pub is_neg : ℤ → Bool
is_neg (pos n) = false
is_neg (negsuc n) = true

abbrev pub or_else : Option Bytes → Option Bytes → Option Bytes
or_else none d = d
or_else (some s) d = some s

abbrev pub is_null : Option Bytes → Bool
is_null none = true
is_null (some s) = false

-- The text behind the '=' at `namelen`, if there is one.
pub long_value : Bytes → ℕ → Option Bytes
long_value arg namelen = if char_at arg namelen == b'=' then some (drop (namelen + 1) arg) else none

-- What a round of the loop of `mm_arg_parse` leads to: the end of the function, or the next round
-- with `skip` arguments passed over.
pub data Next : Type 0 where
  stop : ℤ → Next
  go : (skip : ℕ) → Next

abbrev pub head? : List Bytes → Option Bytes
head? [] = none
head? (a ∷ rest) = some a

module _ {D : Type 0} (libc : Libc) (parser : Parser D) where
  -- The callback, if there is one; a NULL callback counts as a success.
  abbrev pub run_callback : Opt → ArgVal → M D ℤ
  run_callback opt val = elim (parser.cb) [ none ↦ pure (pos 0) | some cb ↦ call cb opt val 0 ]

  pub accept_value : Opt → Option Bytes → M D ℤ
  accept_value opt value = do
    argval ← conv_str_to_argval libc opt value
    elim argval [
      | none ↦ pure argparse_error
      | some v ↦ do
        rv ← run_callback opt v
        if is_neg rv then pure rv else mm_arg_opt_set_value opt v
    ]

  pub process_opt_value : Found → Option Bytes → M D ℤ
  process_opt_value help value = if is_completing parser then pure (pos 0) else (do
    print (print_help (libc.isalnum) (parser.optv) (parser.execname) (parser.args_doc) (parser.doc))
    pure argparse_stop)
  process_opt_value (user opt) none =
      if reqflags (opt.flags) == opt_needval
      then (do print_opt_error opt (codes "needs value."); pure argparse_error)
      else accept_value opt (opt.defval)
  process_opt_value (user opt) (some value) =
      if reqflags (opt.flags) == opt_noval
      then (do print_opt_error opt (codes "does not accept any value."); pure argparse_error)
      else accept_value opt (some value)

  -- Whether the next argument is taken as the value: only behind the last key of the list. `none` is
  -- a read behind the end of the next argument.
  pub takes_next : Opt → (opts : Bytes) → (next_arg : Option Bytes) → Option Bool
  takes_next opt (c ∷ opts) next_arg = some false
  takes_next opt [] next_arg =
      if reqflags (opt.flags) == opt_noval
      then some false
      else elim (is_arg_an_option next_arg) [ none ↦ none | some b ↦ some (not b) ]

  -- The `while` loop over the keys. The value is NULL but behind the last key.
  pub short_loop : Bytes → (next_arg : Option Bytes) → (next_is_last : Bool) → ℕ → M D ℤ
  short_loop [] next_arg next_is_last move_arg_index = pure (pos move_arg_index)
  short_loop (c ∷ opts) next_arg next_is_last move_arg_index =
      elim (find_opt (parser.optv) c [] 0) [
        | none ↦ do eprint (codes "Unsupported option -" ++ (c ∷ linefeed)); pure argparse_error
        | some found ↦ do
          takes ← lift (takes_next (opt_of found) opts next_arg)
          if takes && is_completing parser && next_is_last
              then complete_opt_value libc parser (opt_of found) next_arg
              else (do
                rv ← process_opt_value found (if takes then next_arg else none)
                if is_neg rv
                    then pure rv
                    else short_loop opts next_arg next_is_last
                        (if takes then 1 else move_arg_index))
      ]

  pub process_short_opt : Bytes → (next_arg : Option Bytes) → (next_is_last : Bool) → M D ℤ
  process_short_opt opts next_arg next_is_last =
      if is_completing parser && is_null next_arg
      then complete_shortopts parser (some opts)
      else short_loop opts next_arg next_is_last 0

  pub process_long_opt : Bytes → Bool → M D ℤ
  process_long_opt arg do_complete =
      let namelen = get_first_token_length arg b'=' in
      let value = long_value arg namelen in
      if do_complete && char_at arg namelen != b'='
      then complete_longopts parser (some arg)
      else elim (find_opt (parser.optv) 0 arg namelen) [
        | none ↦
            (if do_complete then pure argparse_complete else (do
              eprint (codes "Unsupported option --" ++ (take namelen arg ++ linefeed))
              pure argparse_error))
        | some found ↦
            (if do_complete
              then complete_opt_value libc parser (opt_of found) value
              else (do rv ← process_opt_value found value; pure (if is_neg rv then rv else pos 0)))
      ]

  -- EXIT_SUCCESS is 0 and EXIT_FAILURE is 1.
  pub early_stop_parsing : ℤ → M D ℤ
  early_stop_parsing (pos n) = if no_exit parser then pure (pos n) else exited 0
  early_stop_parsing (negsuc zero) = do
    eprint (codes "Use -h or --help to display usage." ++ linefeed)
    if no_exit parser then pure argparse_error else exited 1
  early_stop_parsing (negsuc (suc n)) = if no_exit parser then pure (negsuc (suc n)) else exited 0

  pub mm_arg_parse_complete : Option Bytes → M D ℤ
  mm_arg_parse_complete arg = do
    invalid ← validate_options (parser.optv)
    if is_neg invalid then early_stop_parsing argparse_error else elim arg [
      | none ↦ pure (pos 0)
      | some a ↦ do
        (if length a == 0 || char_at a 0 == b'-'
            then complete_shortopts parser (some (drop 1 a))
            else pure (pos 0))
        (if length a == 0
              || (length a == 1 && char_at a 0 == b'-')
              || (leb 2 (length a) && char_at a 0 == b'-' && char_at a 1 == b'-')
            then complete_longopts parser (some (drop 2 a))
            else pure (pos 0))
        pure (pos 0)
    ]

  abbrev pub stop_early : ℤ → M D Next
  stop_early r = do v ← early_stop_parsing r; pure (stop v)

  abbrev pub after : ℤ → M D Next
  after (pos n) = pure (go n)
  after (negsuc n) = stop_early (negsuc n)

  -- One round, at the argument with this index, before the arguments `rest`.
  pub parse_round : Bytes → (rest : List Bytes) → (index : ℕ) → M D Next
  parse_round arg rest index =
      let do_complete = length rest == 0 && is_completing parser in
      if char_at arg 0 != b'-'
      then pure (stop (pos index))
      else if is_valid_short_opt_key (char_at arg 1)
      then (do r ← process_short_opt (drop 1 arg) (head? rest) (length rest == 1); after r)
      else if char_at arg 1 == nul && do_complete
      then (do mm_arg_parse_complete (some arg); stop_early argparse_complete)
      else if char_at arg 1 != b'-'
      then pure (stop (pos index))
      else if char_at arg 2 == nul && not do_complete
      then pure (stop (pos (index + 1)))
      else (do
        r ← process_long_opt (drop 2 arg) do_complete
        if is_neg r then stop_early r else pure (go 0))

  -- The `for` loop over the arguments that are left, of which the next `skip` are passed over. At
  -- the end the index is `argc`, or behind it where a value was asked for that is not there: it is
  -- brought back to `argc`.
  pub parse_loop : (args : List Bytes) → (skip index : ℕ) → M D ℤ
  parse_loop [] skip index = pure (pos index)
  parse_loop (arg ∷ rest) (suc skip) index = parse_loop rest skip (index + 1)
  parse_loop (arg ∷ rest) zero index = do
    next ← parse_round arg rest index
    elim next [ stop r ↦ pure r | go skip ↦ parse_loop rest skip (index + 1) ]

  -- `args` is `argv` without the name of the program.
  pub mm_arg_parse : (args : List Bytes) → M D ℤ
  mm_arg_parse args = do
    invalid ← validate_options (parser.optv)
    if is_neg invalid then early_stop_parsing argparse_error else parse_loop args 0 1

-- A parser of the options alone.
pub mm_arg_optv_parse :
    Libc → (optv : List Opt) → (execname : Bytes) → (args : List Bytes) → M (Unit {0}) ℤ
mm_arg_optv_parse libc optv execname args =
    mm_arg_parse libc
      (record {
        flags = 0;
        optv = optv;
        doc = none;
        args_doc = none;
        execname = some execname;
        cb = none;
      })
      args
