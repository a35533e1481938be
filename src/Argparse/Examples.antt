-- ===== src/Argparse/Examples.antt =====
-- Runs of the parser, and the theorems about it at concrete options and arguments.
use mmlib.Base.{
  ℕ, ◌+◌, ◌*◌, ◌-◌, ◌^◌, ◌≤◌, ◌<◌, ◌≡◌, refl, ◌↔◌, true, false, ◌&&◌, ◌||◌, none, some, List, [],
  ◌∷◌, ◌++◌, arith, length, leb, ◌==◌,
}
use mmlib.Base.Int.{ℤ, pos, ◌≤ℤ◌}
use mmlib.Base.CString.{Bytes, codes}
use mmlib.Path.{Platform}
use mmlib.Argparse.Opt.{
  Opt, opt_noval, opt_optval, opt_needval, opt_int, opt_uint, opt_ullong, get_first_token_length,
  mm_arg_opt_get_key, mm_arg_opt_get_name, mm_arg_opt_get_type,
}
use mmlib.Argparse.Opt.Names.{Token, get_first_token_length_lem}
use mmlib.Argparse.Desc.{copy_opt_desc}
use mmlib.Argparse.Desc.Bounds.{Fits, copy_opt_desc_bounds}
use mmlib.Argparse.Wrap.{print_text_wrapped}
use mmlib.Argparse.Wrap.Lines.{Wrapped, print_text_wrapped_lem}
use mmlib.Argparse.Help.{set_option_synopsis, opt_synopsis_maxlen}
use mmlib.Argparse.Help.Synopsis.{set_option_synopsis_fits}
use mmlib.Argparse.Find.{find_opt, match_opt_key_or_name, strn_eq}
use mmlib.Argparse.Value.{converted, convert, int_min, int_max, is_negative}
use mmlib.Argparse.Value.Range.{IsNumber, convert_iff}
use mmlib.Argparse.Run.{ArgVal, str, int, uint, ullong, World, Libc, Parser, ret}
use mmlib.Argparse.Parse.{mm_arg_parse, process_long_opt}
use mmlib.Argparse.Parse.Ensures.{Ensures}
use mmlib.Argparse.Parse.Outcome.{LoopEnds, mm_arg_parse_ends}
use mmlib.Argparse.Parse.Store.{refused, completed, process_long_opt-stores}

-- A C library that reads plain decimal digits.
abbrev digits_value : Bytes → ℕ → ℕ
digits_value [] n = n
digits_value (c ∷ s) n = digits_value s (n * 10 + (c - b'0'))

abbrev small_libc : Libc
small_libc = record {
  isalnum = λ c. leb b'0' c && leb c b'9' || leb b'a' c && leb c b'z' || leb b'A' c && leb c b'Z';
  isspace = λ c. c == b' ';
  strtoll = λ s. (pos (digits_value s 0), [], 0);
  strtoull = λ s. (digits_value s 0, [], 0);
  strerror = λ e. [];
  opendir = λ d. none;
  os = Platform.posix;
}

abbrev output : Opt
output = record {
  name = some (codes "o|output");
  flags = opt_needval;
  defval = none;
  val = some 1;
  desc = some (codes "write to @FILE now");
}

abbrev verbose : Opt
verbose = record {
  name = some (codes "v");
  flags = opt_noval;
  defval = none;
  val = some 2;
  desc = none;
}

abbrev level : Opt
level = record {
  name = some (codes "l|level");
  flags = opt_optval;
  defval = none;
  val = some 3;
  desc = none;
}

abbrev tool : Parser (Unit {0})
tool = record {
  flags = 1;
  optv = output ∷ verbose ∷ [];
  doc = none;
  args_doc = none;
  execname = none;
  cb = none;
}

abbrev blank : World (Unit {0})
blank = record { out = []; err = []; errno = 0; stored = []; cb_data = tt }

-- "-v --output=log x" stores both values and stops at "x".
tool_run : ℤ × List (ℕ × ArgVal)
tool_run =
    elim (mm_arg_parse small_libc tool (codes "-v" ∷ codes "--output=log" ∷ codes "x" ∷ []) blank) [
      | ret n w ↦ (n, w.stored)
      | _ ↦ (pos 0, [])
    ]

abbrev command : List Bytes
command = codes "-v" ∷ codes "--output=log" ∷ codes "x" ∷ []

mm_arg_parse_ends_example :
    Ensures tool (LoopEnds small_libc tool command 1) (mm_arg_parse small_libc tool command blank)
mm_arg_parse_ends_example = mm_arg_parse_ends small_libc tool command blank (cc, (cc, (cc, tt)))

process_long_opt-stores_example :
    (process_long_opt small_libc tool (codes "output" ++ b'=' ∷ codes "log") false blank
      ≡ ret (pos 0) (record blank { stored = (1, str (some (codes "log"))) ∷ [] }))
    × (process_long_opt small_libc tool (codes "output") false blank
        ≡ refused output (codes "needs value.") blank)
    × (process_long_opt small_libc tool (codes "output" ++ b'=' ∷ codes "log") true blank
        ≡ completed none small_libc output (some (codes "log")) blank)
unfolding find_opt match_opt_key_or_name strn_eq mm_arg_opt_get_name mm_arg_opt_get_type
process_long_opt-stores_example =
    process_long_opt-stores small_libc tool output (codes "output") (codes "log") 1 blank refl refl
      (omega arith) refl refl

convert_iff_example :
    let r = small_libc.strtoll (codes "42") in
    let u = small_libc.strtoull (codes "42") in
    ((convert small_libc opt_int (some (codes "42")) ≡ converted (int (pos 42)))
      ↔ (IsNumber r × (int_min ≤ℤ r.0) × (r.0 ≤ℤ int_max) × (int (pos 42) ≡ int r.0)))
    × ((convert small_libc opt_uint (some (codes "42")) ≡ converted (uint 42))
        ↔ (IsNumber r × (r.0 ≡ pos 42) × (42 < 2 ^ 32)))
    × ((convert small_libc opt_ullong (some (codes "42")) ≡ converted (int (pos 42))) ↔ (
        (is_negative small_libc.isspace (codes "42") ≡ false)
        × IsNumber u
        × (int (pos 42) ≡ ullong u.0)))
convert_iff_example = convert_iff small_libc b'4' (codes "2") (int (pos 42)) 42

print_text_wrapped_lem_example :
    (lines : List Bytes) × (print_text_wrapped 12 (codes "write to a file") 4 (some (codes "-o"))
      ≡ some lines)
    × Wrapped 12 (codes "-o") (codes "write to a file") lines
print_text_wrapped_lem_example =
    print_text_wrapped_lem 12 4 (codes "-o") (codes "write to a file") (omega arith) (omega arith)

copy_opt_desc_bounds_example :
    (length (copy_opt_desc small_libc.isalnum (codes "to @FILE now")).0
      ≤ length (codes "to @FILE now"))
    × Fits (copy_opt_desc small_libc.isalnum (codes "to @FILE now")).1
copy_opt_desc_bounds_example = copy_opt_desc_bounds small_libc.isalnum (codes "to @FILE now")

get_first_token_length_lem_example :
    Token (codes "name=v") b'=' (get_first_token_length (codes "name=v") b'=')
get_first_token_length_lem_example = get_first_token_length_lem (codes "name=v") b'='

set_option_synopsis_fits_example :
    (length (set_option_synopsis level (codes "VALUE")) + 1 ≤ opt_synopsis_maxlen)
    ↔ (length (codes "level") + 2 * length (codes "VALUE") < 50)
unfolding mm_arg_opt_get_name mm_arg_opt_get_key
set_option_synopsis_fits_example =
    set_option_synopsis_fits level (codes "level") (codes "VALUE") (omega arith) refl refl
