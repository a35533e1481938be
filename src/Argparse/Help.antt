-- ===== src/Argparse/Help.antt =====
-- src/argparse.c, the help text of an option and of a program, as bytes written to a stream.
pub mod Synopsis
pub mod Usage
use mmlib.Base.{
  ℕ, zero, suc, ◌+◌, ◌-◌, Bool, true, false, ◌&&◌, ◌||◌, Option, none, some, List, [], ◌∷◌, ◌++◌,
  leb, ◌==◌, ◌!=◌, if◌then◌else◌, length, take, drop,
}
use mmlib.Base.CString.{Bytes, codes, nul, char_at, first}
use mmlib.Argparse.Opt.{
  Opt, opt_noval, opt_needval, opt_str, opt_int, opt_llong, opt_uint, opt_ullong, reqflags,
  mm_arg_opt_get_key, mm_arg_opt_get_name, mm_arg_opt_get_type, help_opt, get_first_token_length,
}
use mmlib.Argparse.Desc.{copy_opt_desc}
use mmlib.Argparse.Wrap.{print_text_wrapped}

abbrev pub linefeed : Bytes
linefeed = 0x0a ∷ []

abbrev pub opt_indent_len : ℕ
opt_indent_len = 30

abbrev pub line_maxlength : ℕ
line_maxlength = 80

-- OPT_SYNOPSIS_MAXLEN: VALUE_NAME_MAXLEN + LONGOPT_NAME_MAXLEN + 16
abbrev pub opt_synopsis_maxlen : ℕ
opt_synopsis_maxlen = 64

pub get_value_type_name : ℕ → Bytes
get_value_type_name type =
    if type == opt_str
    then codes "string"
    else if type == opt_int
    then codes "int"
    else if type == opt_llong
    then codes "long long"
    else if type == opt_uint
    then codes "unsigned int"
    else if type == opt_ullong
    then codes "unsigned long long"
    else codes "unknown"

-- The part for the short key.
pub key_synopsis : ℕ → ℕ → Bytes → Bytes
key_synopsis key req valname =
    if key == 0
    then []
    else if req == opt_noval
    then b'-' ∷ key ∷ []
    else if req == opt_needval
    then b'-' ∷ key ∷ b' ' ∷ valname
    else b'-' ∷ key ∷ b' ' ∷ b'[' ∷ valname ++ b']' ∷ []

-- The part for the long name.
pub name_synopsis : Option Bytes → ℕ → Bytes → Bytes
name_synopsis none req valname = []
name_synopsis (some name) req valname =
    if req == opt_noval
    then codes "--" ++ name
    else if req == opt_needval
    then codes "--" ++ (name ++ b'=' ∷ valname)
    else codes "--" ++ (name ++ (codes "[=" ++ (valname ++ b']' ∷ [])))

pub separator : ℕ → Option Bytes → Bytes
separator key none = []
separator key (some name) = if key == 0 then [] else codes ", "

-- What is written to the buffer; the returned length is the length of it.
pub set_option_synopsis : Opt → Bytes → Bytes
set_option_synopsis opt valname =
    let key = mm_arg_opt_get_key opt in
    let name = mm_arg_opt_get_name opt in
    let req = reqflags (opt.flags) in
    codes "  "
    ++ (key_synopsis key req valname ++ (separator key name ++ name_synopsis name req valname))

-- A list of lines as bytes. Of a text that does not wrap nothing is printed.
pub put_lines : Option (List Bytes) → Bytes
put_lines none = []
put_lines (some []) = []
put_lines (some (l ∷ ls)) = l ++ (linefeed ++ put_lines (some ls))

-- "%s%s must be a%s integer.", for a value that is a number
pub type_doc : ℕ → ℕ → Bytes → Bytes → Bytes
type_doc type req desc value_name =
    if type != opt_str && req != opt_noval
    then (if length desc == 0 then [] else codes " ")
      ++ (value_name
          ++ (codes " must be a"
              ++ ((if type == opt_uint || type == opt_ullong
                    then codes " non negative"
                    else codes "n")
                  ++ codes " integer.")))
    else []

abbrev pub or_default : {A : Type 0} → Option A → A → A
or_default none d = d
or_default (some a) d = a

-- `isalnum` is the C library's. `desc_len` is that of the description before it is copied.
pub print_option : (ℕ → Bool) → Opt → Bytes
print_option isalnum opt =
    let opt_desc = or_default (opt.desc) [] in
    let (copied, name) = copy_opt_desc isalnum opt_desc in
    let value_name = or_default name (codes "VALUE") in
    let synopsis = set_option_synopsis opt value_name in
    let desc =
      copied ++ type_doc (mm_arg_opt_get_type opt) (reqflags (opt.flags)) opt_desc value_name in
    let wrapped = λ (header : Bytes).
      put_lines (print_text_wrapped line_maxlength desc opt_indent_len (some header)) in
    if leb opt_indent_len (length synopsis)
    then synopsis ++ (linefeed ++ wrapped [])
    else wrapped synopsis

-- `while (args_doc[len] == '\n') len++`
pub skip_linefeeds : Bytes → Bytes
skip_linefeeds [] = []
skip_linefeeds (c ∷ s) = let rest = skip_linefeeds s in if c == 0x0a then rest else c ∷ s

-- The loop of `print_synopsis`, on fuel; `none` means that the fuel ran out.
pub synopsis_loop : ℕ → Bytes → Bytes → Option Bytes
synopsis_loop zero execname args_doc = none
synopsis_loop (suc fuel) execname [] = some []
synopsis_loop (suc fuel) execname (c ∷ s) =
    let len = get_first_token_length (c ∷ s) 0x0a in
    let line = codes "  " ++ (execname ++ (codes " " ++ (take len (c ∷ s) ++ linefeed))) in
    elim (synopsis_loop fuel execname (skip_linefeeds (drop len (c ∷ s)))) [
      | none ↦ none
      | some rest ↦ some (line ++ rest)
    ]

pub print_synopsis : Option Bytes → Option Bytes → Option Bytes
print_synopsis execname args_doc =
    let doc = or_default args_doc (codes "[options] args...") in
    synopsis_loop (length doc + 1) (or_default execname (codes "PROGRAM")) doc

-- `parser->doc`, between two linefeeds
pub print_doc : Option Bytes → Bytes
print_doc none = []
print_doc (some doc) =
    linefeed ++ (put_lines (print_text_wrapped line_maxlength doc 0 none) ++ linefeed)

pub print_options : (ℕ → Bool) → List Opt → Bytes
print_options isalnum [] = print_option isalnum help_opt
print_options isalnum (opt ∷ optv) = print_option isalnum opt ++ print_options isalnum optv

pub print_help : (ℕ → Bool) → List Opt → (execname args_doc doc : Option Bytes) → Bytes
print_help isalnum optv execname args_doc doc =
    codes "Usage:"
    ++ (linefeed
        ++ (or_default (print_synopsis execname args_doc) []
            ++ (print_doc doc
                ++ (linefeed ++ (codes "Options:" ++ (linefeed ++ print_options isalnum optv))))))
