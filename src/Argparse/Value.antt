-- ===== src/Argparse/Value.antt =====
-- src/argparse.c, the value of an option: its conversion from text, and where it is stored.
pub mod Range
use mmlib.Base.{
  ℕ, ◌^◌, ◌-◌, Bool, true, false, ◌||◌, ◌&&◌, Option, none, some, List, [], ◌∷◌, ◌++◌, ltb, ◌==◌,
  ◌!=◌, if◌then◌else◌,
}
use mmlib.Base.Int.{ℤ, pos, negsuc, pos_part, ltb_ℤ}
use mmlib.Base.CString.{Bytes, codes, first}
use mmlib.Argparse.Opt.{
  Opt, opt_str, opt_int, opt_llong, opt_uint, opt_ullong, mm_arg_opt_get_key, mm_arg_opt_get_name,
  mm_arg_opt_get_type,
}
use mmlib.Argparse.Help.{get_value_type_name, linefeed, or_default}
use mmlib.Argparse.Run.{
  ArgVal, str, int, llong, uint, ullong, Libc, M, pure, ◌>>=◌, ◌>>◌, eprint, set_errno, store,
  argparse_error,
}

abbrev pub einval : ℕ
einval = 22

abbrev pub erange : ℕ
erange = 34

abbrev pub int_min : ℤ
int_min = negsuc (2 ^ 31 - 1)

abbrev pub int_max : ℤ
int_max = pos (2 ^ 31 - 1)

abbrev pub uint_max : ℤ
uint_max = pos (2 ^ 32 - 1)

-- A value, or the `errno` of a failure.
pub data Conversion : Type 0 where
  converted : ArgVal → Conversion
  refused : ℕ → Conversion

unfoldable pub cast_ll_to_argval : ℕ → ℤ → Conversion
cast_ll_to_argval type llval =
    if type == opt_llong
    then converted (llong llval)
    else if type == opt_int
    then (if ltb_ℤ llval int_min || ltb_ℤ int_max llval
        then refused erange
        else converted (int llval))
    else if type == opt_uint
    then (if ltb_ℤ llval (pos 0) || ltb_ℤ uint_max llval
        then refused erange
        else converted (uint (pos_part llval)))
    else refused einval

-- `true` where the C function returns -1: behind white space there is a minus sign.
pub is_negative : (ℕ → Bool) → Bytes → Bool
is_negative isspace [] = false
is_negative isspace (c ∷ s) =
    let rest = is_negative isspace s in if isspace c then rest else c == b'-'

-- The check that the whole string was used, then of `errno`.
unfoldable pub check_number : Bytes → ℕ → Conversion → Conversion
check_number end errno result =
    if first end != 0 then refused einval else if errno != 0 then refused errno else result

-- A string that is not empty, for a type that is not MM_OPT_STR.
unfoldable pub convert_number : Libc → ℕ → Bytes → Conversion
convert_number libc type value =
    if type == opt_ullong
    then (if is_negative (libc.isspace) value
        then refused erange
        else (let (ull, end, errno) = libc.strtoull value in
            check_number end errno (converted (ullong ull))))
    else (let (ll, end, errno) = libc.strtoll value in
        check_number end errno (cast_ll_to_argval type ll))

unfoldable pub convert : Libc → ℕ → Option Bytes → Conversion
convert libc type none = if type == opt_str then converted (str none) else refused einval
convert libc type (some []) = if type == opt_str then converted (str (some [])) else refused einval
convert libc type (some (c ∷ s)) =
    if type == opt_str then converted (str (some (c ∷ s))) else convert_number libc type (c ∷ s)

-- "Option -%c|--%s ", then the message and a linefeed.
unfoldable pub print_opt_error : {D : Type 0} → Opt → Bytes → M D (Unit {0})
print_opt_error opt msg =
    let key = mm_arg_opt_get_key opt in
    eprint (
      elim (mm_arg_opt_get_name opt) [
        | none ↦ codes "Option -" ++ (key ∷ codes " ")
        | some name ↦
            (if key != 0
              then codes "Option -" ++ (key ∷ codes "|--" ++ (name ++ codes " "))
              else codes "Option --" ++ (name ++ codes " "))
      ]
      ++ (msg ++ linefeed))

-- A NULL value is printed as glibc does.
pub invalid_value : Libc → Opt → Option Bytes → ℕ → Bytes
invalid_value libc opt value errno =
    codes "accepting "
    ++ (get_value_type_name (mm_arg_opt_get_type opt)
        ++ (codes " value type has received an invalid value \""
            ++ (or_default value (codes "(null)")
                ++ (codes "\" (" ++ (libc.strerror errno ++ codes ")")))))

-- `none` where the C function returns -1. `errno` is as before where it succeeds.
unfoldable pub conv_str_to_argval : {D : Type 0} → Libc → Opt → Option Bytes → M D (Option ArgVal)
conv_str_to_argval libc opt value = elim (convert libc (mm_arg_opt_get_type opt) value) [
  | converted v ↦ pure (some v)
  | refused errno ↦ do
    set_errno errno
    print_opt_error opt (invalid_value libc opt value errno)
    pure none
]

abbrev pub is_known_type : ℕ → Bool
is_known_type type =
    type == opt_str
    || type == opt_int
    || type == opt_uint
    || type == opt_llong
    || type == opt_ullong

-- The field of the union that is read is the one that the conversion to the option's type has set.
unfoldable pub mm_arg_opt_set_value : {D : Type 0} → Opt → ArgVal → M D ℤ
mm_arg_opt_set_value opt val = elim (opt.val) [
  | none ↦ pure (pos 0)
  | some p ↦
      (if is_known_type (mm_arg_opt_get_type opt)
        then (do store p val; pure (pos 0))
        else (do print_opt_error opt (codes "has unknown value type"); pure argparse_error))
]
