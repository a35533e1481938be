-- ===== src/Argparse/Opt.antt =====
-- src/mmargparse.h: the configuration of an option, and what its name and flags say.
pub mod Names
use mmlib.Base.{
  ℕ, ◌+◌, ◌*◌, ◌/◌, ◌%◌, Bool, true, false, ◌&&◌, ◌||◌, Option, none, some, List, [], ◌∷◌, ltb, leb,
  ◌==◌, ◌!=◌, if◌then◌else◌, drop,
}
use mmlib.Base.CString.{Bytes, codes, nul, char_at}

-- Whether the option takes a value: `flags & MM_OPT_REQMASK`. The mask is the two lowest bits.
abbrev pub opt_noval : ℕ
opt_noval = 0x00

abbrev pub opt_optval : ℕ
opt_optval = 0x01

abbrev pub opt_needval : ℕ
opt_needval = 0x02

abbrev pub reqflags : ℕ → ℕ
reqflags flags = flags % 4

-- The type of the value: `flags & MM_OPT_TYPEMASK`, bits 4 to 7.
abbrev pub opt_str : ℕ
opt_str = 0x00

abbrev pub opt_int : ℕ
opt_int = 0x10

abbrev pub opt_llong : ℕ
opt_llong = 0x20

abbrev pub opt_uint : ℕ
opt_uint = 0x90

abbrev pub opt_ullong : ℕ
opt_ullong = 0xa0

-- `flags & MM_OPT_FILEPATH` and `flags & MM_OPT_DIRPATH`
abbrev pub is_filepath : ℕ → Bool
is_filepath flags = flags / 0x100 % 2 == 1

abbrev pub is_dirpath : ℕ → Bool
is_dirpath flags = flags / 0x200 % 2 == 1

-- `struct mm_arg_opt`. The pointer `val` is a location, or NULL; the flags are those of an `int`
-- that is not negative.
pub record Opt : Type 0 where
  pub name : Option Bytes
  pub flags : ℕ
  pub defval : Option Bytes
  pub val : Option ℕ
  pub desc : Option Bytes

-- `struct mm_dirent` of src/mmsysio.h: a name and a type
pub record Dirent : Type 0 where
  pub name : Bytes
  pub type : ℕ

-- The name where it is set. The functions below are reached with a name that is set and not empty:
-- `validate_options` refuses the others.
abbrev pub set_name : Opt → Bytes
set_name opt = elim (opt.name) [ none ↦ [] | some n ↦ n ]

-- 0 where there is no short key
unfoldable pub mm_arg_opt_get_key : Opt → ℕ
mm_arg_opt_get_key opt =
    let sep = char_at (set_name opt) 1 in
    if sep == b'|' || sep == nul then char_at (set_name opt) 0 else 0

unfoldable pub mm_arg_opt_get_name : Opt → Option Bytes
mm_arg_opt_get_name opt =
    let sep = char_at (set_name opt) 1 in
    if sep == nul then none else some (drop (if sep == b'|' then 2 else 0) (set_name opt))

unfoldable pub mm_arg_opt_get_type : Opt → ℕ
mm_arg_opt_get_type opt = opt.flags / 16 % 16 * 16

-- `help_opt` of src/argparse.c
pub help_opt : Opt
help_opt = record {
  name = some (codes "h|help");
  flags = opt_noval;
  defval = none;
  val = none;
  desc = some (codes "print this message and exit");
}

-- `get_first_token_length`, the loop over `len`
pub first_token_loop : Bytes → ℕ → ℕ → ℕ
first_token_loop [] breakch len = len
first_token_loop (c ∷ s) breakch len =
    let rest = first_token_loop s breakch (len + 1) in if c == breakch then len else rest

unfoldable pub get_first_token_length : Bytes → ℕ → ℕ
unfolding first_token_loop
get_first_token_length str breakch = first_token_loop str breakch 0

unfoldable pub is_valid_short_opt_key : ℕ → Bool
is_valid_short_opt_key ch = (leb b'a' ch && leb ch b'z') || (leb b'A' ch && leb ch b'Z')

abbrev pub is_name_char : ℕ → Bool
is_name_char ch = (leb b'a' ch && leb ch b'z') || (leb b'0' ch && leb ch b'9') || ch == b'-'

-- The `for` loop; `none` is its `return false`, `some i` its end at index `i`.
unfoldable pub long_name_loop : Bytes → Bool → ℕ → Option ℕ
long_name_loop [] stop_at_equal i = some i
long_name_loop (c ∷ s) stop_at_equal i =
    let rest = long_name_loop s stop_at_equal (i + 1) in
    if is_name_char c then rest else if c == b'=' && stop_at_equal then some i else none

unfoldable pub is_valid_long_opt_name : Bytes → Bool → Bool
unfolding long_name_loop
is_valid_long_opt_name [] stop_at_equal = false
is_valid_long_opt_name (c ∷ s) stop_at_equal =
    if ltb c b'a' || ltb b'z' c
    then false
    else elim (long_name_loop s stop_at_equal 1) [ none ↦ false | some i ↦ leb 2 i ]

-- Which byte of an argument is read: `none` where the read is behind the terminator.
abbrev pub read : Bytes → ℕ → Option ℕ
read [] i = if i == 0 then some nul else none
read (c ∷ s) ℕ.zero = some c
read (c ∷ s) (ℕ.suc i) = read s i

-- `is_arg_an_option`; `none` is a read behind the end of the argument.
pub is_arg_an_option : Option Bytes → Option Bool
is_arg_an_option none = some false
is_arg_an_option (some arg) =
    if char_at arg 0 != b'-'
    then some false
    else if char_at arg 1 != b'-' && char_at arg 1 != nul
    then some (is_valid_short_opt_key (char_at arg 1))
    else elim (read arg 2) [
      | none ↦ none
      | some c ↦
          some (if c != b'-' && c != nul then is_valid_long_opt_name (drop 2 arg) true else false)
    ]
