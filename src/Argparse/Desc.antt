-- ===== src/Argparse/Desc.antt =====
-- src/argparse.c, the description of an option: the value name that it announces by "@NAME", and the
-- copy that drops the '@'.
pub mod Bounds
pub mod Names
use mmlib.Base.{
  ℕ, zero, suc, ◌+◌, ◌-◌, Bool, true, false, not, ◌&&◌, ◌||◌, Option, none, some, [], ◌∷◌, ◌++◌,
  ltb, leb, ◌==◌, ◌!=◌, if◌then◌else◌, length, take,
}
use mmlib.Base.CString.{Bytes, char_at}

-- VALUE_NAME_MAXLEN, the size of the buffer for the name
abbrev pub value_name_maxlen : ℕ
value_name_maxlen = 16

unfoldable pub is_char_valid_for_value_name : ℕ → Bool
is_char_valid_for_value_name ch = (leb b'A' ch && leb ch b'Z') || ch == b'-' || ch == b'_'

-- The `for` loop of `validate_value_name`, with the rounds left and the index.
pub value_name_loop : Bytes → (rounds : ℕ) → ℕ → ℕ
value_name_loop s zero i = 0
value_name_loop [] (suc n) i = 0
value_name_loop (c ∷ s) (suc n) i =
    let rest = value_name_loop s n (i + 1) in
    if is_char_valid_for_value_name c then rest else if ltb 1 i then i else rest

pub validate_value_name : Bytes → ℕ
validate_value_name str = value_name_loop str value_name_maxlen 0

-- The `for` loop of `match_value`: whether the string begins with the name.
pub match_loop : Bytes → Bytes → Bool
match_loop str [] = true
match_loop [] (v ∷ valname) = false
match_loop (c ∷ str) (v ∷ valname) =
    let rest = match_loop str valname in if v != c then false else rest

pub match_value : Bytes → Bytes → Bool
match_value str valname =
    match_loop str valname && not (is_char_valid_for_value_name (char_at str (length valname)))

-- What one round of `copy_opt_desc` does at a byte: what it writes, how many further bytes of the
-- source it passes over, and the value name after it.
pub record Round : Type 0 where
  pub written : Bytes
  pub skipped : ℕ
  pub valname : Option Bytes

abbrev pub copy_byte : ℕ → Option Bytes → Round
copy_byte c valname = record { written = c ∷ []; skipped = 0; valname = valname }

-- The byte is an '@' that begins a word; `s` is what follows it.
pub copy_value_name : Bytes → Option Bytes → Round
copy_value_name s none =
    let namelen = validate_value_name s in
    if namelen == 0
    then copy_byte b'@' none
    else record { written = take namelen s; skipped = namelen; valname = some (take namelen s) }
copy_value_name s (some name) =
    if match_value s name
    then record { written = name; skipped = length name; valname = some name }
    else copy_byte b'@' (some name)

-- `isalnum` is the C library's, and a start of the text has no byte before it.
abbrev pub begins_word : (ℕ → Bool) → Option ℕ → Bool
begins_word isalnum none = true
begins_word isalnum (some c) = not (isalnum c)

pub copy_round : (ℕ → Bool) → Option ℕ → ℕ → Bytes → Option Bytes → Round
copy_round isalnum prev c s valname =
    if c == b'@' && begins_word isalnum prev then copy_value_name s valname else copy_byte c valname

-- The loop over `src`: a list of the bytes left, of which the next `skip` are passed over.
pub copy_loop :
    (ℕ → Bool) → Bytes → (skip : ℕ) → (prev : Option ℕ) → Option Bytes → Bytes × Option Bytes
copy_loop isalnum [] skip prev valname = ([], valname)
copy_loop isalnum (c ∷ s) (suc skip) prev valname = copy_loop isalnum s skip (some c) valname
copy_loop isalnum (c ∷ s) zero prev valname =
    let r = copy_round isalnum prev c s valname in
    let (out, name) = copy_loop isalnum s (r.skipped) (some c) (r.valname) in
    (r.written ++ out, name)

-- The copied description, and the value name where one is found.
pub copy_opt_desc : (ℕ → Bool) → Bytes → Bytes × Option Bytes
copy_opt_desc isalnum src = copy_loop isalnum src 0 none none
