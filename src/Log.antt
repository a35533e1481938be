-- ===== src/Log.antt =====
-- src/log.c, the lines of the log. The time stamp of a line, its message and the results of mm_write come
-- from the C library and the system.
pub mod Format
mod Examples
use mmlib.Base.{
  ℕ, zero, suc, ◌+◌, ◌-◌, ◌<◌, Bool, true, false, ◌||◌, Option, none, some, List, [], ◌∷◌, ◌++◌,
  ◌==◌, ltb, length, take, drop, replicate, if◌then◌else◌,
}
use mmlib.Base.Int.{ℤ, pos, negsuc, ltb_ℤ}
use mmlib.Base.CString.{Bytes, codes, nul, bytes_eq}

abbrev pub log_line_maxlen : ℕ
log_line_maxlen = 256

abbrev pub log_error : ℕ
log_error = 1

-- The table `loglevel`. Behind its end, where the code reads other memory, the name is empty here.
abbrev pub loglevel : List Bytes
loglevel = codes "FATAL" ∷ codes "ERROR" ∷ codes "WARN" ∷ codes "INFO" ∷ codes "DEBUG" ∷ []

abbrev level_name : List Bytes → ℕ → Bytes
level_name [] lvl = []
level_name (name ∷ names) zero = name
level_name (name ∷ names) (suc lvl) = level_name names lvl

-- init_log: the level that the environment sets, -1 (MM_LOG_NONE) for a name that is none.
unfoldable pub find_level : Bytes → List Bytes → ℕ → ℤ
find_level envlvl [] i = negsuc 0
find_level envlvl (name ∷ names) i =
    let rest = find_level envlvl names (i + 1) in if bytes_eq name envlvl then pos i else rest

unfoldable pub init_log : (maxloglvl : ℤ) → (envlvl : Option Bytes) → ℤ
init_log maxloglvl none = maxloglvl
init_log maxloglvl (some envlvl) = find_level envlvl loglevel 0

-- `%-5s`
abbrev pad : ℕ → Bytes → Bytes
pad width s = s ++ replicate (width - length s) 0x20

-- " %-5s %-16s : "
abbrev pub log_header : (lvl : ℕ) → (location : Bytes) → Bytes
log_header lvl location =
    0x20
    ∷ (pad 5 (level_name loglevel lvl) ++ (0x20 ∷ (pad 16 location ++ (0x20 ∷ b':' ∷ 0x20 ∷ []))))

-- The bytes of the line; `none` where the code writes behind the buffer, which it does where the header has no room.
-- A header that fills all but one byte of the room loses its last byte, and has the terminator in its place.
abbrev pub format_line : (blen : ℕ) → (timestamp header msg : Bytes) → Option Bytes
format_line blen timestamp header msg =
    let rlen = blen - length timestamp in
    let len = length header in
    let terminator = if len + 1 == rlen then nul ∷ [] else [] in
    if ltb len rlen
    then some (
        timestamp
        ++ (take (rlen - 2) header ++ (terminator ++ (take (rlen - len - 1) msg ++ (0x0a ∷ [])))))
    else none

unfoldable pub format_log_str :
    (blen : ℕ) → (timestamp : Bytes) → (lvl : ℕ) → (location msg : Bytes) → Option Bytes
format_log_str blen timestamp lvl location msg =
    format_line blen timestamp (log_header lvl location) msg

-- The loop of mm_log: the bytes written, for the results of mm_write, of which `none` is an error. With no
-- result left, the loop has not ended.
unfoldable pub write_loop : List (Option ℕ) → Bytes → Bytes
write_loop [] line = []
write_loop (none ∷ results) line = []
write_loop (some r ∷ results) line =
    let rest = write_loop results (drop r line) in
    take r line ++ (if length line - r == 0 then [] else rest)

-- What mm_log writes; `none` where it writes behind its buffer.
unfoldable pub mm_log :
    (maxloglvl lvl : ℤ) → (timestamp location msg : Bytes) → List (Option ℕ) → Option Bytes
mm_log maxloglvl (negsuc n) timestamp location msg results = some []
mm_log maxloglvl (pos lvl) timestamp location msg results =
    if ltb_ℤ maxloglvl (pos lvl)
    then some []
    else elim (format_log_str log_line_maxlen timestamp lvl location msg) [
      | none ↦ none
      | some line ↦ some (write_loop results line)
    ]

-- Whether the loop ends with an mm_write that fails, and whether mm_log does.
unfoldable pub write_fails : List (Option ℕ) → Bytes → Bool
write_fails [] line = false
write_fails (none ∷ results) line = true
write_fails (some r ∷ results) line =
    let rest = write_fails results (drop r line) in if length line - r == 0 then false else rest

abbrev line_fails : List (Option ℕ) → Option Bytes → Bool
line_fails results none = false
line_fails results (some line) = write_fails results line

unfoldable pub log_fails :
    (maxloglvl lvl : ℤ) → (timestamp location msg : Bytes) → List (Option ℕ) → Bool
log_fails maxloglvl (negsuc n) timestamp location msg results = false
log_fails maxloglvl (pos lvl) timestamp location msg results =
    if ltb_ℤ maxloglvl (pos lvl)
    then false
    else line_fails results (format_log_str log_line_maxlen timestamp lvl location msg)
