-- ===== src/Log/Format.antt =====
-- What the lines of the log are.
use mmlib.Base.{
  ℕ, ◌+◌, ◌-◌, ◌≤◌, ◌<◌, ◌≡◌, refl, true, false, none, some, [], ◌∷◌, ◌++◌, arith, ◌==◌, ltb,
  length, length-append, length-take, take, take_all,
}
use mmlib.Base.CString.{Bytes}
use mmlib.Log.{log_header, format_line, format_log_str}

module _ (blen : ℕ) (timestamp header msg : Bytes) where
  abbrev pub line : Bytes
  line =
      timestamp
      ++ (header ++ (take (blen - length timestamp - length header - 1) msg ++ (0x0a ∷ [])))

  format_line-fits :
      length timestamp + length header + 1 < blen
      → format_line blen timestamp header msg ≡ some line
  format_line-fits h =
      let room : ltb (length header) (blen - length timestamp) ≡ true = ground arith in
      let whole = take_all (blen - length timestamp - 2) header (omega arith) in
      let plain : (length header + 1 == blen - length timestamp) ≡ false = ground arith in
      rw (room, plain, whole) refl

  length-line : length timestamp + length header + 1 < blen → length line ≤ blen
  length-line h =
      let rest = take (blen - length timestamp - length header - 1) msg in
      omega (
        arith,
        length-append timestamp (header ++ (rest ++ (0x0a ∷ []))),
        length-append header (rest ++ (0x0a ∷ [])),
        length-append rest (0x0a ∷ []),
        length-take (blen - length timestamp - length header - 1) msg,
      )

  format_line-overruns :
      blen ≤ length timestamp + length header → format_line blen timestamp header msg ≡ none
  format_line-overruns h =
      let full : ltb (length header) (blen - length timestamp) ≡ false = ground arith in
      rw full refl

-- With room for two bytes behind the header, a line is the time stamp, the header and as much of the message
-- as fits, ended by a linefeed, and it fits the buffer; in a buffer with no room behind the header, the
-- code writes behind it.
pub format_log_str_bounds :
    (blen small lvl : ℕ) (timestamp location msg : Bytes)
    → length timestamp + length (log_header lvl location) + 1 < blen
    → small ≤ length timestamp + length (log_header lvl location)
    → let header = log_header lvl location in
      (format_log_str blen timestamp lvl location msg ≡ some (line blen timestamp header msg))
      × (length (line blen timestamp header msg) ≤ blen)
      × (format_log_str small timestamp lvl location msg ≡ none)
unfolding format_log_str
format_log_str_bounds blen small lvl timestamp location msg h k =
    let header = log_header lvl location in
    (
      format_line-fits blen timestamp header msg h,
      length-line blen timestamp header msg h,
      format_line-overruns small timestamp header msg k,
    )
