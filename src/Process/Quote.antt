-- ===== src/Process/Quote.antt =====
-- src/process-win32.c, the command line of a new process. The conversion to UTF-16 is left out: a string is
-- its bytes. Where the code writes to the buffer, the bytes written are appended; with no buffer it only
-- counts them.
use mmlib.Base.{ℕ, ◌+◌, List, [], ◌∷◌, ◌++◌, map, ◌==◌, length, replicate, if◌then◌else◌}
use mmlib.Base.CString.{Bytes}

abbrev pub backslash : ℕ
backslash = 0x5c

abbrev pub quote : ℕ
quote = b'"'

pub record Escaped : Type 0 where
  pub dst : Bytes
  pub nbackslash : ℕ

-- `while (nbackslash)`, with one backslash written in a round, and with two.
abbrev pub write_once : ℕ → Bytes
write_once nbackslash = replicate nbackslash backslash

abbrev pub write_twice : ℕ → Bytes
write_twice nbackslash = replicate (nbackslash + nbackslash) backslash

-- One character of the source.
unfoldable pub escape_char : Escaped → ℕ → Escaped
escape_char e c =
    if c == backslash
    then record { dst = e.dst; nbackslash = e.nbackslash + 1 }
    else if c == quote
    then record {
      dst = e.dst ++ (write_twice e.nbackslash ++ (backslash ∷ quote ∷ []));
      nbackslash = 0;
    }
    else record { dst = e.dst ++ (write_once e.nbackslash ++ (c ∷ [])); nbackslash = 0 }

unfoldable pub escape_loop : Bytes → Escaped → Escaped
escape_loop [] e = e
escape_loop (c ∷ src) e = escape_loop src (escape_char e c)

-- The string written, without its terminator.
unfoldable pub escape_cmd_str : Bytes → Bytes
escape_cmd_str src =
    let e = escape_loop src (record { dst = quote ∷ []; nbackslash = 0 }) in
    e.dst ++ (write_twice e.nbackslash ++ (quote ∷ []))

-- `escape_cmd_str(NULL, src)`, which counts the terminator.
abbrev pub escaped_len : Bytes → ℕ
escaped_len src = length (escape_cmd_str src) + 1

-- The strings of the block that is allocated.
abbrev pub escape_argv : List Bytes → List Bytes
escape_argv argv = map escape_cmd_str argv

-- The strings behind the first one, each with the separator before it.
unfoldable pub with_separator : ℕ → List Bytes → Bytes
with_separator sep [] = []
with_separator sep (str ∷ strv) = sep ∷ (str ++ with_separator sep strv)

unfoldable pub concat_strv : List Bytes → (sep : ℕ) → Bytes
concat_strv [] sep = []
concat_strv (str ∷ strv) sep = str ++ with_separator sep strv
