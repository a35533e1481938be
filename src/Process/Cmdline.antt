-- ===== src/Process/Cmdline.antt =====
-- src/startup-win32.c, the arguments in the command line of the process.
pub mod RoundTrip
pub mod Bounds
use mmlib.Base.{
  ℕ, suc, ◌+◌, ◌-◌, ◌*◌, ◌/◌, ◌%◌, Bool, true, false, not, ◌&&◌, ◌||◌, List, [], ◌∷◌, ◌++◌, ◌==◌,
  length, replicate, if◌then◌else◌,
}
use mmlib.Base.CString.{Bytes}

-- The arguments that are terminated, and the string that is being written.
pub record Parser : Type 0 where
  pub argv : List Bytes
  pub str : Bytes
  pub nbackslash : ℕ
  pub in_quotes : Bool
  pub prev_is_whitespace : Bool

abbrev pub is_whitespace : ℕ → Bool
is_whitespace c = c == 0x20 || (c == 0x09 || (c == 0x0d || (c == 0x0a || (c == 0x0b || c == 0x0c))))

abbrev pub write_nbackslash : Bytes → ℕ → Bytes
write_nbackslash str nbackslash = str ++ replicate nbackslash 0x5c

abbrev pub parse_backslash : Parser → Parser
parse_backslash p = record {
  argv = p.argv;
  str = p.str;
  nbackslash = p.nbackslash + 1;
  in_quotes = p.in_quotes;
  prev_is_whitespace = false;
}

abbrev pub parse_quote : Parser → Parser
parse_quote p =
    if p.nbackslash % 2 == 0
    then record {
      argv = p.argv;
      str = write_nbackslash p.str (p.nbackslash / 2);
      nbackslash = 0;
      in_quotes = not p.in_quotes;
      prev_is_whitespace = false;
    }
    else record {
      argv = p.argv;
      str = write_nbackslash p.str ((p.nbackslash - 1) / 2) ++ (b'"' ∷ []);
      nbackslash = 0;
      in_quotes = p.in_quotes;
      prev_is_whitespace = false;
    }

-- The end of an argument: the backslashes counted are kept for the next one.
abbrev pub parse_whitespace : Parser → Parser
parse_whitespace p = if p.prev_is_whitespace then p else record {
  argv = p.argv ++ (p.str ∷ []);
  str = [];
  nbackslash = p.nbackslash;
  in_quotes = p.in_quotes;
  prev_is_whitespace = true;
}

abbrev pub parse_default : Parser → ℕ → Parser
parse_default p c = record {
  argv = p.argv;
  str = write_nbackslash p.str p.nbackslash ++ (c ∷ []);
  nbackslash = 0;
  in_quotes = p.in_quotes;
  prev_is_whitespace = false;
}

-- One round of the loop.
unfoldable pub parse_char : Parser → ℕ → Parser
parse_char p c =
    if c == 0x5c
    then parse_backslash p
    else if c == b'"'
    then parse_quote p
    else if is_whitespace c && not p.in_quotes
    then parse_whitespace p
    else parse_default p c

unfoldable pub parse_loop : Bytes → Parser → Parser
parse_loop [] p = p
parse_loop (c ∷ cmdline) p = parse_loop cmdline (parse_char p c)

abbrev pub parser_init : Parser
parser_init = record {
  argv = [];
  str = [];
  nbackslash = 0;
  in_quotes = false;
  prev_is_whitespace = false;
}

abbrev pub parse_end : Parser → List Bytes
parse_end p = if p.prev_is_whitespace then p.argv else p.argv ++ (p.str ∷ [])

-- The arguments; the memory for them is there.
unfoldable pub parse_cmdline : Bytes → List Bytes
parse_cmdline cmdline = parse_end (parse_loop cmdline parser_init)

-- `maxnarg` of alloc_argv_block: the array has one cell more.
unfoldable pub max_num_args : Bytes → ℕ
max_num_args [] = 1
max_num_args (c ∷ cmdline) = let rest = max_num_args cmdline in if c == 0x20 then rest + 1 else rest
