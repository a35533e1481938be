-- ===== src/Process/Cmdline/Bounds.antt =====
-- The memory that alloc_argv_block has for the arguments.
use mmlib.Base.{
  ℕ, ◌+◌, ◌-◌, ◌/◌, ◌≤◌, ◌≡◌, Bool, true, false, not, ◌&&◌, List, [], ◌∷◌, ◌++◌, arith, ◌==◌,
  length, length-append, length-replicate, replicate, All, if◌then◌else◌,
}
use mmlib.Base.CString.{Bytes}
use mmlib.Process.Cmdline.{
  Parser, is_whitespace, write_nbackslash, parse_quote, parse_whitespace, parse_default, parse_char,
  parse_loop, parse_cmdline, parser_init, max_num_args,
}

-- The bytes of the strings with their terminators.
abbrev pub num_bytes : List Bytes → ℕ
num_bytes [] = 0
num_bytes (arg ∷ argv) = length arg + 1 + num_bytes argv

num_bytes-snoc :
    (argv : List Bytes) (arg : Bytes)
    → num_bytes (argv ++ (arg ∷ [])) ≡ num_bytes argv + (length arg + 1)
num_bytes-snoc [] arg = omega arith
num_bytes-snoc (a ∷ argv) arg = omega (arith, num_bytes-snoc argv arg)

length-snoc {ℓ} : {A : Type ℓ} (xs : List A) (x : A) → length (xs ++ (x ∷ [])) ≡ length xs + 1
length-snoc xs x = omega (arith, length-append xs (x ∷ []))

length-write_nbackslash : (str : Bytes) (n : ℕ) → length (write_nbackslash str n) ≡ length str + n
length-write_nbackslash str n =
    omega (arith, length-append str (replicate n 0x5c), length-replicate {A = ℕ} n 0x5c)

if_both {ℓ κ} :
    {A : Type ℓ} (P : A → Type κ) (b : Bool) (x y : A) → P x → P y → P (if b then x else y)
if_both P true x y px py = px
if_both P false x y px py = py

-- What is written, and what is owed for backslashes.
abbrev written : Parser → ℕ
written p = num_bytes p.argv + length p.str + p.nbackslash

module _ (p : Parser) where
  parse_quote-written : written (parse_quote p) ≤ written p + 1
  parse_quote-written = ground (
    arith,
    length-write_nbackslash p.str (p.nbackslash / 2),
    length-write_nbackslash p.str ((p.nbackslash - 1) / 2),
    length-snoc (write_nbackslash p.str ((p.nbackslash - 1) / 2)) b'"',
  )

  parse_whitespace-written : written (parse_whitespace p) ≤ written p + 1
  parse_whitespace-written = ground (arith, num_bytes-snoc p.argv p.str)

  parse_default-written : (c : ℕ) → written (parse_default p c) ≤ written p + 1
  parse_default-written c = omega (
    arith,
    length-write_nbackslash p.str p.nbackslash,
    length-snoc (write_nbackslash p.str p.nbackslash) c,
  )

  parse_char-written : (c : ℕ) → written (parse_char p c) ≤ written p + 1
  unfolding parse_char
  parse_char-written c =
      let Fits : Parser → Type 0 = λ q. written q ≤ written p + 1 in
      if_both Fits (c == 0x5c) _ _ (omega arith) (
        if_both Fits (c == b'"') _ _ parse_quote-written (
          if_both Fits (is_whitespace c && not p.in_quotes) _ _ parse_whitespace-written
            (parse_default-written c)))

  -- Only a white space ends an argument.
  parse_char-argv :
      (c : ℕ) → length (parse_char p c).argv ≤ length p.argv + (if is_whitespace c then 1 else 0)
  unfolding parse_char
  parse_char-argv c = ground (arith, length-snoc p.argv p.str)

parse_loop-written :
    (cmdline : Bytes) (p : Parser) → written (parse_loop cmdline p) ≤ written p + length cmdline
unfolding parse_loop
parse_loop-written [] p = omega arith
parse_loop-written (c ∷ cmdline) p =
    omega (arith, parse_char-written p c, parse_loop-written cmdline (parse_char p c))

parse_loop-argv :
    (cmdline : Bytes) (p : Parser)
    → All (λ c. is_whitespace c ≡ true → c ≡ 0x20) cmdline
    → length (parse_loop cmdline p).argv + 1 ≤ length p.argv + max_num_args cmdline
unfolding parse_loop max_num_args
parse_loop-argv [] p _ = omega arith
parse_loop-argv (c ∷ cmdline) p (h, hs) =
    let step = parse_char-argv p c in
    let rest = parse_loop-argv cmdline (parse_char p c) hs in ground (arith, step, rest, h)

-- The strings of the arguments with their terminators fit the memory for them, which has one byte more than
-- the command line; and the arguments of a command line in which the only white space is the space character
-- fit their array.
pub parse_cmdline_fits :
    (cmdline spaced : Bytes)
    → All (λ c. is_whitespace c ≡ true → c ≡ 0x20) spaced
    → (num_bytes (parse_cmdline cmdline) ≤ length cmdline + 1)
      × (length (parse_cmdline spaced) ≤ max_num_args spaced)
unfolding parse_cmdline
parse_cmdline_fits cmdline spaced spaces =
    let p = parse_loop cmdline parser_init in
    let q = parse_loop spaced parser_init in
    let used : written p ≤ 0 + length cmdline = parse_loop-written cmdline parser_init in
    let count : length q.argv + 1 ≤ 0 + max_num_args spaced =
      parse_loop-argv spaced parser_init spaces in
    (
      ground (arith, used, num_bytes-snoc p.argv p.str),
      ground (arith, count, length-snoc q.argv q.str),
    )
