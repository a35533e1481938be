-- ===== src/Process/Cmdline/RoundTrip.antt =====
-- A new process finds in its command line the arguments that it was started with.
use mmlib.Base.{
  subst, ℕ_discrete, zero, ℕ, suc, ◌+◌, ◌-◌, ◌/◌, ◌%◌, ◌≡◌, refl, sym, ◌∙◌, ap, true, false, List,
  [], ◌∷◌, ◌++◌, append_assoc, append-nil, arith, ◌==◌, replicate,
}
use mmlib.Base.CString.{Bytes}
use mmlib.Process.Quote.{
  backslash, quote, Escaped, escape_char, escape_loop, escape_cmd_str, escape_argv, concat_strv,
  with_separator, write_once,
}
use mmlib.Process.Cmdline.{Parser, parse_char, parse_loop, parse_cmdline, parser_init, parse_end}

parse_loop-append :
    (a b : Bytes) (p : Parser) → parse_loop (a ++ b) p ≡ parse_loop b (parse_loop a p)
unfolding parse_loop
parse_loop-append [] b p = refl
parse_loop-append (c ∷ a) b p = parse_loop-append a b (parse_char p c)

-- Within quotes, behind `str` and so many backslashes.
abbrev quoted : List Bytes → Bytes → ℕ → Parser
quoted argv str n = record {
  argv = argv;
  str = str;
  nbackslash = n;
  in_quotes = true;
  prev_is_whitespace = false;
}

-- Behind the closing quotation mark of an argument, and behind the space that follows.
abbrev finished : List Bytes → Bytes → Parser
finished argv str = record {
  argv = argv;
  str = str;
  nbackslash = 0;
  in_quotes = false;
  prev_is_whitespace = false;
}

abbrev between : List Bytes → Parser
between argv = record {
  argv = argv;
  str = [];
  nbackslash = 0;
  in_quotes = false;
  prev_is_whitespace = true;
}

parse_loop-backslashes :
    (n m : ℕ) (argv : List Bytes) (str : Bytes)
    → parse_loop (replicate n backslash) (quoted argv str m) ≡ quoted argv str (n + m)
unfolding parse_loop parse_char
parse_loop-backslashes zero m argv str = ap (quoted argv str) (omega arith)
parse_loop-backslashes (suc n) m argv str =
    parse_loop-backslashes n (m + 1) argv str ∙ ap (quoted argv str) (omega arith)

replicate-snoc : (n : ℕ) → replicate (n + 1) backslash ≡ replicate n backslash ++ (backslash ∷ [])
replicate-snoc zero = refl
replicate-snoc (suc n) =
    let same : suc n + 1 ≡ suc (n + 1) = omega arith in
    rw same (ap (λ xs. backslash ∷ xs) (replicate-snoc n))

-- A quotation mark behind an even or an odd number of backslashes.
parse_quote-even :
    (argv : List Bytes) (str : Bytes) (n : ℕ)
    → parse_char (quoted argv str (n + n)) quote ≡ finished argv (str ++ write_once n)
unfolding parse_char
parse_quote-even argv str n =
    let even : (n + n) % 2 ≡ 0 = omega arith in
    let half : (n + n) / 2 ≡ n = omega arith in rw (even, half) refl

parse_quote-odd :
    (argv : List Bytes) (str : Bytes) (n : ℕ)
    → parse_char (parse_char (quoted argv str (n + n)) backslash) quote
      ≡ quoted argv ((str ++ write_once n) ++ (quote ∷ [])) 0
unfolding parse_char
parse_quote-odd argv str n =
    let odd : (n + n + 1) % 2 ≡ 1 = omega arith in
    let half : (n + n + 1 - 1) / 2 ≡ n = omega arith in rw (odd, half) refl

parse_char-default :
    (argv : List Bytes) (str : Bytes) (n c : ℕ)
    → (c == backslash) ≡ false
    → (c == quote) ≡ false
    → parse_char (quoted argv str n) c ≡ quoted argv ((str ++ write_once n) ++ (c ∷ [])) 0
unfolding parse_char
parse_char-default argv str n c e f = ground (arith, e, f)

-- The bytes written for `done`: a parser that reads them is behind `str`, and the backslashes counted are
-- those that `done` has more.
record Tracks (p : Parser) (argv : List Bytes) (done : Bytes) (e : Escaped) : Type 0 where
  str : Bytes
  reads : parse_loop e.dst p ≡ quoted argv str 0
  rest : str ++ write_once e.nbackslash ≡ done

module _ (p : Parser) (argv : List Bytes) where
  reads-backslashes :
      (dst str more : Bytes) (n : ℕ)
      → parse_loop dst p ≡ quoted argv str 0
      → parse_loop (dst ++ (replicate n backslash ++ more)) p ≡ parse_loop more (quoted argv str n)
  reads-backslashes dst str more n e =
      parse_loop-append dst (replicate n backslash ++ more) p
      ∙ ap (parse_loop (replicate n backslash ++ more)) e
      ∙ parse_loop-append (replicate n backslash) more (quoted argv str 0)
      ∙ ap (parse_loop more)
          (parse_loop-backslashes n 0 argv str ∙ ap (quoted argv str) (omega arith))

  Tracks-backslash :
      (done : Bytes) (e : Escaped)
      → Tracks p argv done e
      → Tracks p argv (done ++ (backslash ∷ [])) (escape_char e backslash)
  unfolding escape_char
  Tracks-backslash done e t = record {
    str = t.str;
    reads = t.reads;
    rest =
        ap (λ w. t.str ++ w) (replicate-snoc e.nbackslash)
        ∙ sym (append_assoc t.str (write_once e.nbackslash) (backslash ∷ []))
        ∙ ap (λ w. w ++ (backslash ∷ [])) t.rest;
  }

  -- A character that is written makes the argument what was read so far.
  written :
      (done : Bytes) (e : Escaped) (c : ℕ) (t : Tracks p argv done e)
      → ((t.str ++ write_once e.nbackslash) ++ (c ∷ [])) ++ [] ≡ done ++ (c ∷ [])
  written done e c t = append-nil _ ∙ ap (λ w. w ++ (c ∷ [])) t.rest

  Tracks-quote :
      (done : Bytes) (e : Escaped)
      → Tracks p argv done e
      → Tracks p argv (done ++ (quote ∷ [])) (escape_char e quote)
  unfolding escape_char parse_loop
  Tracks-quote done e t = record {
    str = (t.str ++ write_once e.nbackslash) ++ (quote ∷ []);
    reads =
        reads-backslashes e.dst t.str (backslash ∷ quote ∷ []) (e.nbackslash + e.nbackslash) t.reads
        ∙ parse_quote-odd argv t.str e.nbackslash;
    rest = written done e quote t;
  }

  Tracks-default :
      (done : Bytes) (e : Escaped) (c : ℕ)
      → (c == backslash) ≡ false
      → (c == quote) ≡ false
      → Tracks p argv done e
      → Tracks p argv (done ++ (c ∷ [])) (escape_char e c)
  unfolding escape_char parse_loop
  Tracks-default done e c no_backslash no_quote t =
      rw (no_backslash, no_quote)
        record {
          str = (t.str ++ write_once e.nbackslash) ++ (c ∷ []);
          reads =
              reads-backslashes e.dst t.str (c ∷ []) e.nbackslash t.reads
              ∙ parse_char-default argv t.str e.nbackslash c no_backslash no_quote;
          rest = written done e c t;
        }

  Tracks-char :
      (done : Bytes) (e : Escaped) (c : ℕ)
      → Tracks p argv done e
      → Tracks p argv (done ++ (c ∷ [])) (escape_char e c)
  Tracks-char done e c t = elim (ℕ_discrete c backslash) [
    | yes same ↦
        subst (λ k. Tracks p argv (done ++ (k ∷ [])) (escape_char e k)) (sym same)
          (Tracks-backslash done e t)
    | no other ↦ elim (ℕ_discrete c quote) [
      | yes same ↦
          subst (λ k. Tracks p argv (done ++ (k ∷ [])) (escape_char e k)) (sym same)
            (Tracks-quote done e t)
      | no plain ↦ Tracks-default done e c (ground (arith, other)) (ground (arith, plain)) t
    ]
  ]

  Tracks-loop :
      (src done : Bytes) (e : Escaped)
      → Tracks p argv done e
      → Tracks p argv (done ++ src) (escape_loop src e)
  unfolding escape_loop
  Tracks-loop [] done e t = rw (append-nil done) t
  Tracks-loop (c ∷ src) done e t =
      rw (← append_assoc done (c ∷ []) src)
        (Tracks-loop src (done ++ (c ∷ [])) (escape_char e c) (Tracks-char done e c t))

  -- An argument that was escaped is read whole.
  parse_loop-escape_cmd_str :
      (arg : Bytes)
      → parse_char p quote ≡ quoted argv [] 0
      → parse_loop (escape_cmd_str arg) p ≡ finished argv arg
  unfolding escape_cmd_str parse_loop
  parse_loop-escape_cmd_str arg opens =
      let e = escape_loop arg (record { dst = quote ∷ []; nbackslash = 0 }) in
      let t =
        Tracks-loop arg [] (record { dst = quote ∷ []; nbackslash = 0 })
          (record { str = []; reads = opens; rest = refl }) in
      reads-backslashes e.dst t.str (quote ∷ []) (e.nbackslash + e.nbackslash) t.reads
      ∙ parse_quote-even argv t.str e.nbackslash
      ∙ ap (finished argv) t.rest

opens : (argv : List Bytes) → parse_char (between argv) quote ≡ quoted argv [] 0
unfolding parse_char
opens argv = refl

parse_end-with_separator :
    (args argv : List Bytes) (arg : Bytes)
    → parse_end (parse_loop (with_separator 0x20 (escape_argv args)) (finished argv arg))
      ≡ argv ++ (arg ∷ args)
unfolding with_separator parse_loop parse_char
parse_end-with_separator [] argv arg = refl
parse_end-with_separator (next ∷ args) argv arg =
    let here = argv ++ (arg ∷ []) in
    let rest = with_separator 0x20 (escape_argv args) in
    ap parse_end (
      parse_loop-append (escape_cmd_str next) rest (between here)
      ∙ ap (parse_loop rest) (parse_loop-escape_cmd_str (between here) here next (opens here)))
    ∙ parse_end-with_separator args here next
    ∙ append_assoc argv (arg ∷ []) (next ∷ args)

-- The arguments that are escaped and joined by spaces, one or more, are those that parse_cmdline gives.
pub parse_cmdline-escape_argv :
    (arg : Bytes) (args : List Bytes)
    → parse_cmdline (concat_strv (escape_argv (arg ∷ args)) 0x20) ≡ arg ∷ args
unfolding parse_cmdline concat_strv parse_char
parse_cmdline-escape_argv arg args =
    let rest = with_separator 0x20 (escape_argv args) in
    ap parse_end (
      parse_loop-append (escape_cmd_str arg) rest parser_init
      ∙ ap (parse_loop rest) (parse_loop-escape_cmd_str parser_init [] arg refl))
    ∙ parse_end-with_separator args [] arg
