-- ===== src/Argparse/Parse/Outcome.antt =====
-- How mm_arg_parse ends, and where it stops.
use mmlib.Base.{
  ℕ, zero, suc, ◌+◌, ◌≤◌, ◌≡◌, refl, ◌≢◌, ◌⊎◌, inl, inr, Bool, true, false, Option, some, List, [],
  ◌∷◌, arith, ◌==◌, ◌!=◌, ◌&&◌, not, length, drop, get_elem?, All,
}
use mmlib.Base.Int.{ℤ, pos, negsuc}
use mmlib.Base.CString.{Bytes, codes, nul, char_at}
use mmlib.Argparse.Opt.{Opt, is_valid_short_opt_key}
use mmlib.Argparse.Find.{validate_options}
use mmlib.Argparse.Complete.{complete_longopts, complete_shortopts}
use mmlib.Argparse.Run.{
  Libc, Parser, World, no_exit, is_completing, Run, ret, exited, fault, argparse_complete,
  argparse_error,
}
use mmlib.Argparse.Parse.{
  is_neg, Next, stop, go, stop_early, after, head?, mm_arg_parse_complete, parse_round, parse_loop,
  mm_arg_parse,
}
use mmlib.Argparse.Parse.Ensures.{
  Ensures, bind, if_ends, Failure, AtMost, IsRead, early_stop_parsing_ends, process_short_opt_ends,
  process_long_opt_ends,
}

-- An argument at which options end: it does not begin by '-', or is "-", or goes on behind the '-' with
-- what is neither a letter nor a '-'.
abbrev pub IsOperand : Bytes → Type 0
IsOperand arg =
    (char_at arg 0 ≢ b'-')
    ⊎ ((is_valid_short_opt_key (char_at arg 1) ≡ false) × (char_at arg 1 ≢ b'-'))

-- The argument "--".
abbrev pub IsTerminator : Bytes → Type 0
IsTerminator arg = (char_at arg 0 ≡ b'-') × (char_at arg 1 ≡ b'-') × (char_at arg 2 ≡ nul)

-- The first `n` arguments are options and their values, and what follows is not.
pub data StopsAt (args : List Bytes) (n : ℕ) : Type 0 where
  all_read : n ≡ length args → StopsAt args n
  operand : (arg : Bytes) → get_elem? args n ≡ some arg → IsOperand arg → StopsAt args n
  terminator :
      (arg : Bytes) (k : ℕ)
      → n ≡ suc k
      → get_elem? args k ≡ some arg
      → IsTerminator arg
      → StopsAt args n

StopsAt-cons :
    {arg : Bytes} {rest : List Bytes} {n : ℕ} → StopsAt rest n → StopsAt (arg ∷ rest) (suc n)
StopsAt-cons (all_read e) = all_read (omega arith)
StopsAt-cons (operand a at is) = operand a at is
StopsAt-cons (terminator a k e at is) = terminator a (suc k) (omega arith) at is

module _ {D : Type 0} (libc : Libc) (parser : Parser D) where
  abbrev RoundEnds : Bytes → ℕ → Next → Type 0
  RoundEnds arg index (stop (pos n)) =
      ((n ≡ index) × IsOperand arg) ⊎ ((n ≡ index + 1) × IsTerminator arg)
  RoundEnds arg index (stop (negsuc k)) = no_exit parser ≡ true
  RoundEnds arg index (go skip) = skip ≤ 1

  stop_early_ends :
      (arg : Bytes) (index : ℕ) (r : ℤ) (w : World D)
      → Failure parser r
      → Ensures parser (RoundEnds arg index) (stop_early libc parser r w)
  stop_early_ends arg index r w h =
      bind parser (λ v. (no_exit parser ≡ true) × Failure parser v) (RoundEnds arg index) _ _
        (early_stop_parsing_ends libc parser r w h)
        (elim [ pos n ↦ λ w' (e, f). absurd f | negsuc n ↦ λ w' (e, f). e ])

  after_ends :
      (arg : Bytes) (index : ℕ) (r : ℤ) (w : World D)
      → AtMost parser 1 r
      → Ensures parser (RoundEnds arg index) (after libc parser r w)
  after_ends arg index (pos n) w h = h
  after_ends arg index (negsuc n) w h = stop_early_ends arg index (negsuc n) w tt

  validate_options_ends :
      (optv : List Opt) (w : World D) → Ensures parser (λ _. Unit) (validate_options optv w)
  unfolding validate_options
  validate_options_ends [] w = tt
  validate_options_ends (opt ∷ optv) w = ground (arith, validate_options_ends optv w)

  any_ends :
      {A : Type 0} (P : A → Type 0) (r : Run D A)
      → Ensures parser P r
      → Ensures parser (λ _. Unit) r
  any_ends P (ret a w) h = tt
  any_ends P (exited code w) h = h
  any_ends P fault h = h

  mm_arg_parse_complete_ends :
      (arg : Option Bytes) (w : World D)
      → Ensures parser (λ _. Unit) (mm_arg_parse_complete libc parser arg w)
  unfolding mm_arg_parse_complete complete_longopts complete_shortopts
  mm_arg_parse_complete_ends arg w =
      bind parser (λ _. Unit) (λ _. Unit) _ _ (validate_options_ends parser.optv w)
        (λ invalid w' _.
          if_ends parser (λ _. Unit) (is_neg invalid) _ _ w'
            (λ _. any_ends _ _ (early_stop_parsing_ends libc parser argparse_error w' tt))
            (λ _. ground arith))

  parse_round_ends :
      (arg : Bytes) (rest : List Bytes) (index : ℕ) (w : World D)
      → IsRead (head? rest)
      → Ensures parser (RoundEnds arg index) (parse_round libc parser arg rest index w)
  unfolding parse_round
  parse_round_ends arg rest index w h =
      let P = RoundEnds arg index in
      if_ends parser P (char_at arg 0 != b'-') _ _ w (λ e. inl (refl, ground arith))
        (λ dash.
          if_ends parser P (is_valid_short_opt_key (char_at arg 1)) _ _ w
            (λ _.
              bind parser (AtMost parser 1) P _ _
                (process_short_opt_ends libc parser (drop 1 arg) (head? rest) _ w h)
                (after_ends arg index))
            (λ no_key.
              if_ends parser P (char_at arg 1 == nul && last) _ _ w
                (λ _.
                  bind parser (λ _. Unit) P _ _ (mm_arg_parse_complete_ends (some arg) w)
                    (λ _ w' _. stop_early_ends arg index argparse_complete w' tt))
                (λ _.
                  if_ends parser P (char_at arg 1 != b'-') _ _ w
                    (λ e. inl (refl, inr (no_key, ground arith)))
                    (λ dashes.
                      if_ends parser P (char_at arg 2 == nul && not last) _ _ w
                        (λ e. inr (refl, (ground arith, ground arith, ground arith)))
                        (λ _.
                          bind parser (AtMost parser 0) P _ _
                            (process_long_opt_ends libc parser (drop 2 arg) last w)
                            (elim [
                              | pos n ↦ λ w' _. omega arith
                              | negsuc n ↦ λ w' _. stop_early_ends arg index (negsuc n) w' tt
                            ]))))))
    where
      last : Bool
      last = length rest == 0 && is_completing parser

  -- The loop at `index` with the arguments `args` left.
  abbrev pub LoopEnds : List Bytes → ℕ → ℤ → Type 0
  LoopEnds args index (pos n) = (k : ℕ) × (n ≡ index + k) × StopsAt args k
  LoopEnds args index (negsuc k) = no_exit parser ≡ true

  LoopEnds-cons :
      (arg : Bytes) (rest : List Bytes) (index : ℕ) (r : ℤ)
      → LoopEnds rest (index + 1) r
      → LoopEnds (arg ∷ rest) index r
  LoopEnds-cons arg rest index (pos n) (k, e, s) = (suc k, omega arith, StopsAt-cons s)
  LoopEnds-cons arg rest index (negsuc n) h = h

  weaken :
      {A : Type 0} (P Q : A → Type 0) (r : Run D A)
      → ((a : A) → P a → Q a)
      → Ensures parser P r
      → Ensures parser Q r
  weaken P Q (ret a w) f h = f a h
  weaken P Q (exited code w) f h = h
  weaken P Q fault f h = h

  parse_loop_ends :
      (args : List Bytes) (skip index : ℕ) (w : World D)
      → All (λ a. a ≢ codes "-") args
      → Ensures parser (LoopEnds args index) (parse_loop libc parser args skip index w)
  unfolding parse_loop
  parse_loop_ends [] skip index w h = (0, omega arith, all_read refl)
  parse_loop_ends (arg ∷ rest) (suc skip) index w (ha, h) =
      weaken _ _ _ (LoopEnds-cons arg rest index) (parse_loop_ends rest skip (index + 1) w h)
  parse_loop_ends (arg ∷ rest) zero index w (ha, h) =
      bind parser (RoundEnds arg index) (LoopEnds (arg ∷ rest) index) _ _
        (parse_round_ends arg rest index w (next_read rest h))
        (elim [
          | stop (pos n) ↦ λ w' ends. elim ends [
            | inl (e, is) ↦ (0, omega arith, operand arg refl is)
            | inr (e, is) ↦ (1, e, terminator arg 0 refl refl is)
          ]
          | stop (negsuc n) ↦ λ w' e. e
          | go skip ↦ λ w' le.
              weaken _ _ _ (LoopEnds-cons arg rest index)
                (parse_loop_ends rest skip (index + 1) w' h)
        ])
    where
      next_read : (l : List Bytes) → All (λ a. a ≢ codes "-") l → IsRead (head? l)
      next_read [] _ = tt
      next_read (a ∷ l) (ha', _) = ha'

  -- With no argument "-", the parse always ends by one of these: it returns an index `k + 1`, such that
  -- the `k` first arguments are read and all arguments are, or the next is no option, or the last one
  -- read is "--"; or it returns a negative code and MM_ARG_PARSER_NOEXIT is set; or it ends the process
  -- with code 0 or 1 and MM_ARG_PARSER_NOEXIT is not set. It never reads behind the end of an argument.
  pub mm_arg_parse_ends :
      (args : List Bytes) (w : World D)
      → All (λ a. a ≢ codes "-") args
      → Ensures parser (LoopEnds args 1) (mm_arg_parse libc parser args w)
  unfolding mm_arg_parse
  mm_arg_parse_ends args w h =
      bind parser (λ _. Unit) (LoopEnds args 1) _ _ (validate_options_ends parser.optv w)
        (λ invalid w' _.
          if_ends parser (LoopEnds args 1) (is_neg invalid) _ _ w'
            (λ _.
              weaken {A = ℤ} (λ r. (no_exit parser ≡ true) × Failure parser r) (LoopEnds args 1) _
                (elim [ pos n ↦ λ (e, f). absurd f | negsuc n ↦ λ (e, f). e ])
                (early_stop_parsing_ends libc parser argparse_error w' tt))
            (λ _. parse_loop_ends args 0 1 w' h))
