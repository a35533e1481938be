-- ===== src/Argparse/Parse/Ensures.antt =====
-- How the functions below mm_arg_parse end: each returns, or ends the process where that is asked for,
-- and reads no argument behind its end but at "-".
use mmlib.Base.{
  ℕ, zero, suc, ◌≤◌, ◌≡◌, refl, ◌≢◌, inl, inr, Bool, true, false, Option, none, some, Option-cases,
  [], ◌∷◌, arith, ◌!=◌, ◌&&◌, if◌then◌else◌,
}
use mmlib.Base.Int.{ℤ, pos, negsuc}
use mmlib.Base.CString.{Bytes, codes, char_at}
use mmlib.Argparse.Opt.{Opt, get_first_token_length}
use mmlib.Argparse.Opt.Names.{is_arg_an_option-none_iff, is_arg_an_option-null}
use mmlib.Argparse.Find.{find_opt, opt_of}
use mmlib.Argparse.Complete.{complete_longopts, complete_shortopts, complete_opt_value}
use mmlib.Argparse.Value.{print_opt_error, conv_str_to_argval, mm_arg_opt_set_value}
use mmlib.Argparse.Run.{
  Found, user, help, ArgVal, Libc, Parser, World, no_exit, is_completing, Run, ret, exited, fault,
  M, and_then, pure, lift,
}
use mmlib.Argparse.Parse.{
  is_neg, run_callback, is_null, accept_value, process_opt_value, takes_next, short_loop,
  process_short_opt, process_long_opt, early_stop_parsing,
}

-- No argument is read behind its end, but "-".
abbrev pub IsRead : Option Bytes → Type 0
IsRead none = Unit
IsRead (some a) = a ≢ codes "-"

module _ {D : Type 0} (parser : Parser D) where
  -- The run returns with `P`, or ends the process with code 0 or 1 where MM_ARG_PARSER_NOEXIT is not
  -- set.
  abbrev pub Ensures : {A : Type 0} → (A → Type 0) → Run D A → Type 0
  Ensures P (ret a w) = P a
  Ensures P (exited code w) = (no_exit parser ≡ false) × (code ≤ 1)
  Ensures P fault = ⊥

  pub bind :
      {A B : Type 0} (P : A → Type 0) (Q : B → Type 0) (r : Run D A) (k : A → M D B)
      → Ensures P r
      → ((a : A) (w : World D) → P a → Ensures Q (k a w))
      → Ensures Q (and_then r k)
  bind P Q (ret a w) k p next = next a w p
  bind P Q (exited code w) k p next = p
  bind P Q fault k p next = absurd p

  abbrev pub AtMost : ℕ → ℤ → Type 0
  AtMost k (pos n) = n ≤ k
  AtMost k (negsuc n) = Unit

  abbrev pub Failure : ℤ → Type 0
  Failure (pos n) = ⊥
  Failure (negsuc n) = Unit

  pub if_ends :
      {A : Type 0} (P : A → Type 0) (b : Bool) (m n : M D A) (w : World D)
      → (b ≡ true → Ensures P (m w))
      → (b ≡ false → Ensures P (n w))
      → Ensures P ((if b then m else n) w)
  if_ends P true m n w yes' no' = yes' refl
  if_ends P false m n w yes' no' = no' refl

module _ {D : Type 0} (libc : Libc) (parser : Parser D) where
  pub early_stop_parsing_ends :
      (r : ℤ) (w : World D)
      → Failure parser r
      → Ensures parser
          (λ v. (no_exit parser ≡ true) × Failure parser v)
          (early_stop_parsing libc parser r w)
  unfolding early_stop_parsing
  early_stop_parsing_ends (pos n) w h = absurd h
  early_stop_parsing_ends (negsuc zero) w h =
      if_ends parser _ (no_exit parser) _ _ _ (λ e. (e, tt)) (λ e. (e, omega arith))
  early_stop_parsing_ends (negsuc (suc n)) w h =
      if_ends parser _ (no_exit parser) _ _ _ (λ e. (e, tt)) (λ e. (e, omega arith))

  mm_arg_opt_set_value_ends :
      (opt : Opt) (v : ArgVal) (w : World D)
      → Ensures parser (AtMost parser 0) (mm_arg_opt_set_value opt v w)
  unfolding mm_arg_opt_set_value print_opt_error
  mm_arg_opt_set_value_ends opt v w = ground arith

  conv_str_to_argval_ends :
      (opt : Opt) (value : Option Bytes) (w : World D)
      → Ensures parser (λ _. Unit) (conv_str_to_argval libc opt value w)
  unfolding conv_str_to_argval print_opt_error
  conv_str_to_argval_ends opt value w = ground arith

  run_callback_ends :
      (opt : Opt) (v : ArgVal) (w : World D)
      → Ensures parser (λ _. Unit) (run_callback libc parser opt v w)
  run_callback_ends opt v w = ground arith

  store_value_ends :
      (opt : Opt) (v : ArgVal) (rv : ℤ) (w : World D)
      → Ensures parser
          (AtMost parser 0)
          ((if is_neg rv then pure rv else mm_arg_opt_set_value opt v) w)
  store_value_ends opt v (pos n) w = mm_arg_opt_set_value_ends opt v w
  store_value_ends opt v (negsuc n) w = tt

  accept_value_ends :
      (opt : Opt) (value : Option Bytes) (w : World D)
      → Ensures parser (AtMost parser 0) (accept_value libc parser opt value w)
  unfolding accept_value
  accept_value_ends opt value w =
      bind parser (λ _. Unit) (AtMost parser 0) _ _ (conv_str_to_argval_ends opt value w)
        (elim [
          | none ↦ λ w' _. tt
          | some v ↦ λ w' _.
              bind parser (λ _. Unit) (AtMost parser 0) _ _ (run_callback_ends opt v w')
                (λ rv w'' _. store_value_ends opt v rv w'')
        ])

  process_opt_value_ends :
      (f : Found) (value : Option Bytes) (w : World D)
      → Ensures parser (AtMost parser 0) (process_opt_value libc parser f value w)
  unfolding process_opt_value print_opt_error
  process_opt_value_ends help value w = ground arith
  process_opt_value_ends (user opt) none w = ground (arith, accept_value_ends opt opt.defval w)
  process_opt_value_ends (user opt) (some v) w = ground (arith, accept_value_ends opt (some v) w)

  complete_opt_value_ends :
      (opt : Opt) (value : Option Bytes) (w : World D)
      → Ensures parser (Failure parser) (complete_opt_value libc parser opt value w)
  unfolding complete_opt_value
  complete_opt_value_ends opt value w = ground arith

  Failure-small :
      (k : ℕ) (r : Run D ℤ) → Ensures parser (Failure parser) r → Ensures parser (AtMost parser k) r
  Failure-small k (ret (pos n) w) h = absurd h
  Failure-small k (ret (negsuc n) w) h = tt
  Failure-small k (exited code w) h = h
  Failure-small k fault h = h

  if_neg_ends :
      (k : ℕ) (rv : ℤ) (m : M D ℤ) (w : World D)
      → Ensures parser (AtMost parser k) (m w)
      → Ensures parser (AtMost parser k) ((if is_neg rv then pure rv else m) w)
  if_neg_ends k (pos n) m w h = h
  if_neg_ends k (negsuc n) m w h = tt

  takes_next_ends :
      (opt : Opt) (opts : Bytes) (next : Option Bytes) (w : World D)
      → IsRead next
      → Ensures parser (λ _. Unit) (lift (takes_next libc parser opt opts next) w)
  unfolding takes_next
  takes_next_ends opt (c ∷ opts) next w h = tt
  takes_next_ends opt [] none w h = ground (arith, is_arg_an_option-null)
  takes_next_ends opt [] (some a) w h = ground (arith, is_arg_an_option-none_iff a)

  short_loop_ends :
      (opts : Bytes) (next : Option Bytes) (last : Bool) (move : ℕ) (w : World D)
      → IsRead next
      → move ≤ 1
      → Ensures parser (AtMost parser 1) (short_loop libc parser opts next last move w)
  unfolding short_loop
  short_loop_ends [] next last move w h le = le
  short_loop_ends (c ∷ opts) next last move w h le =
      elim (Option-cases (find_opt parser.optv c [] 0)) [
        | inl e ↦ rw (e, Ensures) tt
        | inr (found, e) ↦
            rw (e, Ensures)
              (bind parser (λ _. Unit) (AtMost parser 1) _ _
                (takes_next_ends (opt_of found) opts next w h)
                (λ takes w' _.
                  if_ends parser (AtMost parser 1) (takes && is_completing parser && last) _ _ w'
                    (λ _. Failure-small 1 _ (complete_opt_value_ends (opt_of found) next w'))
                    (λ _.
                      bind parser (AtMost parser 0) (AtMost parser 1) _ _
                        (process_opt_value_ends found (if takes then next else none) w')
                        (λ rv w'' _. if_neg_ends 1 rv _ w'' (
                          short_loop_ends opts next last (if takes then 1 else move) w'' h
                            (ground arith))))))
      ]

  pub process_short_opt_ends :
      (opts : Bytes) (next : Option Bytes) (last : Bool) (w : World D)
      → IsRead next
      → Ensures parser (AtMost parser 1) (process_short_opt libc parser opts next last w)
  unfolding process_short_opt complete_shortopts
  process_short_opt_ends opts next last w h =
      if_ends parser (AtMost parser 1) (is_completing parser && is_null next) _ _ w (λ _. tt)
        (λ _. short_loop_ends opts next last 0 w h (omega arith))

  pub process_long_opt_ends :
      (arg : Bytes) (do_complete : Bool) (w : World D)
      → Ensures parser (AtMost parser 0) (process_long_opt libc parser arg do_complete w)
  unfolding process_long_opt complete_longopts
  process_long_opt_ends arg do_complete w =
      let namelen = get_first_token_length arg b'=' in
      if_ends parser (AtMost parser 0) (do_complete && char_at arg namelen != b'=') _ _ w (λ _. tt)
        (λ _. elim (Option-cases (find_opt parser.optv 0 arg namelen)) [
          | inl e ↦
              rw (e, Ensures)
                (if_ends parser (AtMost parser 0) do_complete _ _ w (λ _. tt) (λ _. tt))
          | inr (found, e) ↦
              rw (e, Ensures)
                (if_ends parser (AtMost parser 0) do_complete _ _ w
                  (λ _. Failure-small 0 _ (complete_opt_value_ends (opt_of found) _ w))
                  (λ _.
                    bind parser (AtMost parser 0) (AtMost parser 0) _ _
                      (process_opt_value_ends found _ w)
                      (elim [ pos n ↦ λ w' h. omega arith | negsuc n ↦ λ w' h. tt ])))
        ])
