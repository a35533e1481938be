-- ===== src/Argparse/Parse/Store.antt =====
-- What a long option with a value of type string stores.
use mmlib.Base.{
  ℕ, suc, ◌+◌, ◌≡◌, refl, ◌≢◌, Bool, true, Bool-cases, Option-cases, inl, inr, if◌then◌else◌, false,
  Option, none, some, [], ◌∷◌, ◌++◌, ◌==◌, arith, length, drop, All, drop-suc-length, ap, ◌∙◌,
  get_or-append_right,
}
use mmlib.Base.Int.{ℤ, pos, negsuc}
use mmlib.Base.CString.{Bytes, nul, char_at, codes}
use mmlib.Argparse.Opt.{
  Opt, get_first_token_length, opt_needval, opt_noval, opt_str, reqflags, mm_arg_opt_get_type,
}
use mmlib.Argparse.Opt.Names.{get_first_token_length_at, get_first_token_length-all}
use mmlib.Argparse.Find.{find_opt}
use mmlib.Argparse.Value.{conv_str_to_argval, mm_arg_opt_set_value, print_opt_error}
use mmlib.Argparse.Value.Range.{convert-str}
use mmlib.Argparse.Run.{user, ArgVal, str, Libc, Parser, World, Callback, Run, M, ret, and_then}
use mmlib.Argparse.Complete.{complete_opt_value, value_candidates, arg_opt_completion, is_zero}
use mmlib.Argparse.Parse.{is_neg, long_value, accept_value, process_opt_value, process_long_opt}

-- What a value of type string leads to: the callback, if there is one, can refuse it with a negative result; else
-- it is stored.
abbrev pub accepted :
    {D : Type 0} → Option (Callback D) → Opt → (p : ℕ) → Option Bytes → World D → Run D ℤ
accepted none opt p value w = ret (pos 0) (record w { stored = (p, str value) ∷ w.stored })
accepted (some cb) opt p value w =
    let (rv, after) = cb opt (str value) 0 w in
    if is_neg rv
    then ret rv after
    else ret (pos 0) (record after { stored = (p, str value) ∷ after.stored })

-- A message about the option, and the result of an error.
abbrev pub refused : {D : Type 0} → Opt → (msg : Bytes) → World D → Run D ℤ
refused opt msg w = and_then (print_opt_error opt msg w) (λ _ w. ret (negsuc 0) w)

-- Completion: the candidates are printed, unless the callback has done it, and nothing else is stored.
abbrev pub completed :
    {D : Type 0} → Option (Callback D) → Libc → Opt → (value : Option Bytes) → World D → Run D ℤ
completed none libc opt value w =
    ret (negsuc 2) (record w { out = w.out ++ value_candidates libc opt value })
completed (some cb) libc opt value w =
    let (rv, after) = cb opt (str value) arg_opt_completion w in
    if is_zero rv
    then ret (negsuc 2) (record after { out = after.out ++ value_candidates libc opt value })
    else ret (negsuc 2) after

-- The result of a long option is negative or 0.
abbrev end_long : {D : Type 0} → Run D ℤ → Run D ℤ
end_long r = and_then r (λ rv w. ret (if is_neg rv then rv else pos 0) w)

module _ {D : Type 0} (libc : Libc) (opt : Opt) (p : ℕ) (type : mm_arg_opt_get_type opt ≡ opt_str)
    (at : opt.val ≡ some p) where
  conv_str_to_argval-str :
      (value : Option Bytes) (w : World D)
      → conv_str_to_argval libc opt value w ≡ ret (some (str value)) w
  unfolding conv_str_to_argval
  conv_str_to_argval-str value w = rw (type, conv_str_to_argval) (rw (convert-str libc value) refl)

  mm_arg_opt_set_value-stores :
      (v : ArgVal) (w : World D)
      → mm_arg_opt_set_value opt v w ≡ ret (pos 0) (record w { stored = (p, v) ∷ w.stored })
  unfolding mm_arg_opt_set_value
  mm_arg_opt_set_value-stores v w = ground arith

  end_call :
      (v : ArgVal) (rv : ℤ) (after : World D)
      → end_long ((if is_neg rv then (λ w. ret rv w) else mm_arg_opt_set_value opt v) after) ≡ (
          if is_neg rv
          then ret rv after
          else ret (pos 0) (record after { stored = (p, v) ∷ after.stored }))
  end_call v rv after = elim (Bool-cases (is_neg rv)) [
    | inl e ↦ rw e (rw e refl)
    | inr e ↦ rw e (rw (mm_arg_opt_set_value-stores v after) refl)
  ]

  accept_value-accepted :
      (parser : Parser D) (value : Option Bytes) (w : World D)
      → end_long (accept_value libc parser opt value w) ≡ accepted parser.cb opt p value w
  unfolding accept_value
  accept_value-accepted parser value w = elim (Option-cases parser.cb) [
    | inl none_set ↦
        rw (conv_str_to_argval-str value w, accept_value)
          (rw (none_set, mm_arg_opt_set_value-stores (str value) w) refl)
    | inr (cb, set) ↦
        rw (conv_str_to_argval-str value w, accept_value)
          (rw set (end_call (str value) (cb opt (str value) 0 w).0 (cb opt (str value) 0 w).1))
  ]

end_completion :
    {D : Type 0} (libc : Libc) (opt : Opt) (value : Option Bytes) (done : Bool) (after : World D)
    → (if◌then◌else◌ {A = M D ℤ} done
        (λ w. ret (negsuc 2) (record w { out = w.out ++ value_candidates libc opt value }))
        (λ w. ret (negsuc 2) w)
        after)
      ≡ (if done
          then ret (negsuc 2) (record after { out = after.out ++ value_candidates libc opt value })
          else ret (negsuc 2) after)
end_completion libc opt value true after = refl
end_completion libc opt value false after = refl

completes :
    {D : Type 0} (libc : Libc) (parser : Parser D) (opt : Opt) (value : Option Bytes) (w : World D)
    → complete_opt_value libc parser opt value w ≡ completed parser.cb libc opt value w
unfolding complete_opt_value
completes libc parser opt value w = elim (Option-cases parser.cb) [
  | inl none_set ↦ rw (none_set, complete_opt_value) refl
  | inr (cb, set) ↦
      rw (set, complete_opt_value)
        (end_completion libc opt value (is_zero (cb opt (str value) arg_opt_completion w).0)
          (cb opt (str value) arg_opt_completion w).1)
]

char_at-eq : (name value : Bytes) → char_at (name ++ b'=' ∷ value) (length name) ≡ b'='
char_at-eq name value = get_or-append_right name (b'=' ∷ value) 0 (length name) nul (omega arith)

long_value-eq : (name value : Bytes) → long_value (name ++ b'=' ∷ value) (length name) ≡ some value
unfolding long_value
long_value-eq name value =
    let add_one : length name + 1 ≡ suc (length name) = omega arith in
    let text : drop (length name + 1) (name ++ b'=' ∷ value) ≡ value =
      ap (λ n. drop n (name ++ b'=' ∷ value)) add_one ∙ drop-suc-length name b'=' value in
    ground (arith, char_at-eq name value, text)

char_at-length : (name : Bytes) → char_at name (length name) ≡ 0
char_at-length [] = refl
char_at-length (c ∷ name) = char_at-length name

long_value-none : (name : Bytes) → long_value name (length name) ≡ none
unfolding long_value
long_value-none name = ground (arith, char_at-length name)

-- What the value leads to, once it is known whether the option takes it.
if_refused :
    {D : Type 0} (refuses : Bool) (x : M D ℤ) (y : M D ℤ) (w : World D) (a b : Run D ℤ)
    → end_long (x w) ≡ a
    → end_long (y w) ≡ b
    → end_long ((if refuses then x else y) w) ≡ (if refuses then a else b)
if_refused true x y w a b h k = h
if_refused false x y w a b h k = k

module _ {D : Type 0} (libc : Libc) (parser : Parser D) (opt : Opt) (p : ℕ) (w : World D)
    (type : mm_arg_opt_get_type opt ≡ opt_str) (at : opt.val ≡ some p) where
  long_value-given :
      (value : Bytes)
      → end_long (process_opt_value libc parser (user opt) (some value) w) ≡ (
          if reqflags opt.flags == opt_noval
          then refused opt (codes "does not accept any value.") w
          else accepted parser.cb opt p (some value) w)
  unfolding process_opt_value print_opt_error
  long_value-given value =
      if_refused (reqflags opt.flags == opt_noval) _ _ w _ _ refl
        (accept_value-accepted libc opt p type at parser (some value) w)

  long_value-missing : end_long (process_opt_value libc parser (user opt) none w) ≡ (
      if reqflags opt.flags == opt_needval
      then refused opt (codes "needs value.") w
      else accepted parser.cb opt p opt.defval w)
  unfolding process_opt_value print_opt_error
  long_value-missing =
      if_refused (reqflags opt.flags == opt_needval) _ _ w _ _ refl
        (accept_value-accepted libc opt p type at parser opt.defval w)

-- Of an option that takes a string and stores it, and is found by NAME, which has no '=': "--NAME=VALUE" is
-- refused by a message and -1 if the option takes no value, and else VALUE is stored, which "--NAME"
-- without a value does with the default value, unless the option needs a value, which is refused likewise;
-- a callback gets the value first, and where it returns a negative result, nothing more is stored and this
-- is the result. In completion mode "--NAME=VALUE" stores nothing: its candidates are printed, unless the
-- callback, which is called for them, has done it, and -3 is returned.
pub process_long_opt-stores :
    {D : Type 0} (libc : Libc) (parser : Parser D) (opt : Opt) (name value : Bytes) (p : ℕ)
    (w : World D)
    → find_opt parser.optv 0 (name ++ b'=' ∷ value) (length name) ≡ some (user opt)
    → find_opt parser.optv 0 name (length name) ≡ some (user opt)
    → All (λ c. c ≢ b'=') name
    → mm_arg_opt_get_type opt ≡ opt_str
    → opt.val ≡ some p
    → (process_long_opt libc parser (name ++ b'=' ∷ value) false w ≡ (
        if reqflags opt.flags == opt_noval
        then refused opt (codes "does not accept any value.") w
        else accepted parser.cb opt p (some value) w))
      × (process_long_opt libc parser name false w ≡ (
          if reqflags opt.flags == opt_needval
          then refused opt (codes "needs value.") w
          else accepted parser.cb opt p opt.defval w))
      × (process_long_opt libc parser (name ++ b'=' ∷ value) true w
          ≡ completed parser.cb libc opt (some value) w)
unfolding process_long_opt
process_long_opt-stores libc parser opt name value p w found alone clear type at =
    let token = get_first_token_length_at name value b'=' clear in
    let bare : get_first_token_length name b'=' ≡ length name =
      get_first_token_length-all name b'=' clear in
    (
      rw (token, found, token, long_value-eq name value)
          (long_value-given libc parser opt p w type at value),
      rw (bare, alone, bare, long_value-none name) (long_value-missing libc parser opt p w type at),
      rw (token, char_at-eq name value, found, token, long_value-eq name value)
          (completes libc parser opt (some value) w),
    )
