-- ===== src/Argparse/Run.antt =====
-- What a parse works on: the parser's configuration, what the program outside provides, the state that
-- the functions of src/argparse.c change, and the ways in which they end.
use mmlib.Base.{ℕ, ◌%◌, ◌/◌, Bool, Option, none, some, List, ◌∷◌, ◌++◌, ◌==◌}
use mmlib.Base.Int.{ℤ, negsuc}
use mmlib.Base.CString.{Bytes}
use mmlib.Path.{Platform}
use mmlib.Argparse.Opt.{Opt, Dirent}

-- `union mm_arg_val`, with the field that is set
pub data ArgVal : Type 0 where
  str : Option Bytes → ArgVal
  int : ℤ → ArgVal
  llong : ℤ → ArgVal
  uint : ℕ → ArgVal
  ullong : ℕ → ArgVal

-- An option that `find_opt` returns: one of the configuration, or `help_opt`.
pub data Found : Type 0 where
  user : Opt → Found
  help : Found

-- The output streams, `errno`, the values stored through the pointers of the options (the newest
-- first), and the data of the callback.
pub record World (D : Type 0) : Type 0 where
  pub out : Bytes
  pub err : Bytes
  pub errno : ℕ
  pub stored : List (ℕ × ArgVal)
  pub cb_data : D

-- What the C library does with a number: its value, the bytes behind it, and `errno`, 0 if it is not
-- set; whether a character is a letter or a digit, or white space; the text of an error; what a directory
-- holds; and the platform.
pub record Libc : Type 0 where
  pub isalnum : ℕ → Bool
  pub isspace : ℕ → Bool
  pub strtoll : Bytes → ℤ × Bytes × ℕ
  pub strtoull : Bytes → ℕ × Bytes × ℕ
  pub strerror : ℕ → Bytes
  pub opendir : Bytes → Option (List Dirent)
  pub os : Platform

-- The callback is the program's: it may do anything with the state.
abbrev pub Callback : Type 0 → Type 0
Callback D = Opt → ArgVal → ℕ → World D → ℤ × World D

-- `struct mm_arg_parser`
pub record Parser (D : Type 0) : Type 0 where
  pub flags : ℕ
  pub optv : List Opt
  pub doc : Option Bytes
  pub args_doc : Option Bytes
  pub execname : Option Bytes
  pub cb : Option (Callback D)

-- `MM_ARG_PARSER_NOEXIT` and `MM_ARG_PARSER_COMPLETION`
abbrev pub no_exit : {D : Type 0} → Parser D → Bool
no_exit parser = parser.flags % 2 == 1

abbrev pub is_completing : {D : Type 0} → Parser D → Bool
is_completing parser = parser.flags / 2 % 2 == 1

abbrev pub argparse_error : ℤ
argparse_error = negsuc 0

abbrev pub argparse_stop : ℤ
argparse_stop = negsuc 1

abbrev pub argparse_complete : ℤ
argparse_complete = negsuc 2

-- A call returns, ends the process with an exit code, or reads behind the end of an argument.
pub data Run (D A : Type 0) : Type 0 where
  ret : A → World D → Run D A
  exited : ℕ → World D → Run D A
  fault : Run D A

abbrev pub M : Type 0 → Type 0 → Type 0
M D A = World D → Run D A

module _ {D A : Type 0} where
  abbrev pub pure : A → M D A
  pure a w = ret a w

  abbrev pub lift : Option A → M D A
  lift none w = fault
  lift (some a) w = ret a w

  abbrev pub and_then : {B : Type 0} → Run D A → (A → M D B) → Run D B
  and_then (ret a w) k = k a w
  and_then (exited code w) k = exited code w
  and_then fault k = fault

  infixl 5 ◌>>=◌ ◌>>◌
  abbrev pub ◌>>=◌ : {B : Type 0} → M D A → (A → M D B) → M D B
  m >>= k = λ w. and_then (m w) k

  abbrev pub ◌>>◌ : {B : Type 0} → M D A → M D B → M D B
  m >> k = m >>= λ _. k

module _ {D : Type 0} where
  -- `printf` and `fprintf(stderr, ...)`, with the bytes that are printed
  abbrev pub print : Bytes → M D (Unit {0})
  print text w = ret tt (record w { out = w.out ++ text })

  abbrev pub eprint : Bytes → M D (Unit {0})
  eprint text w = ret tt (record w { err = w.err ++ text })

  abbrev pub set_errno : ℕ → M D (Unit {0})
  set_errno e w = ret tt (record w { errno = e })

  abbrev pub store : ℕ → ArgVal → M D (Unit {0})
  store p v w = ret tt (record w { stored = (p, v) ∷ w.stored })
