-- ===== src/Argparse/Opt/Names.antt =====
-- Which names and arguments the tests of src/argparse.c accept.
use mmlib.Base.{
  ℕ, suc, ◌+◌, ◌≤◌, ◌<◌, ◌≡◌, refl, ◌≢◌, ◌↔◌, ◌⊎◌, inl, inr, true, false, none, some, [], ◌++◌, ◌∷◌,
  ◌==◌, Bool-cases, Option-cases, arith, length, take, All,
}
use mmlib.Base.CString.{Bytes, codes, char_at}
use mmlib.Argparse.Opt.{
  first_token_loop, get_first_token_length, is_name_char, long_name_loop, is_valid_long_opt_name,
  is_arg_an_option,
}

-- The prefix of a string before the first `b`, and that nothing of it is `b`.
abbrev pub Lacks : ℕ → Bytes → Type 0
Lacks b = All (λ c. c ≢ b)

pub record Token (s : Bytes) (b n : ℕ) : Type 0 where
  pub within : n ≤ length s
  pub clear : Lacks b (take n s)
  pub stop : (n ≡ length s) ⊎ ((n < length s) × (char_at s n ≡ b))

first_token_loop-add :
    (s : Bytes) (b len : ℕ) → first_token_loop s b len ≡ len + first_token_loop s b 0
unfolding first_token_loop
first_token_loop-add [] b len = omega arith
first_token_loop-add (c ∷ s) b len =
    ground (arith, first_token_loop-add s b (len + 1), first_token_loop-add s b (0 + 1))

one-add : (n : ℕ) → 1 + n ≡ suc n
one-add n = omega arith

Token-first_token_loop : (s : Bytes) (b : ℕ) → Token s b (first_token_loop s b 0)
unfolding first_token_loop
Token-first_token_loop [] b = record { within = omega arith; clear = tt; stop = inl refl }
Token-first_token_loop (c ∷ s) b =
    let rest = Token-first_token_loop s b in
    elim (Bool-cases (c == b)) [
      | inl here ↦
          rw here
            (record { within = omega arith; clear = tt; stop = inr (omega arith, ground arith) })
      | inr later ↦
          rw (later, first_token_loop-add s b 1)
            (rw (one-add (first_token_loop s b 0)) (record {
              within = omega (arith, rest.within);
              clear = (ground arith, rest.clear);
              stop = ground (arith, rest.stop);
            }))
    ]

-- The token ends at the first `breakch`, or at the end of the string where there is none.
pub get_first_token_length_lem : (s : Bytes) (b : ℕ) → Token s b (get_first_token_length s b)
unfolding get_first_token_length
get_first_token_length_lem s b = Token-first_token_loop s b

long_name_loop-some :
    (s : Bytes) (i : ℕ)
    → All (λ d. is_name_char d ≡ true) s
    → long_name_loop s false i ≡ some (i + length s)
unfolding long_name_loop
long_name_loop-some [] i h = ground arith
long_name_loop-some (c ∷ s) i (here, h) = ground (arith, long_name_loop-some s (i + 1) h)

long_name_loop-All :
    (s : Bytes) (i j : ℕ) → long_name_loop s false i ≡ some j → All (λ d. is_name_char d ≡ true) s
unfolding long_name_loop
long_name_loop-All [] i j h = tt
long_name_loop-All (c ∷ s) i j h = elim (Bool-cases (is_name_char c)) [
  | inl yes' ↦ (yes', long_name_loop-All s (i + 1) j (ground arith))
  | inr no' ↦ absurd (ground arith)
]

-- `true` exactly for a lower case letter and then at least one of lower case letters, digits and
-- hyphens.
is_valid_long_opt_name_iff :
    (c : ℕ) (s : Bytes)
    → (is_valid_long_opt_name (c ∷ s) false ≡ true)
      ↔ ((b'a' ≤ c) × (c ≤ b'z') × (0 < length s) × All (λ d. is_name_char d ≡ true) s)
unfolding is_valid_long_opt_name
is_valid_long_opt_name_iff c s = (
  λ h. elim (Option-cases (long_name_loop s false 1)) [
    | inl e ↦ absurd (ground arith)
    | inr (j, e) ↦
        let all = long_name_loop-All s 1 j e in
        (ground arith, ground arith, ground (arith, long_name_loop-some s 1 all), all)
  ],
  λ (lo, hi, long, all). ground (arith, long_name_loop-some s 1 all),
)

-- The test reads behind the end of exactly one argument, "-".
pub is_arg_an_option-none_iff :
    (arg : Bytes) → (is_arg_an_option (some arg) ≡ none) ↔ (arg ≡ codes "-")
unfolding is_arg_an_option
is_arg_an_option-none_iff [] = ground arith
is_arg_an_option-none_iff (c ∷ []) = ground arith
is_arg_an_option-none_iff (c ∷ d ∷ []) = ground arith
is_arg_an_option-none_iff (c ∷ d ∷ e ∷ s) = ground arith

pub is_arg_an_option-null : is_arg_an_option none ≡ some false
unfolding is_arg_an_option
is_arg_an_option-null = refl

first_token_loop_at :
    (s t : Bytes) (b len : ℕ) → Lacks b s → first_token_loop (s ++ b ∷ t) b len ≡ len + length s
unfolding first_token_loop
first_token_loop_at [] t b len h = ground arith
first_token_loop_at (c ∷ s) t b len (hc, h) = ground (arith, first_token_loop_at s t b (len + 1) h)

pub get_first_token_length_at :
    (s t : Bytes) (b : ℕ) → Lacks b s → get_first_token_length (s ++ b ∷ t) b ≡ length s
unfolding get_first_token_length
get_first_token_length_at s t b h = omega (arith, first_token_loop_at s t b 0 h)

first_token_loop-all :
    (s : Bytes) (b len : ℕ) → Lacks b s → first_token_loop s b len ≡ len + length s
unfolding first_token_loop
first_token_loop-all [] b len h = omega arith
first_token_loop-all (c ∷ s) b len (hc, h) = ground (arith, first_token_loop-all s b (len + 1) h)

pub get_first_token_length-all :
    (s : Bytes) (b : ℕ) → Lacks b s → get_first_token_length s b ≡ length s
unfolding get_first_token_length
get_first_token_length-all s b h = omega (arith, first_token_loop-all s b 0 h)

first_token_loop-le : (s : Bytes) (b len : ℕ) → len ≤ first_token_loop s b len
unfolding first_token_loop
first_token_loop-le [] b len = omega arith
first_token_loop-le (c ∷ s) b len = ground (arith, first_token_loop-le s b (len + 1))

-- Only a token that begins with `breakch` is empty.
pub get_first_token_length-pos :
    (c : ℕ) (s : Bytes) (b : ℕ) → c ≢ b → 0 < get_first_token_length (c ∷ s) b
unfolding get_first_token_length first_token_loop
get_first_token_length-pos c s b h = ground (arith, first_token_loop-le s b 1)

pub get_first_token_length-zero : (s : Bytes) (b : ℕ) → get_first_token_length (b ∷ s) b ≡ 0
unfolding get_first_token_length first_token_loop
get_first_token_length-zero s b = ground arith
