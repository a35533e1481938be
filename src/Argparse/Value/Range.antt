-- ===== src/Argparse/Value/Range.antt =====
-- Which values a conversion gives.
use mmlib.Base.{ℕ, ◌^◌, ◌<◌, ◌≡◌, ◌↔◌, refl, false, Option, none, some, [], ◌∷◌, arith}
use mmlib.Base.Int.{pos, ◌≤ℤ◌}
use mmlib.Base.CString.{Bytes, first}
use mmlib.Argparse.Opt.{opt_str, opt_int, opt_uint, opt_ullong}
use mmlib.Argparse.Run.{ArgVal, str, int, uint, ullong, Libc}
use mmlib.Argparse.Value.{
  Conversion, converted, cast_ll_to_argval, check_number, convert_number, convert, is_negative,
  int_min, int_max,
}

-- The whole text is a number for the C library, and it set no error.
abbrev pub IsNumber : {N : Type 0} → N × Bytes × ℕ → Type 0
IsNumber (n, end, errno) = (first end ≡ 0) × (errno ≡ 0)

check_number_iff :
    (end : Bytes) (errno : ℕ) (r : Conversion) (v : ArgVal)
    → (check_number end errno r ≡ converted v) ↔ ((first end ≡ 0) × (errno ≡ 0) × (r ≡ converted v))
unfolding check_number
check_number_iff end errno r v = ground arith

-- An `int` option accepts a text exactly if all of it is a number within the bounds of `int`, and the
-- value is that number.
convert-int_iff :
    (libc : Libc) (c : ℕ) (s : Bytes) (v : ArgVal)
    → let r = libc.strtoll (c ∷ s) in
      (convert libc opt_int (some (c ∷ s)) ≡ converted v)
      ↔ (IsNumber r × (int_min ≤ℤ r.0) × (r.0 ≤ℤ int_max) × (v ≡ int r.0))
unfolding convert convert_number cast_ll_to_argval check_number
convert-int_iff libc c s v = ground arith

-- An `unsigned int` option accepts a text exactly if all of it is a number that is not negative and
-- below 2^32, and the value is that number.
convert-uint_iff :
    (libc : Libc) (c : ℕ) (s : Bytes) (n : ℕ)
    → let r = libc.strtoll (c ∷ s) in
      (convert libc opt_uint (some (c ∷ s)) ≡ converted (uint n))
      ↔ (IsNumber r × (r.0 ≡ pos n) × (n < 2 ^ 32))
unfolding convert convert_number cast_ll_to_argval check_number
convert-uint_iff libc c s n = ground arith

-- An `unsigned long long` option refuses a text with a minus sign behind its white space, which the
-- C library would accept, and otherwise accepts what is a number for it.
convert-ullong_iff :
    (libc : Libc) (c : ℕ) (s : Bytes) (v : ArgVal)
    → let r = libc.strtoull (c ∷ s) in
      (convert libc opt_ullong (some (c ∷ s)) ≡ converted v)
      ↔ ((is_negative libc.isspace (c ∷ s) ≡ false) × IsNumber r × (v ≡ ullong r.0))
unfolding convert convert_number check_number
convert-ullong_iff libc c s v = ground arith

-- A string is taken as it is.
pub convert-str :
    (libc : Libc) (value : Option Bytes) → convert libc opt_str value ≡ converted (str value)
unfolding convert
convert-str libc none = refl
convert-str libc (some []) = refl
convert-str libc (some (c ∷ s)) = refl

-- An int option accepts a text exactly if all of it is a number for the C library within the bounds of int;
-- an unsigned int option, if it is one that is not negative and below 2^32; an unsigned long long option,
-- if it is one and has no minus sign behind its white space. The value is that number.
pub convert_iff :
    (libc : Libc) (c : ℕ) (s : Bytes) (v : ArgVal) (n : ℕ)
    → let r = libc.strtoll (c ∷ s) in
      let u = libc.strtoull (c ∷ s) in
      ((convert libc opt_int (some (c ∷ s)) ≡ converted v)
        ↔ (IsNumber r × (int_min ≤ℤ r.0) × (r.0 ≤ℤ int_max) × (v ≡ int r.0)))
      × ((convert libc opt_uint (some (c ∷ s)) ≡ converted (uint n))
          ↔ (IsNumber r × (r.0 ≡ pos n) × (n < 2 ^ 32)))
      × ((convert libc opt_ullong (some (c ∷ s)) ≡ converted v)
          ↔ ((is_negative libc.isspace (c ∷ s) ≡ false) × IsNumber u × (v ≡ ullong u.0)))
convert_iff libc c s v n =
    (convert-int_iff libc c s v, convert-uint_iff libc c s n, convert-ullong_iff libc c s v)
