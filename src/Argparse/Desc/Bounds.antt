-- ===== src/Argparse/Desc/Bounds.antt =====
-- The buffers that the description of an option is copied to are large enough.

use mmlib.Base.{
  ℕ, zero, suc, ◌+◌, ◌≤◌, ◌<◌, ◌≡◌, refl, ◌⊎◌, inl, Bool, true, Option, none, some, [], ◌∷◌, arith,
  length, length-append, length-take,
}
use mmlib.Base.CString.{Bytes}
use mmlib.Argparse.Desc.{
  value_name_maxlen, value_name_loop, validate_value_name, match_loop, match_value, Round,
  copy_value_name, copy_round, copy_loop, copy_opt_desc,
}

value_name_loop-bounds :
    (s : Bytes) (n i : ℕ)
    → (value_name_loop s n i ≡ 0)
      ⊎ ((value_name_loop s n i < i + n) × (value_name_loop s n i < i + length s))
unfolding value_name_loop
value_name_loop-bounds s zero i = inl refl
value_name_loop-bounds [] (suc n) i = inl refl
value_name_loop-bounds (c ∷ s) (suc n) i = ground (arith, value_name_loop-bounds s n (i + 1))

validate_value_name_bounds :
    (s : Bytes) → (validate_value_name s < value_name_maxlen) × (validate_value_name s ≤ length s)
unfolding validate_value_name
validate_value_name_bounds s = ground (arith, value_name_loop-bounds s value_name_maxlen 0)

match_loop-length : (s name : Bytes) → match_loop s name ≡ true → length name ≤ length s
unfolding match_loop
match_loop-length s [] h = omega arith
match_loop-length [] (v ∷ name) h = cc
match_loop-length (c ∷ s) (v ∷ name) h = ground (arith, match_loop-length s name)

-- The value name fits its buffer, with its terminator.
abbrev pub Fits : Option Bytes → Type 0
Fits none = Unit
Fits (some name) = length name < value_name_maxlen

-- A round writes no more than it reads, and passes over bytes that are there.
record IsBounded (s : Bytes) (r : Round) : Type 0 where
  no_longer : length r.written ≤ suc r.skipped
  inside : r.skipped ≤ length s
  fits : Fits r.valname

copy_value_name-IsBounded :
    (s : Bytes) (valname : Option Bytes) → Fits valname → IsBounded s (copy_value_name s valname)
unfolding copy_value_name match_value
copy_value_name-IsBounded s none f =
    ground (arith, validate_value_name_bounds s, length-take (validate_value_name s) s)
copy_value_name-IsBounded s (some name) f = ground (arith, match_loop-length s name)

copy_round-IsBounded :
    (isalnum : ℕ → Bool) (prev : Option ℕ) (c : ℕ) (s : Bytes) (valname : Option Bytes)
    → Fits valname
    → IsBounded s (copy_round isalnum prev c s valname)
unfolding copy_round
copy_round-IsBounded isalnum prev c s valname f =
    ground (arith, copy_value_name-IsBounded s valname f)

copy_loop_bounds :
    (isalnum : ℕ → Bool) (s : Bytes) (skip : ℕ) (prev : Option ℕ) (valname : Option Bytes)
    → skip ≤ length s
    → Fits valname
    → (length (copy_loop isalnum s skip prev valname).0 + skip ≤ length s)
      × Fits (copy_loop isalnum s skip prev valname).1
unfolding copy_loop
copy_loop_bounds isalnum [] skip prev valname le f = (omega arith, f)
copy_loop_bounds isalnum (c ∷ s) (suc skip) prev valname le f =
    let (h, g) = copy_loop_bounds isalnum s skip (some c) valname (omega arith) f in
    (omega (arith, h), g)
copy_loop_bounds isalnum (c ∷ s) zero prev valname le f =
    let b = copy_round-IsBounded isalnum prev c s valname f in
    let r = copy_round isalnum prev c s valname in
    let (h, g) = copy_loop_bounds isalnum s (r.skipped) (some c) (r.valname) b.inside b.fits in
    (
      omega (
        arith,
        length-append {0} r.written (copy_loop isalnum s (r.skipped) (some c) (r.valname)).0,
        b.no_longer,
      ),
      g,
    )

-- The copy is no longer than the description, and the value name that it finds fits the buffer of
-- 16 bytes with its terminator.
pub copy_opt_desc_bounds :
    (isalnum : ℕ → Bool) (src : Bytes)
    → (length (copy_opt_desc isalnum src).0 ≤ length src) × Fits (copy_opt_desc isalnum src).1
unfolding copy_opt_desc
copy_opt_desc_bounds isalnum src =
    let (h, g) = copy_loop_bounds isalnum src 0 none none (omega arith) tt in (omega (arith, h), g)
