-- ===== src/Argparse/Desc/Names.antt =====
-- Which value names are recognised in a description.
use mmlib.Base.{ℕ, zero, suc, ◌+◌, ◌<◌, ◌≡◌, refl, true, false, [], ◌∷◌, ◌++◌, arith, length, All}
use mmlib.Base.CString.{Bytes}
use mmlib.Argparse.Desc.{
  is_char_valid_for_value_name, value_name_maxlen, value_name_loop, validate_value_name,
}

abbrev pub Valid : Bytes → Type 0
Valid = All (λ c. is_char_valid_for_value_name c ≡ true)

value_name_loop-Valid : (s : Bytes) (n i : ℕ) → Valid s → value_name_loop s n i ≡ 0
unfolding value_name_loop
value_name_loop-Valid s zero i h = refl
value_name_loop-Valid [] (suc n) i h = refl
value_name_loop-Valid (c ∷ s) (suc n) i (here, h) =
    ground (arith, value_name_loop-Valid s n (i + 1) h)

-- A name that ends with the description is not recognised.
validate_value_name-at_end : (s : Bytes) → Valid s → validate_value_name s ≡ 0
unfolding validate_value_name
validate_value_name-at_end s h = value_name_loop-Valid s value_name_maxlen 0 h

value_name_loop_stop :
    (s rest : Bytes) (n i d : ℕ)
    → 1 < i
    → length s < n
    → Valid s
    → is_char_valid_for_value_name d ≡ false
    → value_name_loop (s ++ d ∷ rest) n i ≡ i + length s
unfolding value_name_loop
value_name_loop_stop s rest zero i d big lt h no' = absurd (omega arith)
value_name_loop_stop [] rest (suc n) i d big lt h no' = ground arith
value_name_loop_stop (c ∷ s) rest (suc n) i d big lt (here, h) no' =
    ground (arith, value_name_loop_stop s rest n (i + 1) d (omega arith) (omega arith) h no')

-- The first two bytes behind the '@' are not tested at all: whatever they are, they and the valid
-- characters that follow make the name, if another byte of the description ends it within 16.
validate_value_name-untested :
    (b c d : ℕ) (s rest : Bytes)
    → length s < 14
    → Valid s
    → is_char_valid_for_value_name d ≡ false
    → validate_value_name (b ∷ c ∷ s ++ d ∷ rest) ≡ 2 + length s
unfolding validate_value_name value_name_loop
validate_value_name-untested b c d s rest lt h no' =
    ground (arith, value_name_loop_stop s rest 14 2 d (omega arith) lt h no')

-- Valid characters, fewer than 14, that end with the description are no value name; behind two bytes of any
-- kind and before a byte that is not valid, they and the two bytes are one.
validate_value_name_ends :
    (b c d : ℕ) (s rest : Bytes)
    → length s < 14
    → Valid s
    → is_char_valid_for_value_name d ≡ false
    → (validate_value_name s ≡ 0) × (validate_value_name (b ∷ c ∷ s ++ d ∷ rest) ≡ 2 + length s)
validate_value_name_ends b c d s rest lt h no' =
    (validate_value_name-at_end s h, validate_value_name-untested b c d s rest lt h no')
