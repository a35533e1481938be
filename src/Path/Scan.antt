-- ===== src/Path/Scan.antt =====
-- What the two backward scans of src/utils.c find.
use mmlib.Base.{
  ℕ, zero, suc, ◌-◌, ◌≤◌, ◌<◌, ◌≡◌, refl, ◌⊎◌, inl, inr, true, false, arith, [], ◌∷◌, length, ◌==◌,
  Bool-cases,
}
use mmlib.Base.CString.{Bytes, char_at}
use mmlib.Path.{Platform, is_path_separator, skip_separators, basename_loop, get_last_nonsep_ptr}

module _ (os : Platform) (s : Bytes) where
  -- The scan over separators stops at `r`, if all from behind `r` up to `c` are separators.
  pub skip_separators_at :
      (c r : ℕ)
      → r ≤ c
      → ((i : ℕ) → r < i → i ≤ c → is_path_separator os (char_at s i) ≡ true)
      → (r ≡ 0) ⊎ (is_path_separator os (char_at s r) ≡ false)
      → skip_separators os s c ≡ r
  unfolding skip_separators
  skip_separators_at zero r le seps stop = omega arith
  skip_separators_at (suc c) r le seps stop = elim (Bool-cases (r == suc c)) [
    | inl here ↦ ground arith
    | inr below ↦ ground (
      arith,
      seps (suc c),
      skip_separators_at c r (ground arith) (λ i lo hi. seps i lo (omega arith)) stop,
    )
  ]

  -- It stops at or below the start, with separators only in between.
  pub skip_separators-le : (c : ℕ) → skip_separators os s c ≤ c
  unfolding skip_separators
  skip_separators-le zero = omega arith
  skip_separators-le (suc c) = ground (arith, skip_separators-le c)

  pub skip_separators_stop :
      (c : ℕ)
      → (skip_separators os s c ≡ 0)
        ⊎ (is_path_separator os (char_at s (skip_separators os s c)) ≡ false)
  unfolding skip_separators
  skip_separators_stop zero = inl refl
  skip_separators_stop (suc c) = ground (arith, skip_separators_stop c)

  -- The search for a separator stops behind the last one below `n`.
  pub basename_loop_at :
      (end n b : ℕ)
      → n < end
      → b ≤ n
      → ((i : ℕ) → b ≤ i → i < n → is_path_separator os (char_at s i) ≡ false)
      → (b ≡ 0) ⊎ (is_path_separator os (char_at s (b - 1)) ≡ true)
      → basename_loop os s end n ≡ b
  unfolding basename_loop
  basename_loop_at end zero b fits le clear stop = omega arith
  basename_loop_at end (suc c) b fits le clear stop = elim (Bool-cases (b == suc c)) [
    | inl here ↦ ground arith
    | inr below ↦ ground (
      arith,
      clear c,
      basename_loop_at end c b (omega arith) (ground arith) (λ i lo hi. clear i lo (omega arith))
          stop,
    )
  ]

  pub basename_loop-le : (end n : ℕ) → basename_loop os s end n ≤ n
  unfolding basename_loop
  basename_loop-le end zero = omega arith
  basename_loop-le end (suc c) = ground (arith, basename_loop-le end c)

  pub basename_loop_clear :
      (end n i : ℕ)
      → n < end
      → basename_loop os s end n ≤ i
      → i < n
      → is_path_separator os (char_at s i) ≡ false
  unfolding basename_loop
  basename_loop_clear end zero i fits lo hi = absurd (omega arith)
  basename_loop_clear end (suc c) i fits lo hi = elim (Bool-cases (i == c)) [
    | inl here ↦ ground arith
    | inr below ↦ ground (arith, basename_loop_clear end c i (omega arith))
  ]

-- The last byte that is no separator stands before `e`, if all from `e` on are separators.
pub get_last_nonsep_ptr_at :
    (os : Platform) (s : Bytes) (e : ℕ)
    → 0 < e
    → e ≤ length s
    → ((i : ℕ) → e ≤ i → i < length s → is_path_separator os (char_at s i) ≡ true)
    → (e ≡ 1) ⊎ (is_path_separator os (char_at s (e - 1)) ≡ false)
    → get_last_nonsep_ptr os s ≡ e
unfolding get_last_nonsep_ptr
get_last_nonsep_ptr_at os [] e pos le seps stop = absurd (omega arith)
get_last_nonsep_ptr_at os (c ∷ s) e pos le seps stop = ground (
  arith,
  skip_separators_at os (c ∷ s) (length s) (e - 1) (omega arith)
      (λ i lo hi. seps i (omega arith) (omega arith)) (ground arith),
)

pub get_last_nonsep_ptr_bounds :
    (os : Platform) (s : Bytes)
    → (get_last_nonsep_ptr os s ≤ length s) × (length s ≤ 0 ⊎ 0 < get_last_nonsep_ptr os s)
unfolding get_last_nonsep_ptr
get_last_nonsep_ptr_bounds os [] = (omega arith, omega arith)
get_last_nonsep_ptr_bounds os (c ∷ s) =
    (omega (arith, skip_separators-le os (c ∷ s) (length s)), omega arith)
