-- ===== src/Referee/Search/Sorted.antt =====
-- What the search finds in an array that is sorted by key.
use mmlib.Base.{
  dec_lt, ℕ, zero, suc, ◌+◌, ◌-◌, ◌/◌, ◌≤◌, ◌<◌, ◌≡◌, refl, subst, inl, inr, Bool-cases, some, List,
  arith, ltb, get_or,
}
use mmlib.Base.Int.{ℤ, pos_part, neg_part, ltb_ℤ, eq_of_parts}
use mmlib.Referee.Types.{◌==ℤ◌}
use mmlib.Referee.Search.{Index, found, not_found, search_loop, search_key_index}

infix 50 ◌<ℤ◌
abbrev pub ◌<ℤ◌ : ℤ → ℤ → Type 0
a <ℤ b = pos_part a + neg_part b < pos_part b + neg_part a

-- The `len` first keys increase strictly; `d` is a default that is not reached.
abbrev pub IsSorted : List ℤ → ℕ → Type 0
IsSorted keys len = (i j : ℕ) (d : ℤ) → i < j → j < len → get_or keys i d <ℤ get_or keys j d

-- What an index says of a key: where it is, or between which keys it belongs.
abbrev pub Locates : List ℤ → ℕ → ℤ → Index → Type 0
Locates keys len key (found m) = (m < len) × (get_or keys m key ≡ key)
Locates keys len key (not_found l) =
    (l ≤ len)
    × ((i : ℕ) → i < l → get_or keys i key <ℤ key)
    × ((i : ℕ) → l ≤ i → i < len → key <ℤ get_or keys i key)

module _ (keys : List ℤ) (len : ℕ) (key : ℤ) (sorted : IsSorted keys len) where
  abbrev at : ℕ → ℤ
  at i = get_or keys i key

  beyond : (m i : ℕ) → key <ℤ at m → m ≤ i → i < len → key <ℤ at i
  beyond m i lt lo hi = elim (dec_lt m i) [
    | yes p ↦ omega (arith, sorted m i key p hi)
    | no p ↦ subst (λ j. key <ℤ at j) (omega arith) lt
  ]

  before : (m i : ℕ) → at m <ℤ key → i ≤ m → m < len → at i <ℤ key
  before m i lt le hi = elim (dec_lt i m) [
    | yes p ↦ omega (arith, sorted i m key p hi)
    | no p ↦ subst (λ j. at j <ℤ key) (omega arith) lt
  ]

  search_loop-Locates :
      (fuel l h : ℕ)
      → l ≤ h
      → h ≤ len
      → h - l < fuel
      → ((i : ℕ) → i < l → at i <ℤ key)
      → ((i : ℕ) → h ≤ i → i < len → key <ℤ at i)
      → (r : Index) × (search_loop fuel keys key l h ≡ some r) × Locates keys len key r
  unfolding search_loop
  search_loop-Locates zero l h le top enough below above = absurd (omega arith)
  search_loop-Locates (suc fuel) l h le top enough below above = elim (Bool-cases (ltb l h)) [
    | inr done ↦
        (not_found l, rw done refl, (omega arith, below, λ i lo hi. above i (ground arith) hi))
    | inl more ↦ elim (Bool-cases (key ==ℤ at m)) [
      | inl hit ↦ (found m, rw (more, hit) refl, (ground arith, eq_of_parts _ _ (ground arith)))
      | inr miss ↦ elim (Bool-cases (ltb_ℤ key (at m))) [
        | inl less ↦
            let (r, e, loc) =
              search_loop-Locates fuel l m (ground arith) (ground arith) (ground arith) below
                (λ i lo hi. beyond m i (ground arith) lo hi) in
            (r, rw (more, miss, less) e, loc)
        | inr greater ↦
            let (r, e, loc) =
              search_loop-Locates fuel (m + 1) h (ground arith) top (ground arith)
                (λ i hi. before m i (ground arith) (omega arith) (ground arith)) above in
            (r, rw (more, miss, greater) e, loc)
      ]
    ]
  ]
    where
      m : ℕ
      m = (l + (h - 1)) / 2

-- The search ends in a sorted array, and what it returns is right.
pub search_key_index-Locates :
    (keys : List ℤ) (len : ℕ) (key : ℤ)
    → IsSorted keys len
    → (r : Index) × (search_key_index keys len key ≡ some r) × Locates keys len key r
unfolding search_key_index
search_key_index-Locates keys len key sorted =
    search_loop-Locates keys len key sorted (len + 1) 0 len (omega arith) (omega arith)
      (omega arith) (λ i lt. absurd (omega arith)) (λ i lo hi. absurd (omega arith))
