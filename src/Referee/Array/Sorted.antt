-- ===== src/Referee/Array/Sorted.antt =====
-- Lists of keys that increase strictly, and an insertion at the place that the search finds.
use mmlib.Base.{
  ℕ, zero, suc, ◌+◌, ◌≤◌, ◌<◌, refl, sym, inl, inr, map, List, [], ◌∷◌, ◌++◌, arith, length, get_or,
  take, drop, length-take, length-drop, get_or-drop, All, All-append, All-take, All-drop,
  All-get_or, get_or-take, filter, Bool, Bool-cases,
}
use mmlib.Base.Int.{ℤ}
use mmlib.Referee.Search.{not_found}
use mmlib.Referee.Search.Sorted.{◌<ℤ◌, IsSorted, Locates}

abbrev pub Increasing : List ℤ → Type 0
Increasing [] = Unit
Increasing (x ∷ xs) = All (λ y. x <ℤ y) xs × Increasing xs

<ℤ-trans : (a b c : ℤ) → a <ℤ b → b <ℤ c → a <ℤ c
<ℤ-trans a b c h k = omega arith

All-<ℤ-trans : (a b : ℤ) (xs : List ℤ) → a <ℤ b → All (λ y. b <ℤ y) xs → All (λ y. a <ℤ y) xs
All-<ℤ-trans a b [] h _ = tt
All-<ℤ-trans a b (x ∷ xs) h (bx, hx) = (<ℤ-trans a b x h bx, All-<ℤ-trans a b xs h hx)

get_or-Increasing :
    (xs : List ℤ)
    → Increasing xs
    → (i j : ℕ) (d : ℤ) → i < j
    → j < length xs
    → get_or xs i d <ℤ get_or xs j d
get_or-Increasing [] s i j d h k = absurd (omega arith)
get_or-Increasing (x ∷ xs) s i zero d h k = absurd (omega arith)
get_or-Increasing (x ∷ xs) (a, s) zero (suc j) d h k =
    All-get_or (λ y. x <ℤ y) xs j d a (omega arith)
get_or-Increasing (x ∷ xs) (a, s) (suc i) (suc j) d h k =
    get_or-Increasing xs s i j d (omega arith) (omega arith)

-- So the search works on an array whose used keys increase.
pub Increasing→IsSorted :
    (xs : List ℤ) (n : ℕ) → n ≤ length xs → Increasing (take n xs) → IsSorted xs n
Increasing→IsSorted xs n h s i j d lt hi =
    rw (sym (get_or-take n xs i d (omega arith)), sym (get_or-take n xs j d hi))
      (get_or-Increasing (take n xs) s i j d lt (omega (arith, length-take n xs)))

All-of-get_or :
    (P : ℤ → Type 0) (xs : List ℤ) (d : ℤ)
    → ((i : ℕ) → i < length xs → P (get_or xs i d))
    → All P xs
All-of-get_or P [] d f = tt
All-of-get_or P (x ∷ xs) d f =
    (f 0 (omega arith), All-of-get_or P xs d (λ i h. f (suc i) (omega arith)))

-- A key goes between those below it and those above it.
pub Increasing-insert :
    (l : ℕ) (xs : List ℤ) (key : ℤ)
    → Increasing xs
    → All (λ y. y <ℤ key) (take l xs)
    → All (λ y. key <ℤ y) (drop l xs)
    → Increasing (take l xs ++ key ∷ drop l xs)
Increasing-insert zero xs key s below above = (above, s)
Increasing-insert (suc l) [] key s below above = (tt, tt)
Increasing-insert (suc l) (x ∷ xs) key (a, s) (xk, below) above = (
  All-append (λ y. x <ℤ y) (take l xs) (key ∷ drop l xs) (All-take (λ y. x <ℤ y) l xs a)
      (xk, All-drop (λ y. x <ℤ y) l xs a),
  Increasing-insert l xs key s below above,
)

-- The place that the search gives, on the used keys.
pub Locates-below :
    (xs : List ℤ) (n : ℕ) (key : ℤ) (l : ℕ)
    → Locates xs n key (not_found l)
    → All (λ y. y <ℤ key) (take l (take n xs))
Locates-below xs n key l (le, below, above) =
    All-of-get_or (λ y. y <ℤ key) (take l (take n xs)) key
      (λ i h.
        let lt : i < l = omega (arith, length-take l (take n xs)) in
        rw (get_or-take l (take n xs) i key lt, get_or-take n xs i key (omega arith)) (below i lt))

pub Locates-above :
    (xs : List ℤ) (n : ℕ) (key : ℤ) (l : ℕ)
    → Locates xs n key (not_found l)
    → All (λ y. key <ℤ y) (drop l (take n xs))
Locates-above xs n key l (le, below, above) =
    All-of-get_or (λ y. key <ℤ y) (drop l (take n xs)) key
      (λ i h.
        let lt : l + i < n = omega (arith, length-drop l (take n xs), length-take n xs) in
        rw (get_or-drop l (take n xs) i (l + i) key refl, get_or-take n xs (l + i) key lt)
          (above (l + i) (omega arith) lt))

All-filter :
    (P : ℤ → Type 0) {A : Type 0} (f : A → ℤ) (p : A → Bool) (xs : List A)
    → All P (map f xs)
    → All P (map f (filter p xs))
All-filter P f p [] h = tt
All-filter P f p (x ∷ xs) (px, hx) = elim (Bool-cases (p x)) [
  | inl e ↦ rw e (px, All-filter P f p xs hx)
  | inr e ↦ rw e (All-filter P f p xs hx)
]

pub Increasing-filter :
    {A : Type 0} (f : A → ℤ) (p : A → Bool) (xs : List A)
    → Increasing (map f xs)
    → Increasing (map f (filter p xs))
Increasing-filter f p [] h = tt
Increasing-filter f p (x ∷ xs) (a, s) = elim (Bool-cases (p x)) [
  | inl e ↦ rw e (All-filter (λ y. f x <ℤ y) f p xs a, Increasing-filter f p xs s)
  | inr e ↦ rw e (Increasing-filter f p xs s)
]
