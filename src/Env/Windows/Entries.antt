-- ===== src/Env/Windows/Entries.antt =====
-- src/env-win32.c: what the cache has for a name, and what each change of an entry makes of that.
use mmlib.Base.{
  ℕ, zero, suc, ◌≤◌, ◌≡◌, ◌≢◌, refl, sym, ◌∙◌, subst, inl, inr, Bool, true, false, Bool-cases,
  Option, Option-cases, none, some, List, [], ◌∷◌, ◌++◌, arith, if◌then◌else◌, length, get_or, take,
  set,
}
use mathlib.Core.Option.{some-injective}
use mmlib.Base.CString.{Bytes, bytes_eq→≡}
use mmlib.Env.Windows.{Envstr, envstr_get_value, matches, next_index, find_entry, remove_at}

-- An entry holds its name and the '=', in a buffer with room for the terminator.
pub record IsEntry (entry : Envstr) : Type 0 where
  pub has_value : suc entry.namelen ≤ length entry.str
  pub fits : suc (length entry.str) ≤ entry.str_maxlen

-- No two entries have one name.
abbrev pub IsCache : List Envstr → Type 0
IsCache [] = Unit
IsCache (entry ∷ entries) =
    IsEntry entry
    × ((name : Bytes) → matches entry name ≡ true → find_entry entries name ≡ none)
    × IsCache entries

-- The value in the cache: that of the first entry of the name.
unfoldable pub lookup : List Envstr → (name : Bytes) → Option Bytes
lookup [] name = none
lookup (entry ∷ entries) name =
    let rest = lookup entries name in
    if matches entry name then some (envstr_get_value entry) else rest

matches→name :
    (entry : Envstr) (name : Bytes)
    → matches entry name ≡ true
    → take entry.namelen entry.str ≡ name
unfolding matches
matches→name entry name h = bytes_eq→≡ (take entry.namelen entry.str) name (ground (arith, h))

pub matches_unique :
    (entry : Envstr) (name other : Bytes)
    → matches entry name ≡ true
    → matches entry other ≡ true
    → name ≡ other
matches_unique entry name other h k = sym (matches→name entry name h) ∙ matches→name entry other k

-- Two entries of one name.
abbrev pub SameName : Envstr → Envstr → Type 0
SameName x y = (name : Bytes) → matches x name ≡ matches y name

-- The first entry of the name, by its index.
pub data Found (name : Bytes) : List Envstr → ℕ → Type 0 where
  here : {x : Envstr} {xs : List Envstr} → matches x name ≡ true → Found name (x ∷ xs) 0
  there :
      {x : Envstr} {xs : List Envstr} {i : ℕ}
      → matches x name ≡ false
      → Found name xs i
      → Found name (x ∷ xs) (suc i)

find_entry-Found_in :
    (name : Bytes) (x : Envstr) (xs : List Envstr) (i : ℕ) (b : Bool) (found : Option ℕ)
    → matches x name ≡ b
    → ((j : ℕ) → found ≡ some j → Found name xs j)
    → (if b then some 0 else next_index found) ≡ some i
    → Found name (x ∷ xs) i
find_entry-Found_in name x xs i true found m rest e =
    subst (λ k. Found name (x ∷ xs) k) (some-injective 0 i e) (here m)
find_entry-Found_in name x xs i false none m rest e = absurd (ground (arith, e))
find_entry-Found_in name x xs i false (some j) m rest e =
    subst (λ k. Found name (x ∷ xs) k) (some-injective (suc j) i e) (there m (rest j refl))

pub find_entry-Found :
    (name : Bytes) (xs : List Envstr) (i : ℕ) → find_entry xs name ≡ some i → Found name xs i
unfolding find_entry
find_entry-Found name [] i e = absurd (ground (arith, e))
find_entry-Found name (x ∷ xs) i e =
    find_entry-Found_in name x xs i (matches x name) (find_entry xs name) refl
      (find_entry-Found name xs) e

pub Found-find_entry :
    (name : Bytes) (xs : List Envstr) (i : ℕ) → Found name xs i → find_entry xs name ≡ some i
unfolding find_entry
Found-find_entry name [] i f = elim f [ ]
Found-find_entry name (x ∷ xs) _ (here m) = rw m refl
Found-find_entry name (x ∷ xs) _ (there m f) = rw (m, Found-find_entry name xs _ f) refl

pub lookup-Found :
    (name : Bytes) (xs : List Envstr) (i : ℕ) (d : Envstr)
    → Found name xs i
    → lookup xs name ≡ some (envstr_get_value (get_or xs i d))
unfolding lookup
lookup-Found name [] i d f = elim f [ ]
lookup-Found name (x ∷ xs) _ d (here m) = rw m refl
lookup-Found name (x ∷ xs) _ d (there m f) = rw (m, lookup-Found name xs _ d f) refl

pub find_entry-none :
    (x : Envstr) (xs : List Envstr) (name : Bytes)
    → find_entry (x ∷ xs) name ≡ none
    → (matches x name ≡ false) × (find_entry xs name ≡ none)
unfolding find_entry
find_entry-none x xs name e = elim (Bool-cases (matches x name)) [
  | inl k ↦ absurd (ground (arith, e, k))
  | inr k ↦ elim (Option-cases (find_entry xs name)) [
    | inl l ↦ (k, l)
    | inr (j, l) ↦ absurd (ground (arith, e, k, l))
  ]
]

pub find_entry-remove_none :
    (xs : List Envstr) (i : ℕ) (name : Bytes)
    → find_entry xs name ≡ none
    → find_entry (remove_at xs i) name ≡ none
unfolding find_entry
find_entry-remove_none [] zero name e = refl
find_entry-remove_none [] (suc i) name e = refl
find_entry-remove_none (x ∷ xs) zero name e = (find_entry-none x xs name e).1
find_entry-remove_none (x ∷ xs) (suc i) name e =
    let (m, k) = find_entry-none x xs name e in rw (m, find_entry-remove_none xs i name k) refl

pub lookup-none :
    (name : Bytes) (xs : List Envstr) → find_entry xs name ≡ none → lookup xs name ≡ none
unfolding lookup find_entry
lookup-none name [] e = refl
lookup-none name (x ∷ xs) e =
    let (m, k) = find_entry-none x xs name e in rw (m, lookup-none name xs k) refl

pub apart-false :
    (x : Envstr) (name other : Bytes)
    → matches x name ≡ true
    → other ≢ name
    → matches x other ≡ false
apart-false x name other m apart = elim (Bool-cases (matches x other)) [
  | inl k ↦ absurd (apart (matches_unique x other name k m))
  | inr k ↦ k
]

-- A new entry at the end.
pub Found-append :
    (name : Bytes) (xs : List Envstr) (y : Envstr)
    → find_entry xs name ≡ none
    → matches y name ≡ true
    → Found name (xs ++ y ∷ []) (length xs)
unfolding find_entry
Found-append name [] y e m = here m
Found-append name (x ∷ xs) y e m =
    let (k, l) = find_entry-none x xs name e in there k (Found-append name xs y l m)

pub lookup-append_other :
    (xs : List Envstr) (y : Envstr) (other : Bytes)
    → matches y other ≡ false
    → lookup (xs ++ y ∷ []) other ≡ lookup xs other
unfolding lookup
lookup-append_other [] y other m = rw m refl
lookup-append_other (x ∷ xs) y other m = rw (lookup-append_other xs y other m) refl

pub find_entry-append_other :
    (xs : List Envstr) (y : Envstr) (other : Bytes)
    → matches y other ≡ false
    → find_entry (xs ++ y ∷ []) other ≡ find_entry xs other
unfolding find_entry
find_entry-append_other [] y other m = rw m refl
find_entry-append_other (x ∷ xs) y other m = rw (find_entry-append_other xs y other m) refl

-- An entry in the place of one of the same name.
pub Found-set :
    (name : Bytes) (xs : List Envstr) (i : ℕ) (y : Envstr)
    → Found name xs i
    → matches y name ≡ true
    → Found name (set xs i y) i
Found-set name [] i y f k = elim f [ ]
Found-set name (x ∷ xs) _ y (here m) k = here k
Found-set name (x ∷ xs) _ y (there m f) k = there m (Found-set name xs _ y f k)

pub get_or-set :
    (name : Bytes) (xs : List Envstr) (i : ℕ) (y d : Envstr)
    → Found name xs i
    → get_or (set xs i y) i d ≡ y
get_or-set name [] i y d f = elim f [ ]
get_or-set name (x ∷ xs) _ y d (here m) = refl
get_or-set name (x ∷ xs) _ y d (there m f) = get_or-set name xs _ y d f

pub matches-Found :
    (name : Bytes) (xs : List Envstr) (i : ℕ) (d : Envstr)
    → Found name xs i
    → matches (get_or xs i d) name ≡ true
matches-Found name [] i d f = elim f [ ]
matches-Found name (x ∷ xs) _ d (here m) = m
matches-Found name (x ∷ xs) _ d (there m f) = matches-Found name xs _ d f

pub lookup-set_other :
    (name : Bytes) (xs : List Envstr) (i : ℕ) (y : Envstr) (other : Bytes)
    → Found name xs i
    → matches y other ≡ false
    → other ≢ name
    → lookup (set xs i y) other ≡ lookup xs other
unfolding lookup
lookup-set_other name [] i y other f k apart = elim f [ ]
lookup-set_other name (x ∷ xs) _ y other (here m) k apart =
    rw (k, apart-false x name other m apart) refl
lookup-set_other name (x ∷ xs) _ y other (there m f) k apart =
    rw (lookup-set_other name xs _ y other f k apart) refl

pub find_entry-set :
    (name : Bytes) (xs : List Envstr) (i : ℕ) (y : Envstr) (other : Bytes)
    → Found name xs i
    → ((d : Envstr) → matches y other ≡ matches (get_or xs i d) other)
    → find_entry (set xs i y) other ≡ find_entry xs other
unfolding find_entry
find_entry-set name [] i y other f k = elim f [ ]
find_entry-set name (x ∷ xs) _ y other (here m) k = rw (k x) refl
find_entry-set name (x ∷ xs) _ y other (there m f) k =
    rw (find_entry-set name xs _ y other f k) refl
