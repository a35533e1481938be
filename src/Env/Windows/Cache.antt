-- ===== src/Env/Windows/Cache.antt =====
-- src/env-win32.c: the operations of the cache, as changes of what it has for one name.

use mmlib.Base.{
  ℕ, ◌≡◌, ◌≢◌, refl, sym, ap, ◌∙◌, inl, inr, true, false, Bool-cases, Option, none, List, [], ◌∷◌,
  ◌++◌, arith, get_or, set,
}
use mmlib.Base.CString.{Bytes}
use mmlib.Env.Windows.{Envstr, matches, find_entry, remove_at, no_entry}
use mmlib.Env.Windows.Entries.{
  IsEntry, IsCache, lookup, SameName, Found, here, there, apart-false, find_entry-append_other,
  find_entry-set, find_entry-none, find_entry-remove_none, lookup-none, matches_unique,
}

-- The entries have another value for one name, and the same for every other.
pub record Changed (before : List Envstr) (name : Bytes) (value : Option Bytes)
    (after : List Envstr) : Type 0 where
  pub valid : IsCache after
  pub reads : lookup after name ≡ value
  pub others : (other : Bytes) → other ≢ name → lookup after other ≡ lookup before other

new-apart :
    (x y : Envstr) (name other : Bytes)
    → matches y name ≡ true
    → matches x name ≡ false
    → matches x other ≡ true
    → matches y other ≡ false
new-apart x y name other m mx k = elim (Bool-cases (matches y other)) [
  | inl l ↦ absurd (ground (arith, mx, k, ap (λ n. matches x n) (matches_unique y name other m l)))
  | inr l ↦ l
]

pub IsCache-append :
    (xs : List Envstr) (y : Envstr) (name : Bytes)
    → IsCache xs
    → IsEntry y
    → matches y name ≡ true
    → find_entry xs name ≡ none
    → IsCache (xs ++ y ∷ [])
unfolding find_entry
IsCache-append [] y name h entry m e = (entry, λ other k. refl, tt)
IsCache-append (x ∷ xs) y name (ex, unique, h) entry m e =
    let (mx, rest) = find_entry-none x xs name e in
    (
      ex,
      λ other k.
          find_entry-append_other xs y other (new-apart x y name other m mx k) ∙ unique other k,
      IsCache-append xs y name h entry m rest,
    )

pub IsCache-set :
    (name : Bytes) (xs : List Envstr) (i : ℕ) (y : Envstr)
    → IsCache xs
    → Found name xs i
    → IsEntry y
    → ((d : Envstr) → SameName y (get_or xs i d))
    → IsCache (set xs i y)
IsCache-set name [] i y h f entry same = elim f [ ]
IsCache-set name (x ∷ xs) _ y (ex, unique, h) (here m) entry same =
    (entry, λ other k. unique other (sym (same no_entry other) ∙ k), h)
IsCache-set name (x ∷ xs) _ y (ex, unique, h) (there {i = i} m f) entry same = (
  ex,
  λ other k. find_entry-set name xs i y other f (λ d. same d other) ∙ unique other k,
  IsCache-set name xs i y h f entry same,
)

pub get_or-Found :
    (name : Bytes) (xs : List Envstr) (i : ℕ) (d d' : Envstr)
    → Found name xs i
    → get_or xs i d ≡ get_or xs i d'
get_or-Found name [] i d d' f = elim f [ ]
get_or-Found name (x ∷ xs) _ d d' (here m) = refl
get_or-Found name (x ∷ xs) _ d d' (there m f) = get_or-Found name xs _ d d' f

pub IsEntry-Found :
    (name : Bytes) (xs : List Envstr) (i : ℕ) (d : Envstr)
    → IsCache xs
    → Found name xs i
    → IsEntry (get_or xs i d)
IsEntry-Found name [] i d h f = elim f [ ]
IsEntry-Found name (x ∷ xs) _ d (entry, unique, h) (here m) = entry
IsEntry-Found name (x ∷ xs) _ d (entry, unique, h) (there m f) = IsEntry-Found name xs _ d h f

pub IsCache-remove :
    (name : Bytes) (xs : List Envstr) (i : ℕ)
    → IsCache xs
    → Found name xs i
    → Changed xs name none (remove_at xs i)
unfolding lookup find_entry
IsCache-remove name [] i h f = elim f [ ]
IsCache-remove name (x ∷ xs) _ (ex, unique, h) (here m) = record {
  valid = h;
  reads = lookup-none name xs (unique name m);
  others = λ other apart. rw (apart-false x name other m apart) refl;
}
IsCache-remove name (x ∷ xs) _ (ex, unique, h) (there {i = i} m f) =
    let rest = IsCache-remove name xs i h f in
    record {
      valid = (ex, λ other k. find_entry-remove_none xs i other (unique other k), rest.valid);
      reads = rw (m, rest.reads) refl;
      others = λ other apart. rw (rest.others other apart) refl;
    }
