-- ===== src/Referee/Array/Insert.antt =====
-- What lock_array_get_lock does with an array whose locks are sorted by key.
use mmlib.Base.{
  ℕ, zero, suc, ◌+◌, ◌-◌, ◌≤◌, ◌<◌, ◌≡◌, ◌≢◌, refl, ap, ◌∙◌, subst, sym, ◌⊎◌, inl, inr, true,
  Option, some, List, [], ◌∷◌, ◌++◌, map, arith, length, get_or, take, drop, length-append,
  length-take, length-drop, take-take-append,
}
use mmlib.Base.Int.{ℤ}
use mmlib.Referee.Types.{Lock, lock_init}
use mmlib.Referee.Search.{Index, found, not_found, search_key_index}
use mmlib.Referee.Search.Sorted.{search_key_index-Locates, Locates, IsSorted}
use mmlib.Referee.Array.{
  LockArray, got, overrun, keys_of, lock_array_get_lock, shift_cells, insert_lock, create_lock,
}
use mmlib.Referee.Array.Sorted.{
  Increasing, Increasing→IsSorted, Increasing-insert, Locates-below, Locates-above,
}

abbrev pub used : LockArray → List Lock
used lk_arr = take lk_arr.num_used lk_arr.sorted_array

-- The memory has `num_max` cells, and the used ones are sorted by key.
pub record IsWellFormed (lk_arr : LockArray) : Type 0 where
  pub memory : length lk_arr.sorted_array ≡ lk_arr.num_max
  pub room : lk_arr.num_used ≤ lk_arr.num_max
  pub sorted : Increasing (map Lock.key (used lk_arr))

map-take : (n : ℕ) (xs : List Lock) → map Lock.key (take n xs) ≡ take n (map Lock.key xs)
map-take zero xs = refl
map-take (suc n) [] = refl
map-take (suc n) (x ∷ xs) = ap (λ ys. Lock.key x ∷ ys) (map-take n xs)

length-map : (xs : List Lock) → length (map Lock.key xs) ≡ length xs
length-map [] = refl
length-map (x ∷ xs) = ap suc (length-map xs)

take-shift_cells :
    (l m n : ℕ) (cells rest : List Lock) (lock : Lock)
    → m + l ≡ suc n
    → l ≤ n
    → suc n ≤ length cells
    → take (suc n) (take l cells ++ lock ∷ take m (drop l cells) ++ rest)
      ≡ take l (take n cells) ++ lock ∷ drop l (take n cells)
take-shift_cells zero m n cells rest lock e le h =
    ap (λ ls. lock ∷ ls) (take-take-append n m cells rest (omega arith) (omega arith))
take-shift_cells (suc l) m zero cells rest lock e le h = absurd (omega arith)
take-shift_cells (suc l) m (suc n) [] rest lock e le h = absurd (omega arith)
take-shift_cells (suc l) m (suc n) (c ∷ cells) rest lock e le h =
    ap (λ ls. c ∷ ls)
      (take-shift_cells l m n cells rest lock (omega arith) (omega arith) (omega arith))

length-shifted :
    (cells : List Lock) (l m : ℕ) (lock : Lock)
    → l + 1 + m ≤ length cells
    → length (take l cells ++ lock ∷ take m (drop l cells) ++ drop (l + 1 + m) cells) ≡ length cells
length-shifted cells l m lock h =
    let rest = drop (l + 1 + m) cells in
    let moved = take m (drop l cells) in
    omega (
      arith,
      length-append (take l cells ++ lock ∷ moved) rest,
      length-append (take l cells) (lock ∷ moved),
      length-take l cells,
      length-take m (drop l cells),
      length-drop l cells,
      length-drop (l + 1 + m) cells,
    )

map_shift :
    (l : ℕ) (key : ℤ) (xs : List Lock)
    → map Lock.key (take l xs ++ lock_init key ∷ drop l xs)
      ≡ take l (map Lock.key xs) ++ key ∷ drop l (map Lock.key xs)
unfolding lock_init
map_shift zero key xs = refl
map_shift (suc l) key [] = refl
map_shift (suc l) key (x ∷ xs) = ap (λ ys. Lock.key x ∷ ys) (map_shift l key xs)

-- The array with a new lock at `index`, all else kept.
abbrev pub Inserted : LockArray → ℕ → ℤ → LockArray → Type 0
Inserted lk_arr index key result =
    (used result ≡ take index (used lk_arr) ++ lock_init key ∷ drop index (used lk_arr))
    × IsWellFormed result

module _ (lk_arr : LockArray) (index : ℕ) (key : ℤ) where
  abbrev n : ℕ
  n = lk_arr.num_used

  abbrev result : LockArray
  result = record {
    num_used = n + 1;
    num_max = lk_arr.num_max;
    sorted_array = shift_cells lk_arr.sorted_array index (n + 1 - index) key;
  }

  used-result :
      index ≤ n
      → n + 1 ≤ length lk_arr.sorted_array
      → used result ≡ take index (used lk_arr) ++ lock_init key ∷ drop index (used lk_arr)
  unfolding shift_cells
  used-result le h =
      subst
        (λ k.
          take k (shift_cells lk_arr.sorted_array index (n + 1 - index) key)
          ≡ take index (used lk_arr) ++ lock_init key ∷ drop index (used lk_arr))
        {x = suc n} (omega arith)
        (take-shift_cells index (n + 1 - index) n lk_arr.sorted_array
          (drop (index + 1 + (n + 1 - index)) lk_arr.sorted_array) (lock_init key) (omega arith) le
          (omega arith))

  length_result :
      index ≤ n
      → n + 2 ≤ length lk_arr.sorted_array
      → length result.sorted_array ≡ length lk_arr.sorted_array
  unfolding shift_cells
  length_result le h =
      length-shifted lk_arr.sorted_array index (n + 1 - index) (lock_init key) (omega arith)

  insert_lock-Inserted :
      IsWellFormed lk_arr
      → n + 2 ≤ lk_arr.num_max
      → Locates (keys_of lk_arr) n key (not_found index)
      → (insert_lock lk_arr index key ≡ got result index) × Inserted lk_arr index key result
  unfolding insert_lock
  insert_lock-Inserted wf fits loc = (
    ground (arith, wf.memory, loc.0),
    (
      used-result loc.0 (omega arith),
      record {
        memory = length_result loc.0 (omega arith) ∙ wf.memory;
        room = omega arith;
        sorted =
            rw (used-result loc.0 (omega arith), map_shift index key (used lk_arr))
              (Increasing-insert index (map Lock.key (used lk_arr)) key wf.sorted
                (rw (map-take n lk_arr.sorted_array)
                  (Locates-below (keys_of lk_arr) n key index loc))
                (rw (map-take n lk_arr.sorted_array)
                  (Locates-above (keys_of lk_arr) n key index loc)));
      },
    ),
  )

module _ (realloc : ℕ → Option (List Lock)) (lk_arr : LockArray) (key : ℤ) where
  -- The call returns the position of the key's lock: of the one that is there, or of a new one.
  abbrev pub Creates : Type 0
  Creates =
      (result : LockArray) × (index : ℕ) × (lock_array_get_lock realloc lk_arr key true
        ≡ some (got result index))
      × (((result ≡ lk_arr) × (index < lk_arr.num_used) × (get_or (keys_of lk_arr) index key ≡ key))
          ⊎ ((index ≤ lk_arr.num_used) × Inserted lk_arr index key result))

  abbrev Search : Index → Type 0
  Search r = search_key_index (keys_of lk_arr) lk_arr.num_used key ≡ some r

  create_lock-small :
      (l : ℕ)
      → lk_arr.num_used + 1 ≤ lk_arr.num_max
      → create_lock realloc lk_arr l key ≡ insert_lock lk_arr l key
  unfolding create_lock
  create_lock-small l h = ground arith

  Locates-Creates :
      IsWellFormed lk_arr
      → lk_arr.num_used + 2 ≤ lk_arr.num_max
      → (r : Index) → Search r
      → Locates (keys_of lk_arr) lk_arr.num_used key r
      → Creates
  unfolding lock_array_get_lock
  Locates-Creates wf fits (found m) e loc =
      (lk_arr, m, rw (e, lock_array_get_lock) refl, inl (refl, loc.0, loc.1))
  Locates-Creates wf fits (not_found l) e loc =
      let (inserts, inserted) = insert_lock-Inserted lk_arr l key wf fits loc in
      (
        result lk_arr l key,
        l,
        rw (e, lock_array_get_lock, create_lock-small l (omega arith), inserts) refl,
        inr (loc.0, inserted),
      )

  used-IsSorted : IsWellFormed lk_arr → IsSorted (keys_of lk_arr) lk_arr.num_used
  used-IsSorted wf =
      Increasing→IsSorted (keys_of lk_arr) lk_arr.num_used
        (omega (arith, length-map lk_arr.sorted_array, wf.memory, wf.room))
        (rw (sym (map-take lk_arr.num_used lk_arr.sorted_array)) wf.sorted)

  -- With two free cells in the array, a call of lock_array_get_lock that may make the lock returns the
  -- lock of the key. An array without the key gets it, new, in its place; the others keep their order.
  pub lock_array_get_lock-creates :
      IsWellFormed lk_arr → lk_arr.num_used + 2 ≤ lk_arr.num_max → Creates
  lock_array_get_lock-creates wf fits =
      let (r, e, loc) =
        search_key_index-Locates (keys_of lk_arr) lk_arr.num_used key (used-IsSorted wf) in
      Locates-Creates wf fits r e loc

  overruns_at :
      IsWellFormed lk_arr
      → lk_arr.num_used + 1 ≡ lk_arr.num_max
      → ((i : ℕ) → i < lk_arr.num_used → get_or (keys_of lk_arr) i key ≢ key)
      → (r : Index) → Search r
      → Locates (keys_of lk_arr) lk_arr.num_used key r
      → lock_array_get_lock realloc lk_arr key true ≡ some overrun
  unfolding lock_array_get_lock insert_lock
  overruns_at wf full absent (found m) e loc = absurd (absent m loc.0 loc.1)
  overruns_at wf full absent (not_found l) e loc =
      rw (e, lock_array_get_lock, create_lock-small l (omega arith))
        (ground (arith, wf.memory, loc.0))

  -- With one free cell, memmove writes behind the array when the key is not there.
  pub lock_array_get_lock-overruns :
      IsWellFormed lk_arr
      → lk_arr.num_used + 1 ≡ lk_arr.num_max
      → ((i : ℕ) → i < lk_arr.num_used → get_or (keys_of lk_arr) i key ≢ key)
      → lock_array_get_lock realloc lk_arr key true ≡ some overrun
  lock_array_get_lock-overruns wf full absent =
      let (r, e, loc) =
        search_key_index-Locates (keys_of lk_arr) lk_arr.num_used key (used-IsSorted wf) in
      overruns_at wf full absent r e loc
