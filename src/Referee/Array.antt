-- ===== src/Referee/Array.antt =====
-- src/lock-referee-server.c, the array of locks: how a lock is found or made, and how the unused ones are
-- dropped. The cells of the array are a list whose length is the memory really held.
pub mod Sorted
pub mod Insert
pub mod Compact
use mmlib.Base.{
  ℕ, zero, suc, ◌+◌, ◌-◌, ◌*◌, Bool, true, false, Option, none, some, List, [], ◌∷◌, ◌++◌, map, ltb,
  leb, ◌==◌, if◌then◌else◌, length, get_or, set, take, drop, replicate,
}
use mmlib.Base.Int.{ℤ, pos}
use mmlib.Referee.Types.{Lock, lock_init, lock_is_unused}
use mmlib.Referee.Search.{Index, found, not_found, search_key_index}

-- `struct lock_array`
pub record LockArray : Type 0 where
  pub num_used : ℕ
  pub num_max : ℕ
  pub sorted_array : List Lock

abbrev pub lock_list_initial_len : ℕ
lock_list_initial_len = 128

-- `calloc` gives zeroed cells, or none.
pub lock_array_init : (allocated : Bool) → Option LockArray
lock_array_init true = some record {
  num_used = 0;
  num_max = lock_list_initial_len;
  sorted_array = replicate lock_list_initial_len (lock_init (pos 0));
}
lock_array_init false = none

-- What lock_array_get_lock returns, with the array that it leaves: NULL, a position, or nothing because
-- memmove wrote behind the memory of the array.
pub data Got : Type 0 where
  null : LockArray → Got
  got : LockArray → ℕ → Got
  overrun : Got

-- `memmove(locks+index+1, locks+index, len*sizeof(*locks))`, then `lock_init(&locks[index], key)`.
pub shift_cells : List Lock → (index len : ℕ) → ℤ → List Lock
shift_cells cells index len key =
    take index cells ++ lock_init key ∷ take len (drop index cells) ++ drop (index + 1 + len) cells

-- The end of the insertion, from `num_used++` on: memmove writes up to the cell `index + len`.
pub insert_lock : LockArray → (index : ℕ) → ℤ → Got
insert_lock lk_arr index key =
    let num_used = lk_arr.num_used + 1 in
    let len = num_used - index in
    if leb (index + 1 + len) (length lk_arr.sorted_array)
    then got
        record {
          num_used = num_used;
          num_max = lk_arr.num_max;
          sorted_array = shift_cells lk_arr.sorted_array index len key;
        }
        index
    else overrun

-- realloc to twice the size; it fails, or gives the cells that it adds. `num_max` is doubled anyway.
pub resize : (realloc : ℕ → Option (List Lock)) → LockArray → LockArray × Bool
resize realloc lk_arr = elim (realloc (lk_arr.num_max * 2 - lk_arr.num_max)) [
  | none ↦ (
    record {
      num_used = lk_arr.num_used;
      num_max = lk_arr.num_max * 2;
      sorted_array = lk_arr.sorted_array;
    },
    false,
  )
  | some added ↦ (
    record {
      num_used = lk_arr.num_used;
      num_max = lk_arr.num_max * 2;
      sorted_array = lk_arr.sorted_array ++ added;
    },
    true,
  )
]

pub create_lock : (realloc : ℕ → Option (List Lock)) → LockArray → (index : ℕ) → ℤ → Got
create_lock realloc lk_arr index key =
    if ltb lk_arr.num_max (lk_arr.num_used + 1)
    then (let (resized, done) = resize realloc lk_arr in
        if done then insert_lock resized index key else null resized)
    else insert_lock lk_arr index key

abbrev pub keys_of : LockArray → List ℤ
keys_of lk_arr = map Lock.key lk_arr.sorted_array

-- `none` would mean that the search does not end.
unfoldable pub lock_array_get_lock :
    (realloc : ℕ → Option (List Lock)) → LockArray → ℤ → (create : Bool) → Option Got
lock_array_get_lock realloc lk_arr key create =
    elim (search_key_index (keys_of lk_arr) lk_arr.num_used key) [
      | none ↦ none
      | some (found index) ↦ some (got lk_arr index)
      | some (not_found index) ↦
          some (if create then create_lock realloc lk_arr index key else null lk_arr)
    ]

-- The loop of lock_array_drop_unused for the `n` cells from `src` on: the cells, and the last `dst`.
pub drop_loop : ℕ → List Lock → (src dst : ℕ) → List Lock × ℕ
drop_loop zero cells src dst = (cells, dst)
drop_loop (suc n) cells src dst =
    let lock = get_or cells src (lock_init (pos 0)) in
    let skipped = drop_loop n cells (src + 1) dst in
    let kept = drop_loop n cells (src + 1) (dst + 1) in
    let moved = drop_loop n (set cells dst lock) (src + 1) (dst + 1) in
    if lock_is_unused lock then skipped else if src == dst then kept else moved

pub lock_array_drop_unused : LockArray → LockArray
lock_array_drop_unused lk_arr =
    let (cells, dst) = drop_loop lk_arr.num_used lk_arr.sorted_array 0 0 in
    record {
      num_used = lk_arr.num_used + dst - lk_arr.num_used;
      num_max = lk_arr.num_max;
      sorted_array = cells;
    }
