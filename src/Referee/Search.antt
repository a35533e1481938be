-- ===== src/Referee/Search.antt =====
-- src/lock-referee-server.c, search_key_index: binary search in the array of locks by key.
pub mod Sorted
use mmlib.Base.{
  ℕ, zero, suc, ◌+◌, ◌-◌, ◌/◌, Bool, Option, none, some, List, ltb, if◌then◌else◌, get_or,
}
use mmlib.Base.Int.{ℤ, ltb_ℤ}
use mmlib.Referee.Types.{◌==ℤ◌}

-- The index of the key, or the position to insert it at: the C function marks that one by
-- KEY_NOTFOUND_FLAG.
pub data Index : Type 0 where
  found : ℕ → Index
  not_found : ℕ → Index

-- The `while` loop, where `h` is one more than that of the code, so that it is no negative number.
-- Each round takes the middle out: fuel above `h - l` is enough, and `none` means that it ran out.
unfoldable pub search_loop : ℕ → List ℤ → ℤ → (l h : ℕ) → Option Index
search_loop zero keys key l h = none
search_loop (suc fuel) keys key l h =
    let m = (l + (h - 1)) / 2 in
    let k = get_or keys m key in
    let lower = search_loop fuel keys key l m in
    let upper = search_loop fuel keys key (m + 1) h in
    if ltb l h
    then (if key ==ℤ k then some (found m) else if ltb_ℤ key k then lower else upper)
    else some (not_found l)

unfoldable pub search_key_index : List ℤ → (len : ℕ) → ℤ → Option Index
search_key_index keys len key = search_loop (len + 1) keys key 0 len
