-- ===== src/Env/Windows.antt =====
-- src/env-win32.c: the environment in UTF-8, a cache of "name=value" strings in front of the UTF-16
-- environment of the C runtime. A pointer to an entry of the cache is its index, `arrlen` is the length of
-- `array`, and `str` is the C string that the buffer holds.
mod Entries
pub mod Utf8
mod Changes
mod Cache
mod Create
mod Update
mod Agree
mod Set
mod Unset
mod Examples
use mmlib.Base.{
  ℕ, suc, ◌+◌, ◌*◌, Bool, true, false, Option, none, some, List, [], ◌∷◌, ◌++◌, ltb, ◌==◌,
  if◌then◌else◌, length, get_or, take, drop, set, map, is_some,
}
use mmlib.Base.Int.{ℤ, pos, negsuc}
use mmlib.Base.CString.{Bytes, codes, bytes_eq}

abbrev pub Utf16 : Type 0
Utf16 = List ℕ

-- struct envstr
pub record Envstr : Type 0 where
  pub str : Bytes
  pub namelen : ℕ
  pub str_maxlen : ℕ

-- struct envcache
pub record Envcache : Type 0 where
  pub max_arrlen : ℕ
  pub array : List Envstr
  pub envp : List Bytes

-- The buffers that are allocated: a string, in bytes, or one of the two arrays, in elements.
pub data Buffer : Type 0 where
  string_buffer : Buffer
  array_buffer : Buffer
  envp_buffer : Buffer

-- The allocations of a call that succeed.
abbrev pub Malloc : Type 0
Malloc = Buffer → (size : ℕ) → Bool

-- Windows: the conversions, `none` where they refuse the string, _wgetenv, _wputenv, which says whether it
-- succeeds, and GetEnvironmentStringsW, on an environment of type `E`.
pub record Crt (E : Type 0) : Type 0 where
  pub multi_byte_to_wide_char : Bytes → Option Utf16
  pub wide_char_to_multi_byte : Utf16 → Option Bytes
  pub wgetenv : E → Utf16 → Option Utf16
  pub wputenv : E → Utf16 → E × Bool
  pub get_environment_strings : E → Option (List Utf16)

abbrev pub equal_sign : ℕ
equal_sign = b'='

abbrev no_entry : Envstr
no_entry = record { str = []; namelen = 0; str_maxlen = 0 }

unfoldable pub envstr_init : Malloc → (name : Bytes) → Option Envstr
envstr_init malloc name =
    if malloc string_buffer (length name + 64)
    then some (record {
      str = name ++ equal_sign ∷ [];
      namelen = length name;
      str_maxlen = length name + 64;
    })
    else none

unfoldable pub envstr_get_value : Envstr → Bytes
envstr_get_value entry = drop (suc entry.namelen) entry.str

unfoldable pub envstr_resize_value : Malloc → Envstr → (value_len : ℕ) → Option Envstr
envstr_resize_value malloc entry value_len =
    let envstr_len = value_len + entry.namelen + 2 in
    if ltb entry.str_maxlen envstr_len
    then if malloc string_buffer envstr_len
      then some (record { str = entry.str; namelen = entry.namelen; str_maxlen = envstr_len })
      else none
    else some entry

-- The copy of a value, with its terminator, after the '='.
abbrev pub write_value : Envstr → (value : Bytes) → Envstr
write_value entry value = record {
  str = take (suc entry.namelen) entry.str ++ value;
  namelen = entry.namelen;
  str_maxlen = entry.str_maxlen;
}

unfoldable pub envstr_set_value : Malloc → Envstr → (value : Bytes) → Option Envstr
envstr_set_value malloc entry value = elim (envstr_resize_value malloc entry (length value)) [
  | none ↦ none
  | some resized ↦ some (write_value resized value)
]

unfoldable pub envcache_deinit : Envcache → Envcache
envcache_deinit cache = record { max_arrlen = 0; array = []; envp = [] }

-- The two tests of the search.
unfoldable pub matches : Envstr → (name : Bytes) → Bool
matches entry name =
    if length name == entry.namelen then bytes_eq (take entry.namelen entry.str) name else false

abbrev pub next_index : Option ℕ → Option ℕ
next_index none = none
next_index (some i) = some (suc i)

unfoldable pub find_entry : List Envstr → (name : Bytes) → Option ℕ
find_entry [] name = none
find_entry (entry ∷ entries) name =
    let rest = find_entry entries name in if matches entry name then some 0 else next_index rest

unfoldable pub envcache_find_entry : Envcache → (name : Bytes) → Option ℕ
envcache_find_entry cache name = find_entry cache.array name

-- The array of the cache when it has room for one more entry; `none` when it cannot get it.
unfoldable pub grow_array : Malloc → Envcache → Option Envcache
grow_array malloc cache =
    let max_arrlen = if cache.max_arrlen == 0 then 32 else cache.max_arrlen * 2 in
    if ltb cache.max_arrlen (length cache.array + 1)
    then if malloc array_buffer max_arrlen
      then some (record { max_arrlen = max_arrlen; array = cache.array; envp = cache.envp })
      else none
    else some cache

abbrev pub with_array : Envcache → List Envstr → Envcache
with_array cache array = record { max_arrlen = cache.max_arrlen; array = array; envp = cache.envp }

abbrev pub append_entry : Envcache → Option Envstr → Envcache × Option ℕ
append_entry cache none = (cache, none)
append_entry cache (some entry) =
    (with_array cache (cache.array ++ entry ∷ []), some (length cache.array))

abbrev pub create_in :
    Malloc → (cache : Envcache) → (grown : Option Envcache) → Bytes → Envcache × Option ℕ
create_in malloc cache none name = (cache, none)
create_in malloc cache (some grown) name = append_entry grown (envstr_init malloc name)

unfoldable pub envcache_create_entry : Malloc → Envcache → (name : Bytes) → Envcache × Option ℕ
envcache_create_entry malloc cache name = create_in malloc cache (grow_array malloc cache) name

abbrev pub remove_at : List Envstr → ℕ → List Envstr
remove_at entries index = take index entries ++ drop (suc index) entries

unfoldable pub envcache_remove_entry : Envcache → (entry : Option ℕ) → Envcache
envcache_remove_entry cache none = cache
envcache_remove_entry cache (some index) = with_array cache (remove_at cache.array index)

unfoldable pub envcache_update_envp : Malloc → Envcache → Envcache × Option (List Bytes)
envcache_update_envp malloc cache =
    let envp = map (λ entry. entry.str) cache.array in
    if malloc envp_buffer (length cache.array + 1)
    then (record { max_arrlen = cache.max_arrlen; array = cache.array; envp = envp }, some envp)
    else (cache, none)

abbrev pub entry_at : Envcache → ℕ → Envstr
entry_at cache index = get_or cache.array index no_entry

-- An entry after a change, if it could be made: with what the caller then returns.
abbrev pub update_entry : Envcache → ℕ → Option Envstr → Envcache × Bool
update_entry cache index none = (cache, false)
update_entry cache index (some entry) = (with_array cache (set cache.array index entry), true)

-- envstr_set_value() on an entry of the cache.
abbrev pub set_value_at : Malloc → Envcache → ℕ → (value : Bytes) → Envcache × Bool
set_value_at malloc cache index value =
    update_entry cache index (envstr_set_value malloc (entry_at cache index) value)

-- The entry of the name, which is created when there is none.
abbrev or_create : Malloc → Envcache → (found : Option ℕ) → Bytes → Envcache × Option ℕ
or_create malloc cache none name = envcache_create_entry malloc cache name
or_create malloc cache (some index) name = (cache, some index)

unfoldable pub find_or_create : Malloc → Envcache → (name : Bytes) → Envcache × Option ℕ
find_or_create malloc cache name = or_create malloc cache (envcache_find_entry cache name) name
