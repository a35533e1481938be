-- ===== src/Env/Windows/Utf8.antt =====
-- src/env-win32.c, the environment in UTF-8. The state is the environment of the C runtime and the cache.
use mmlib.Base.{
  ℕ, Bool, true, false, Option, none, some, List, [], ◌∷◌, ◌++◌, ◌==◌, if◌then◌else◌, not, ◌&&◌,
  is_some,
}
use mmlib.Base.Int.{ℤ, pos, negsuc}
use mmlib.Base.CString.{Bytes}
use mmlib.Env.Windows.{
  Utf16, Envcache, Malloc, Crt, equal_sign, envstr_get_value, entry_at, envcache_find_entry,
  envcache_create_entry, envcache_remove_entry, envcache_update_envp, set_value_at, find_or_create,
}

-- The string before the first '=', and the one behind it; `none` where strchr finds none.
abbrev next_char : ℕ → Option (Bytes × Bytes) → Option (Bytes × Bytes)
next_char c none = none
next_char c (some (name, value)) = some (c ∷ name, value)

unfoldable pub split_envstr : Bytes → Option (Bytes × Bytes)
split_envstr [] = none
split_envstr (c ∷ s) =
    let rest = split_envstr s in if c == equal_sign then some ([], s) else next_char c rest

-- The cache, and the index of the entry of the name when there is one.
abbrev store_value : Malloc → Envcache × Option ℕ → (value : Bytes) → Envcache × Bool
store_value malloc (cache, none) value = (cache, false)
store_value malloc (cache, some index) value = set_value_at malloc cache index value

abbrev update_split : Malloc → Envcache → Option (Bytes × Bytes) → Option Envcache
update_split malloc cache none = none
update_split malloc cache (some (name, value)) =
    some (store_value malloc (find_or_create malloc cache name) value).0

-- What getenv_utf8 returns for an entry that it has just made, and the value converted for it: a value that
-- is not converted leaves the entry as it is.
abbrev pub fill_entry :
    Malloc → Envcache × Option ℕ → (value : Option Bytes) → Envcache × Option Bytes
fill_entry malloc (cache, none) value = (cache, none)
fill_entry malloc (cache, some index) none = (cache, some (envstr_get_value (entry_at cache index)))
fill_entry malloc (cache, some index) (some value) =
    let (after, done) = set_value_at malloc cache index value in
    (after, if done then some (envstr_get_value (entry_at after index)) else none)

module _ {E : Type 0} (crt : Crt E) where
  abbrev pub value_of : E → Option Utf16 → Option Utf16
  value_of env none = none
  value_of env (some name_u16) = crt.wgetenv env name_u16

  unfoldable pub get_u16env : E → (name : Bytes) → Option Utf16
  get_u16env env name = value_of env (crt.multi_byte_to_wide_char name)

  -- `none` is the process that goes on from the NULL of strchr; a string that is not converted leaves no '='.
  unfoldable pub update_environment_cache : Malloc → Envcache → Utf16 → Option Envcache
  update_environment_cache malloc cache envstr_u16 = elim (crt.wide_char_to_multi_byte envstr_u16) [
    | none ↦ none
    | some envstr_u8 ↦ update_split malloc cache (split_envstr envstr_u8)
  ]

  -- The strings of the environment in turn, each with the allocations that succeed for it.
  unfoldable pub update_all : (Utf16 → Malloc) → List Utf16 → Option Envcache → Option Envcache
  update_all mallocs strings none = none
  update_all mallocs [] (some cache) = some cache
  update_all mallocs (envstr_u16 ∷ strings) (some cache) =
      update_all mallocs strings (update_environment_cache (mallocs envstr_u16) cache envstr_u16)

  abbrev update_envp : Malloc → Option Envcache → Option (Envcache × Option (List Bytes))
  update_envp malloc none = none
  update_envp malloc (some cache) = some (envcache_update_envp malloc cache)

  -- `none` is the process that goes on from the NULL of strchr.
  unfoldable pub get_environ_utf8 :
      (mallocs : Utf16 → Malloc) → Malloc → E → Envcache → Option (Envcache × Option (List Bytes))
  get_environ_utf8 mallocs malloc env cache = elim (crt.get_environment_strings env) [
    | none ↦ some (cache, none)
    | some strings ↦ update_envp malloc (update_all mallocs strings (some cache))
  ]

  abbrev pub getenv_uncached :
      Malloc → E → Envcache → (name : Bytes) → Option Utf16 → Envcache × Option Bytes
  getenv_uncached malloc env cache name none = (cache, none)
  getenv_uncached malloc env cache name (some val_u16) =
      fill_entry malloc (envcache_create_entry malloc cache name)
        (crt.wide_char_to_multi_byte val_u16)

  abbrev pub getenv_from :
      Malloc → E → Envcache → (name : Bytes) → (found : Option ℕ) → Envcache × Option Bytes
  getenv_from malloc env cache name none =
      getenv_uncached malloc env cache name (get_u16env env name)
  getenv_from malloc env cache name (some index) =
      (cache, some (envstr_get_value (entry_at cache index)))

  unfoldable pub getenv_utf8 : Malloc → E → Envcache → (name : Bytes) → Envcache × Option Bytes
  getenv_utf8 malloc env cache name =
      getenv_from malloc env cache name (envcache_find_entry cache name)

  -- The end of setenv_utf8: what _wputenv says of the string, with the cache that has the value.
  abbrev pub putenv_of : E × Bool → (index : ℕ) → Envcache → E × Envcache × ℤ
  putenv_of (after, true) index cache = (after, cache, pos 0)
  putenv_of (after, false) index cache = (after, envcache_remove_entry cache (some index), negsuc 0)

  abbrev pub put_value : E → (string : Utf16) → (index : ℕ) → Envcache × Bool → E × Envcache × ℤ
  put_value env string index (cache, false) = (env, cache, negsuc 0)
  put_value env string index (cache, true) = putenv_of (crt.wputenv env string) index cache

  abbrev pub set_in :
      Malloc → E → (string : Utf16) → (value : Bytes) → Envcache × Option ℕ → E × Envcache × ℤ
  set_in malloc env string value (cache, none) = (env, cache, negsuc 0)
  set_in malloc env string value (cache, some index) =
      put_value env string index (set_value_at malloc cache index value)

  abbrev pub setenv_converted :
      Malloc
      → E
      → Envcache
      → (name value : Bytes) → (overwrite : Bool) → (name_u16 value_u16 : Option Utf16)
      → E × Envcache × ℤ
  setenv_converted malloc env cache name value overwrite none value_u16 = (env, cache, negsuc 0)
  setenv_converted malloc env cache name value overwrite (some name_u16) none =
      (env, cache, negsuc 0)
  setenv_converted malloc env cache name value overwrite (some name_u16) (some value_u16) =
      let done =
        set_in malloc env (name_u16 ++ equal_sign ∷ value_u16) value
          (find_or_create malloc cache name) in
      if not overwrite && is_some (crt.wgetenv env name_u16) then (env, cache, pos 0) else done

  unfoldable pub setenv_utf8 :
      Malloc → E → Envcache → (name value : Bytes) → (overwrite : Bool) → E × Envcache × ℤ
  setenv_utf8 malloc env cache name value overwrite =
      setenv_converted malloc env cache name value overwrite (crt.multi_byte_to_wide_char name)
        (crt.multi_byte_to_wide_char value)

  -- The name is joined in a buffer with a byte for each of its characters and one more, which have two bytes each;
  -- what the writes behind the buffer change is left out.
  abbrev pub unset_in : E → Envcache → Option Utf16 → E × Envcache × ℤ
  unset_in env cache none = (env, cache, negsuc 0)
  unset_in env cache (some name_u16) =
      let (after, done) = crt.wputenv env (name_u16 ++ equal_sign ∷ []) in
      (after, cache, if done then pos 0 else negsuc 0)

  unfoldable pub unsetenv_utf8 : E → Envcache → (name : Bytes) → E × Envcache × ℤ
  unsetenv_utf8 env cache name =
      unset_in env (envcache_remove_entry cache (envcache_find_entry cache name))
        (crt.multi_byte_to_wide_char name)
