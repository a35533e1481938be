-- ===== src/Env/Windows/Examples.antt =====
-- The theorems about the environment in UTF-8 at a concrete C runtime, a function of the names, whose
-- strings are those of the program.
use mmlib.Base.{
  ◌≡◌, ◌≢◌, refl, sym, ap, ◌∙◌, Bool, true, false, Option, none, some, [], ◌∷◌, ◌++◌, arith, ◌==◌,
  All, Bool-cases, inl, inr, if◌then◌else◌, ltb, replicate,
}
use mmlib.Base.Int.{ℤ}
use mmlib.Base.CString.{Bytes, codes, bytes_eq, bytes_eq→≡, bytes_eq_refl}
use mmlib.Env.Windows.{Utf16, Envstr, Envcache, Buffer, Malloc, Crt, equal_sign}
use mmlib.Env.Windows.Utf8.{split_envstr, getenv_utf8, setenv_utf8, unsetenv_utf8, get_u16env}
use mmlib.Env.Windows.Entries.{lookup}
use mmlib.Env.Windows.Agree.{Apart, IsName, IsCrt, Agrees, read, getenv_utf8-reads}
use mmlib.Env.Windows.Set.{setenv_utf8-sets}
use mmlib.Env.Windows.Unset.{unsetenv_utf8-removes}

abbrev Env : Type 0
Env = Bytes → Option Bytes

abbrev store : Env → Bytes → Option Bytes → Env
store env name value other = let kept = env other in if bytes_eq other name then value else kept

abbrev put_split : Env → Option (Bytes × Bytes) → Env × Bool
put_split env none = (env, false)
put_split env (some ([], value)) = (env, false)
put_split env (some (c ∷ name, [])) = (store env (c ∷ name) none, true)
put_split env (some (c ∷ name, d ∷ value)) = (store env (c ∷ name) (some (d ∷ value)), true)

abbrev crt : Crt Env
crt = record {
  multi_byte_to_wide_char = λ s. some s;
  wide_char_to_multi_byte = λ u. some u;
  wgetenv = λ env name. env name;
  wputenv = λ env string. put_split env (split_envstr string);
  get_environment_strings = λ env. none;
}

store-same : (env : Env) (name : Bytes) (value : Option Bytes) → store env name value name ≡ value
store-same env name value = rw (bytes_eq_refl name) refl

store-other :
    (env : Env) (name other : Bytes) (value : Option Bytes)
    → other ≢ name
    → store env name value other ≡ env other
store-other env name other value apart = elim (Bool-cases (bytes_eq other name)) [
  | inl e ↦ absurd (apart (bytes_eq→≡ other name e))
  | inr e ↦ rw e refl
]

split_envstr-append :
    (name value : Bytes)
    → All (λ c. c ≢ equal_sign) name
    → split_envstr (name ++ equal_sign ∷ value) ≡ some (name, value)
unfolding split_envstr
split_envstr-append [] value h = refl
split_envstr-append (c ∷ name) value (apart, h) =
    let no_sign : (c == equal_sign) ≡ false = ground (arith, apart) in
    rw (no_sign, split_envstr-append name value h) refl

put_name :
    (env : Env) (name value : Bytes)
    → IsName name
    → value ≢ []
    → put_split env (split_envstr (name ++ equal_sign ∷ value))
      ≡ (store env name (some value), true)
put_name env [] value (filled, h) full = absurd (filled refl)
put_name env (c ∷ name) [] (filled, h) full = absurd (full refl)
put_name env (c ∷ name) (d ∷ value) (filled, h) full =
    rw (split_envstr-append (c ∷ name) (d ∷ value) h) refl

put_empty :
    (env : Env) (name : Bytes)
    → IsName name
    → put_split env (split_envstr (name ++ equal_sign ∷ [])) ≡ (store env name none, true)
put_empty env [] (filled, h) = absurd (filled refl)
put_empty env (c ∷ name) (filled, h) = rw (split_envstr-append (c ∷ name) [] h) refl

put_other :
    (env : Env) (name value other : Bytes)
    → IsName name
    → other ≢ name
    → (put_split env (split_envstr (name ++ equal_sign ∷ value))).0 other ≡ env other
put_other env name [] other h apart =
    ap (λ r. r.0 other) (put_empty env name h) ∙ store-other env name other none apart
put_other env name (d ∷ value) other h apart =
    ap (λ r. r.0 other) (put_name env name (d ∷ value) h (λ e. ground (arith, e)))
    ∙ store-other env name other (some (d ∷ value)) apart

put-fails :
    (env : Env) (split : Option (Bytes × Bytes)) (other : Bytes)
    → (put_split env split).1 ≡ false
    → (put_split env split).0 other ≡ env other
put-fails env none other e = refl
put-fails env (some ([], value)) other e = refl
put-fails env (some (c ∷ name, [])) other e = absurd (ground (arith, e))
put-fails env (some (c ∷ name, d ∷ value)) other e = absurd (ground (arith, e))

crt-IsCrt : IsCrt crt
crt-IsCrt = record {
  fold = λ name. name;
  sets = λ env name value h full e.
      ap (λ r. r.0 name) (put_name env name value h full) ∙ store-same env name (some value);
  removes = λ env name h e. ap (λ r. r.0 name) (put_empty env name h) ∙ store-same env name none;
  others = λ env name value other h apart. put_other env name value other h apart;
  fails = λ env string other e. put-fails env (split_envstr string) other e;
  converts = λ s u e. sym e;
  empty = refl;
}

abbrev plenty : Malloc
plenty buffer size = true

abbrev empty_cache : Envcache
empty_cache = record { max_arrlen = 0; array = []; envp = [] }

abbrev with_path : Env
with_path = store (λ name. none) (codes "PATH") (some (codes "C:"))

empty-Agrees : (env : Env) → Agrees crt env empty_cache
unfolding lookup
empty-Agrees env = record { valid = tt; agrees = λ name value e. absurd (ground (arith, e)) }

name_filled : codes "LANG" ≢ []
name_filled e = ground (arith, e)

name_plain : All (λ c. c ≢ equal_sign) (codes "LANG")
name_plain = (
  λ e. omega (arith, e),
  (λ e. omega (arith, e), (λ e. omega (arith, e), (λ e. omega (arith, e), tt))),
)

value_filled : codes "C" ≢ []
value_filled e = ground (arith, e)

getenv_utf8-reads_example :
    ((getenv_utf8 crt plenty with_path empty_cache (codes "PATH")).1
      ≡ read crt with_path (codes "PATH"))
    × Agrees crt with_path (getenv_utf8 crt plenty with_path empty_cache (codes "PATH")).0
getenv_utf8-reads_example =
    getenv_utf8-reads crt plenty with_path empty_cache (codes "PATH") (empty-Agrees with_path)
      (λ v e k. ground (arith, k)) (λ buffer size. refl)

empty-Apart : (n : Utf16) → Apart crt crt-IsCrt empty_cache (codes "LANG") n
unfolding lookup
empty-Apart n other u differs cached e = absurd (cached refl)

setenv_utf8-sets_example :
    let (after, cached, status) =
      setenv_utf8 crt plenty with_path empty_cache (codes "LANG") (codes "C") false in
    ((getenv_utf8 crt plenty after cached (codes "LANG")).1 ≡ some (codes "C"))
    × (read crt after (codes "LANG") ≡ some (codes "C"))
    × ((other : Bytes) (u : Utf16)
        → some other ≡ some u
        → crt-IsCrt.fold u ≢ crt-IsCrt.fold (codes "LANG")
        → read crt after other ≡ read crt with_path other)
    × Agrees crt after cached
unfolding setenv_utf8 mmlib.Env.Windows.find_or_create mmlib.Env.Windows.envcache_find_entry
    mmlib.Env.Windows.find_entry mmlib.Env.Windows.envcache_create_entry
    mmlib.Env.Windows.grow_array mmlib.Env.Windows.envstr_init mmlib.Env.Windows.envstr_set_value
    mmlib.Env.Windows.envstr_resize_value split_envstr
setenv_utf8-sets_example =
    setenv_utf8-sets crt crt-IsCrt plenty plenty with_path empty_cache (codes "LANG") (codes "C")
      false (codes "LANG") (empty-Agrees with_path) (empty-Apart (codes "LANG")) refl
      (name_filled, name_plain) value_filled refl refl

unsetenv_utf8-removes_example :
    let (after, cached, status) = unsetenv_utf8 crt with_path empty_cache (codes "LANG") in
    ((getenv_utf8 crt plenty after cached (codes "LANG")).1 ≡ none)
    × (read crt after (codes "LANG") ≡ none)
    × ((other : Bytes) (u : Utf16)
        → some other ≡ some u
        → crt-IsCrt.fold u ≢ crt-IsCrt.fold (codes "LANG")
        → read crt after other ≡ read crt with_path other)
    × Agrees crt after cached
unfolding unsetenv_utf8 split_envstr
unsetenv_utf8-removes_example =
    unsetenv_utf8-removes crt crt-IsCrt plenty with_path empty_cache (codes "LANG") (codes "LANG")
      (empty-Agrees with_path) (empty-Apart (codes "LANG")) refl (name_filled, name_plain) refl

-- The value that a call finds in the C runtime.
getenv_utf8-path :
    (getenv_utf8 crt plenty with_path empty_cache (codes "PATH")).1 ≡ some (codes "C:")
unfolding getenv_utf8 mmlib.Env.Windows.envcache_find_entry mmlib.Env.Windows.find_entry get_u16env
    mmlib.Env.Windows.envcache_create_entry mmlib.Env.Windows.grow_array
    mmlib.Env.Windows.envstr_init mmlib.Env.Windows.envstr_set_value
    mmlib.Env.Windows.envstr_resize_value mmlib.Env.Windows.envstr_get_value
getenv_utf8-path = refl

-- A value that the new buffer is too short for, when it cannot be made longer: the first call returns NULL and
-- the second one an empty value.
abbrev short : Malloc
short buffer size = ltb size 80

abbrev with_long : Env
with_long = store (λ name. none) (codes "PATH") (some (replicate 90 b'a'))

abbrev first_call : Envcache × Option Bytes
first_call = getenv_utf8 crt short with_long empty_cache (codes "PATH")

getenv_utf8-short_first : first_call.1 ≡ none
unfolding getenv_utf8 mmlib.Env.Windows.envcache_find_entry mmlib.Env.Windows.find_entry get_u16env
    mmlib.Env.Windows.envcache_create_entry mmlib.Env.Windows.grow_array
    mmlib.Env.Windows.envstr_init mmlib.Env.Windows.envstr_set_value
    mmlib.Env.Windows.envstr_resize_value
getenv_utf8-short_first = refl

getenv_utf8-short_second :
    (getenv_utf8 crt plenty with_long first_call.0 (codes "PATH")).1 ≡ some []
unfolding getenv_utf8 mmlib.Env.Windows.envcache_find_entry mmlib.Env.Windows.find_entry get_u16env
    mmlib.Env.Windows.envcache_create_entry mmlib.Env.Windows.grow_array
    mmlib.Env.Windows.envstr_init mmlib.Env.Windows.envstr_set_value
    mmlib.Env.Windows.envstr_resize_value mmlib.Env.Windows.matches
    mmlib.Env.Windows.envstr_get_value
getenv_utf8-short_second = refl

-- An empty value removes the variable of the C runtime, and stays in the cache.
abbrev set_empty : Env × Envcache × ℤ
set_empty = setenv_utf8 crt plenty with_path empty_cache (codes "PATH") [] true

setenv_utf8-empty :
    ((getenv_utf8 crt plenty set_empty.0 set_empty.1 (codes "PATH")).1 ≡ some [])
    × (read crt set_empty.0 (codes "PATH") ≡ none)
unfolding getenv_utf8 setenv_utf8 mmlib.Env.Windows.envcache_find_entry mmlib.Env.Windows.find_entry
    mmlib.Env.Windows.find_or_create mmlib.Env.Windows.envcache_create_entry
    mmlib.Env.Windows.grow_array mmlib.Env.Windows.envstr_init mmlib.Env.Windows.envstr_set_value
    mmlib.Env.Windows.envstr_resize_value split_envstr mmlib.Env.Windows.matches
    mmlib.Env.Windows.envstr_get_value read get_u16env
setenv_utf8-empty = (refl, refl)
