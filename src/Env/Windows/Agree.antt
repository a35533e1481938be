-- ===== src/Env/Windows/Agree.antt =====
-- src/env-win32.c: the cache and the environment of the C runtime say the same of every name.

use mathlib.Core.List.{List-discrete}
use mmlib.Base.{
  ℕ, ◌≡◌, ◌≢◌, refl, sym, ap, ◌∙◌, subst, inl, inr, true, false, Option, Option-cases, none, some,
  [], ◌∷◌, ◌++◌, arith, All, if◌then◌else◌, ℕ_discrete,
}
use mmlib.Base.CString.{Bytes}
use mmlib.Env.Windows.{
  Utf16, Envcache, Malloc, Crt, equal_sign, entry_at, no_entry, envstr_get_value, find_entry,
  envcache_find_entry, set_value_at, envcache_create_entry,
}
use mmlib.Env.Windows.Utf8.{get_u16env, getenv_utf8, getenv_uncached, getenv_from, fill_entry}
use mmlib.Env.Windows.Entries.{IsCache, lookup, lookup-Found, lookup-none, find_entry-Found}
use mmlib.Env.Windows.Cache.{Changed}
use mmlib.Env.Windows.Create.{
  Ready, envcache_create_entry-Ready, Enough, envcache_create_entry-done,
}
use mmlib.Env.Windows.Update.{set_value_at-Changed, set_value_at-Found, set_value_at-done}

-- A name that is not empty and has no '='.
abbrev pub IsName : Utf16 → Type 0
IsName name = (name ≢ []) × All (λ c. c ≢ equal_sign) name

-- What Windows documents of _wputenv: "name=value" sets the value, "name=" removes the variable, names are
-- one when they differ in case only, no other variable is changed, and none where it fails. The two
-- conversions are inverse, and that of the empty string is empty.
pub record IsCrt {E : Type 0} (crt : Crt E) : Type 0 where
  pub fold : Utf16 → Utf16
  pub sets :
      (env : E) (name value : Utf16)
      → IsName name
      → value ≢ []
      → (crt.wputenv env (name ++ equal_sign ∷ value)).1 ≡ true
      → crt.wgetenv (crt.wputenv env (name ++ equal_sign ∷ value)).0 name ≡ some value
  pub removes :
      (env : E) (name : Utf16)
      → IsName name
      → (crt.wputenv env (name ++ equal_sign ∷ [])).1 ≡ true
      → crt.wgetenv (crt.wputenv env (name ++ equal_sign ∷ [])).0 name ≡ none
  pub others :
      (env : E) (name value other : Utf16)
      → IsName name
      → fold other ≢ fold name
      → crt.wgetenv (crt.wputenv env (name ++ equal_sign ∷ value)).0 other ≡ crt.wgetenv env other
  pub fails :
      (env : E) (string other : Utf16)
      → (crt.wputenv env string).1 ≡ false
      → crt.wgetenv (crt.wputenv env string).0 other ≡ crt.wgetenv env other
  pub converts :
      (s : Bytes) (u : Utf16)
      → crt.multi_byte_to_wide_char s ≡ some u
      → crt.wide_char_to_multi_byte u ≡ some s
  pub empty : crt.multi_byte_to_wide_char [] ≡ some []

module _ {E : Type 0} (crt : Crt E) where
  abbrev pub converted : Option Utf16 → Option Bytes
  converted none = none
  converted (some value) = crt.wide_char_to_multi_byte value

  -- The value that the C runtime has, in UTF-8.
  unfoldable pub read : E → (name : Bytes) → Option Bytes
  read env name = converted (get_u16env crt env name)

  -- What the cache has, the C runtime has.
  pub record Agrees (env : E) (cache : Envcache) : Type 0 where
    pub valid : IsCache cache.array
    pub agrees :
        (name value : Bytes) → lookup cache.array name ≡ some value → read env name ≡ some value

  -- The names in the cache differ from this one in more than the case.
  abbrev pub Apart : IsCrt crt → Envcache → (name : Bytes) → Utf16 → Type 0
  Apart laws cache name name_u16 =
      (other : Bytes) (u : Utf16)
      → other ≢ name
      → lookup cache.array other ≢ none
      → crt.multi_byte_to_wide_char other ≡ some u
      → laws.fold u ≢ laws.fold name_u16

  pub getenv_utf8-cached :
      (malloc : Malloc) (env : E) (cache : Envcache) (name value : Bytes)
      → lookup cache.array name ≡ some value
      → getenv_utf8 crt malloc env cache name ≡ (cache, some value)
  unfolding getenv_utf8 envcache_find_entry
  getenv_utf8-cached malloc env cache name value h =
      elim (Option-cases (find_entry cache.array name)) [
        | inl n ↦ absurd (ground (arith, h, lookup-none name cache.array n))
        | inr (i, n) ↦
            let reads =
              sym (lookup-Found name cache.array i no_entry (find_entry-Found name cache.array i n))
              ∙ h in
            rw (n, getenv_utf8, envcache_find_entry) (ap (λ v. (cache, v)) reads)
      ]

  read-uncached :
      (env : E) (name : Bytes) (u value : Utf16) (utf8 : Bytes)
      → crt.multi_byte_to_wide_char name ≡ some u
      → crt.wgetenv env u ≡ some value
      → crt.wide_char_to_multi_byte value ≡ some utf8
      → read env name ≡ some utf8
  unfolding read get_u16env
  read-uncached env name u value utf8 m g w = rw (m, g, w, read, get_u16env) refl

  pub read-others :
      (laws : IsCrt crt) (env : E) (name value : Utf16) (other : Bytes)
      → IsName name
      → ((u : Utf16) → crt.multi_byte_to_wide_char other ≡ some u → laws.fold u ≢ laws.fold name)
      → read (crt.wputenv env (name ++ equal_sign ∷ value)).0 other ≡ read env other
  unfolding read get_u16env
  read-others laws env name value other h apart =
      elim (Option-cases (crt.multi_byte_to_wide_char other)) [
        | inl m ↦ rw (m, read, get_u16env) refl
        | inr (u, m) ↦ rw (m, laws.others env name value u h (apart u m), read, get_u16env) refl
      ]

  -- The change of the cache that a change of the C runtime goes with.
  pub Changed-Agrees :
      (env after : E) (cache changed : Envcache) (name : Bytes) (value : Option Bytes)
      → Agrees env cache
      → Changed cache.array name value changed.array
      → ((v : Bytes) → value ≡ some v → read after name ≡ some v)
      → ((other v : Bytes)
          → other ≢ name
          → lookup cache.array other ≡ some v
          → read after other ≡ read env other)
      → Agrees after changed
  Changed-Agrees env after cache changed name value h c reads others = record {
    valid = c.valid;
    agrees = λ other v k. elim (List-discrete ℕ_discrete other name) [
      | yes e ↦ ap (read after) e ∙ reads v (sym c.reads ∙ sym (ap (lookup changed.array) e) ∙ k)
      | no apart ↦
          let old = sym (c.others other apart) ∙ k in
          others other v apart old ∙ h.agrees other v old
    ];
  }

  -- The value is stored in the entry that is made for it.
  fill_entry-reads :
      (malloc : Malloc) (env : E) (cache created : Envcache) (name utf8 : Bytes) (i : ℕ)
      → Agrees env cache
      → Ready cache.array name created.array i
      → read env name ≡ some utf8
      → Enough malloc
      → ((fill_entry malloc (created, some i) (some utf8)).1 ≡ some utf8)
        × Agrees env (fill_entry malloc (created, some i) (some utf8)).0
  fill_entry-reads malloc env cache created name utf8 i h r e enough =
      let done = set_value_at-done malloc created i utf8 enough in
      let after = (set_value_at malloc created i utf8).0 in
      let f = set_value_at-Found malloc created name i utf8 r.kept r.found in
      let c = set_value_at-Changed malloc created name i utf8 r.kept r.found done in
      let value = sym (lookup-Found name after.array i no_entry f) ∙ c.reads in
      (
        subst (λ b. (if b then some (envstr_get_value (entry_at after i)) else none) ≡ some utf8)
            (sym done) value,
        Changed-Agrees env env cache after name (some utf8) h
            (record {
              valid = c.valid;
              reads = c.reads;
              others = λ other apart. c.others other apart ∙ r.same other apart;
            })
            (λ v k. e ∙ k) (λ other v apart k. refl),
      )

  fill-reads :
      (malloc : Malloc) (env : E) (cache : Envcache) (name : Bytes) (made : Envcache × Option ℕ)
      (utf8 : Option Bytes) (i : ℕ)
      → Agrees env cache
      → ((j : ℕ) → made.1 ≡ some j → Ready cache.array name made.0.array j)
      → made.1 ≡ some i
      → utf8 ≢ none
      → ((u : Bytes) → utf8 ≡ some u → read env name ≡ some u)
      → Enough malloc
      → ((fill_entry malloc made utf8).1 ≡ read env name)
        × Agrees env (fill_entry malloc made utf8).0
  fill-reads malloc env cache name (created, none) utf8 i h r m converts reads enough =
      absurd (ground (arith, m))
  fill-reads malloc env cache name (created, some j) none i h r m converts reads enough =
      absurd (converts refl)
  fill-reads malloc env cache name (created, some j) (some u) i h r m converts reads enough =
      let (value, agrees) =
        fill_entry-reads malloc env cache created name u j h (r j refl) (reads u refl) enough in
      (value ∙ sym (reads u refl), agrees)

  getenv_uncached-reads :
      (malloc : Malloc) (env : E) (cache : Envcache) (name : Bytes) (value : Option Utf16)
      → Agrees env cache
      → find_entry cache.array name ≡ none
      → get_u16env crt env name ≡ value
      → ((v : Utf16) → value ≡ some v → crt.wide_char_to_multi_byte v ≢ none)
      → Enough malloc
      → ((getenv_uncached crt malloc env cache name value).1 ≡ read env name)
        × Agrees env (getenv_uncached crt malloc env cache name value).0
  unfolding read
  getenv_uncached-reads malloc env cache name none h n e converts enough = (rw (e, read) refl, h)
  getenv_uncached-reads malloc env cache name (some v) h n e converts enough =
      let (i, created) = envcache_create_entry-done malloc cache name enough in
      fill-reads malloc env cache name (envcache_create_entry malloc cache name)
        (crt.wide_char_to_multi_byte v) i h
        (λ j m. envcache_create_entry-Ready malloc cache name j h.valid n m) created
        (converts v refl) (λ u k. rw (e, read) k) enough

  getenv_from-reads :
      (malloc : Malloc) (env : E) (cache : Envcache) (name : Bytes) (found : Option ℕ)
      → Agrees env cache
      → find_entry cache.array name ≡ found
      → ((v : Utf16) → get_u16env crt env name ≡ some v → crt.wide_char_to_multi_byte v ≢ none)
      → Enough malloc
      → ((getenv_from crt malloc env cache name found).1 ≡ read env name)
        × Agrees env (getenv_from crt malloc env cache name found).0
  getenv_from-reads malloc env cache name none h n converts enough =
      getenv_uncached-reads malloc env cache name (get_u16env crt env name) h n refl converts enough
  getenv_from-reads malloc env cache name (some i) h n converts enough =
      let value =
        lookup-Found name cache.array i no_entry (find_entry-Found name cache.array i n) in
      (sym (h.agrees name (envstr_get_value (entry_at cache i)) value), h)

-- When the cache says what the C runtime says, its values can be converted and every allocation succeeds,
-- getenv_utf8 returns what the C runtime has for the name, and the cache still says what the C runtime says.
pub getenv_utf8-reads :
    {E : Type 0} (crt : Crt E) (malloc : Malloc) (env : E) (cache : Envcache) (name : Bytes)
    → Agrees crt env cache
    → ((v : Utf16) → get_u16env crt env name ≡ some v → crt.wide_char_to_multi_byte v ≢ none)
    → Enough malloc
    → ((getenv_utf8 crt malloc env cache name).1 ≡ read crt env name)
      × Agrees crt env (getenv_utf8 crt malloc env cache name).0
unfolding getenv_utf8 envcache_find_entry
getenv_utf8-reads crt malloc env cache name h converts enough =
    getenv_from-reads crt malloc env cache name (find_entry cache.array name) h refl converts enough
