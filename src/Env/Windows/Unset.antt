-- ===== src/Env/Windows/Unset.antt =====
-- src/env-win32.c: unsetenv_utf8 takes the variable out of the cache and of the C runtime.
use mathlib.Core.Option.{some-injective}
use mmlib.Base.{
  ℕ, ◌≡◌, ◌≢◌, refl, sym, ap, ◌∙◌, subst, inl, inr, true, Option, Option-cases, none, some, [], ◌∷◌,
  ◌++◌, arith,
}
use mmlib.Base.Int.{pos}
use mmlib.Base.CString.{Bytes}
use mmlib.Env.Windows.{
  Utf16, Envcache, Malloc, Crt, equal_sign, find_entry, envcache_find_entry, envcache_remove_entry,
  no_entry,
}
use mmlib.Env.Windows.Utf8.{get_u16env, getenv_utf8, unsetenv_utf8, unset_in}
use mmlib.Env.Windows.Entries.{IsCache, lookup, lookup-none, lookup-Found, find_entry-Found}
use mmlib.Env.Windows.Cache.{Changed, IsCache-remove}
use mmlib.Env.Windows.Agree.{IsCrt, IsName, read, Agrees, Apart, Changed-Agrees, read-others}

remove-Changed :
    (cache : Envcache) (name : Bytes) (found : Option ℕ)
    → IsCache cache.array
    → find_entry cache.array name ≡ found
    → Changed cache.array name none (envcache_remove_entry cache found).array
unfolding envcache_remove_entry
remove-Changed cache name none h e = record {
  valid = h;
  reads = lookup-none name cache.array e;
  others = λ other apart. refl;
}
remove-Changed cache name (some i) h e =
    IsCache-remove name cache.array i h (find_entry-Found name cache.array i e)

module _ {E : Type 0} (crt : Crt E) where
  getenv_utf8-missing :
      (malloc : Malloc) (env : E) (cache : Envcache) (name : Bytes)
      → lookup cache.array name ≡ none
      → get_u16env crt env name ≡ none
      → (getenv_utf8 crt malloc env cache name).1 ≡ none
  unfolding getenv_utf8 envcache_find_entry
  getenv_utf8-missing malloc env cache name n g =
      elim (Option-cases (find_entry cache.array name)) [
        | inl f ↦ rw (f, g, getenv_utf8, envcache_find_entry) refl
        | inr (i, f) ↦ absurd (
            ground (
              arith,
              n,
              lookup-Found name cache.array i no_entry (find_entry-Found name cache.array i f),
            ))
      ]

  removes :
      (laws : IsCrt crt) (later : Malloc) (env : E) (cache removed : Envcache) (name : Bytes)
      (n : Utf16)
      → Agrees crt env cache
      → Apart crt laws cache name n
      → crt.multi_byte_to_wide_char name ≡ some n
      → IsName n
      → Changed cache.array name none removed.array
      → (crt.wputenv env (n ++ equal_sign ∷ [])).1 ≡ true
      → let after = (crt.wputenv env (n ++ equal_sign ∷ [])).0 in
        ((getenv_utf8 crt later after removed name).1 ≡ none)
        × (read crt after name ≡ none)
        × ((other : Bytes) (u : Utf16)
            → crt.multi_byte_to_wide_char other ≡ some u
            → laws.fold u ≢ laws.fold n
            → read crt after other ≡ read crt env other)
        × Agrees crt after removed
  unfolding read get_u16env
  removes laws later env cache removed name n h apart m named c put =
      let after = (crt.wputenv env (n ++ equal_sign ∷ [])).0 in
      let u16 : get_u16env crt after name ≡ none =
        rw (m, get_u16env) (laws.removes env n named put) in
      (
        getenv_utf8-missing later after removed name c.reads u16,
        rw (u16, read) refl,
        λ other u mu differs. read-others crt laws env n [] other named (λ w mw.
            subst (λ k. laws.fold k ≢ laws.fold n) (some-injective u w (sym mu ∙ mw)) differs),
        Changed-Agrees crt env after cache removed name none h c (λ w k. absurd (ground (arith, k)))
            (λ other w differs k.
              read-others crt laws env n [] other named
                (λ u mu. apart other u differs (λ e. ground (arith, e, k)) mu)),
      )

-- A call of unsetenv_utf8 that returns 0, when the cache says what the C runtime says and has no name that
-- differs from this one in case only: the C runtime has no such variable any more, getenv_utf8 returns NULL
-- for it, no variable of a name that differs in more than case is changed, and the cache still says what the
-- C runtime says.
pub unsetenv_utf8-removes :
    {E : Type 0} (crt : Crt E) (laws : IsCrt crt) (later : Malloc) (env : E) (cache : Envcache)
    (name : Bytes) (name_u16 : Utf16)
    → Agrees crt env cache
    → Apart crt laws cache name name_u16
    → crt.multi_byte_to_wide_char name ≡ some name_u16
    → IsName name_u16
    → (unsetenv_utf8 crt env cache name).2 ≡ pos 0
    → let (after, cached, status) = unsetenv_utf8 crt env cache name in
      ((getenv_utf8 crt later after cached name).1 ≡ none)
      × (read crt after name ≡ none)
      × ((other : Bytes) (u : Utf16)
          → crt.multi_byte_to_wide_char other ≡ some u
          → laws.fold u ≢ laws.fold name_u16
          → read crt after other ≡ read crt env other)
      × Agrees crt after cached
unfolding unsetenv_utf8 envcache_find_entry
unsetenv_utf8-removes crt laws later env cache name n h apart m named done =
    let found = find_entry cache.array name in
    let removed = envcache_remove_entry cache found in
    let same : unset_in crt env removed (some n) ≡ unsetenv_utf8 crt env cache name =
      rw (m, unsetenv_utf8, envcache_find_entry) refl in
    let put : (crt.wputenv env (n ++ equal_sign ∷ [])).1 ≡ true =
      ground (arith, ap (λ r. r.2) same ∙ done) in
    subst
      (λ r.
        ((getenv_utf8 crt later r.0 r.1 name).1 ≡ none)
        × (read crt r.0 name ≡ none)
        × ((other : Bytes) (u : Utf16)
            → crt.multi_byte_to_wide_char other ≡ some u
            → laws.fold u ≢ laws.fold n
            → read crt r.0 other ≡ read crt env other)
        × Agrees crt r.0 r.1)
      same
      (removes crt laws later env cache removed name n h apart m named
        (remove-Changed cache name found h.valid refl) put)
