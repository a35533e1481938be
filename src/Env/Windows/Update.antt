-- ===== src/Env/Windows/Update.antt =====
-- src/env-win32.c: the value that is stored in an entry.

use mmlib.Base.{
  ℕ, ◌+◌, ◌≡◌, refl, ap, ◌∙◌, inl, inr, true, false, Bool-cases, Option, Option-cases, none, some,
  arith, ltb, length, set,
}
use mmlib.Base.CString.{Bytes}
use mmlib.Env.Windows.{
  Envstr, Envcache, Malloc, envstr_get_value, envstr_set_value, envstr_resize_value, string_buffer,
  matches, entry_at, set_value_at, update_entry, no_entry,
}
use mmlib.Env.Windows.Entries.{
  IsCache, Found, apart-false, lookup-Found, Found-set, get_or-set, matches-Found, lookup-set_other,
}
use mmlib.Env.Windows.Cache.{Changed, IsCache-set, get_or-Found, IsEntry-Found}
use mmlib.Env.Windows.Changes.{Written, envstr_set_value-Written}
use mmlib.Env.Windows.Create.{Enough}

update_entry-Changed :
    (cache : Envcache) (name : Bytes) (i : ℕ) (value : Bytes) (y : Envstr)
    → IsCache cache.array
    → Found name cache.array i
    → Written (entry_at cache i) value y
    → Changed cache.array name (some value) (set cache.array i y)
update_entry-Changed cache name i value y h f w =
    let m : matches y name ≡ true = w.same name ∙ matches-Found name cache.array i no_entry f in
    record {
      valid =
          IsCache-set name cache.array i y h f w.entry (λ d k.
            w.same k ∙ ap (λ e. matches e k) (get_or-Found name cache.array i no_entry d f));
      reads =
          lookup-Found name (set cache.array i y) i no_entry (Found-set name cache.array i y f m)
          ∙ ap (λ e. some (envstr_get_value e)) (get_or-set name cache.array i y no_entry f)
          ∙ ap some w.reads;
      others = λ other apart.
          lookup-set_other name cache.array i y other f (apart-false y name other m apart) apart;
    }

set_value-Changed_in :
    (malloc : Malloc) (cache : Envcache) (name : Bytes) (i : ℕ) (value : Bytes) (y : Option Envstr)
    → IsCache cache.array
    → Found name cache.array i
    → envstr_set_value malloc (entry_at cache i) value ≡ y
    → (update_entry cache i y).1 ≡ true
    → Changed cache.array name (some value) (update_entry cache i y).0.array
set_value-Changed_in malloc cache name i value none h f e done = absurd (ground (arith, done))
set_value-Changed_in malloc cache name i value (some y) h f e done =
    update_entry-Changed cache name i value y h f (
      envstr_set_value-Written malloc (entry_at cache i) y value
        (IsEntry-Found name cache.array i no_entry h f) e)

pub set_value_at-Changed :
    (malloc : Malloc) (cache : Envcache) (name : Bytes) (i : ℕ) (value : Bytes)
    → IsCache cache.array
    → Found name cache.array i
    → (set_value_at malloc cache i value).1 ≡ true
    → Changed cache.array name (some value) (set_value_at malloc cache i value).0.array
set_value_at-Changed malloc cache name i value h f done =
    set_value-Changed_in malloc cache name i value
      (envstr_set_value malloc (entry_at cache i) value) h f refl done

set_value-Found_in :
    (malloc : Malloc) (cache : Envcache) (name : Bytes) (i : ℕ) (value : Bytes) (y : Option Envstr)
    → IsCache cache.array
    → Found name cache.array i
    → envstr_set_value malloc (entry_at cache i) value ≡ y
    → Found name (update_entry cache i y).0.array i
set_value-Found_in malloc cache name i value none h f e = f
set_value-Found_in malloc cache name i value (some y) h f e =
    let w =
      envstr_set_value-Written malloc (entry_at cache i) y value
        (IsEntry-Found name cache.array i no_entry h f) e in
    Found-set name cache.array i y f (w.same name ∙ matches-Found name cache.array i no_entry f)

pub set_value_at-Found :
    (malloc : Malloc) (cache : Envcache) (name : Bytes) (i : ℕ) (value : Bytes)
    → IsCache cache.array
    → Found name cache.array i
    → Found name (set_value_at malloc cache i value).0.array i
set_value_at-Found malloc cache name i value h f =
    set_value-Found_in malloc cache name i value (envstr_set_value malloc (entry_at cache i) value)
      h f refl

pub set_value_at-done :
    (malloc : Malloc) (cache : Envcache) (i : ℕ) (value : Bytes)
    → Enough malloc
    → (set_value_at malloc cache i value).1 ≡ true
unfolding envstr_set_value envstr_resize_value
set_value_at-done malloc cache i value enough =
    let x = entry_at cache i in
    let n = length value + x.namelen + 2 in
    elim (Bool-cases (ltb x.str_maxlen n)) [
      | inl s ↦ rw (s, enough string_buffer n, envstr_set_value, envstr_resize_value) refl
      | inr s ↦ rw (s, envstr_set_value, envstr_resize_value) refl
    ]

pub set_value_at-fails :
    (malloc : Malloc) (cache : Envcache) (i : ℕ) (value : Bytes)
    → (set_value_at malloc cache i value).1 ≡ false
    → (set_value_at malloc cache i value).0 ≡ cache
set_value_at-fails malloc cache i value e =
    elim (Option-cases (envstr_set_value malloc (entry_at cache i) value)) [
      | inl n ↦ rw n refl
      | inr (y, n) ↦ absurd (ground (arith, e, n))
    ]
