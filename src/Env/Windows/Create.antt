-- ===== src/Env/Windows/Create.antt =====
-- src/env-win32.c: the entry of a name, which is found or created.
use mathlib.Core.Option.{some-injective}
use mmlib.Base.{
  ℕ, ◌+◌, ◌*◌, ◌≡◌, ◌≢◌, refl, sym, ap, ◌∙◌, subst, inl, inr, true, Bool-cases, is_some, Option,
  none, some, List, [], ◌∷◌, ◌++◌, arith, ltb, ◌==◌, if◌then◌else◌, length,
}
use mmlib.Base.CString.{Bytes}
use mmlib.Env.Windows.{
  Envstr, Envcache, Malloc, Buffer, array_buffer, envstr_init, string_buffer, find_entry,
  grow_array, find_or_create, envcache_find_entry, append_entry, create_in, or_create,
  envcache_create_entry,
}
use mmlib.Env.Windows.Entries.{
  IsCache, lookup, Found, apart-false, find_entry-Found, Found-append, lookup-append_other,
}
use mmlib.Env.Windows.Cache.{IsCache-append}
use mmlib.Env.Windows.Changes.{envstr_init-IsEntry}

-- The entry of the name is there, at the index, and no other is changed.
pub record Ready (before : List Envstr) (name : Bytes) (after : List Envstr) (i : ℕ) : Type 0 where
  pub kept : IsCache after
  pub found : Found name after i
  pub same : (other : Bytes) → other ≢ name → lookup after other ≡ lookup before other

grow_array-array :
    (malloc : Malloc) (cache grown : Envcache)
    → grow_array malloc cache ≡ some grown
    → grown.array ≡ cache.array
unfolding grow_array
grow_array-array malloc cache grown e =
    let max_arrlen = if cache.max_arrlen == 0 then 32 else cache.max_arrlen * 2 in
    let larger : Envcache = record {
      max_arrlen = max_arrlen;
      array = cache.array;
      envp = cache.envp;
    } in
    elim (Bool-cases (ltb cache.max_arrlen (length cache.array + 1))) [
      | inr full ↦
          let same : some cache ≡ some grown = sym (rw (full, grow_array) refl) ∙ e in
          sym (ap (λ c. c.array) (some-injective cache grown same))
      | inl full ↦ elim (Bool-cases (malloc array_buffer max_arrlen)) [
        | inr g ↦ absurd (ground (arith, e, full, g))
        | inl g ↦
            let same : some larger ≡ some grown = sym (rw (full, g, grow_array) refl) ∙ e in
            sym (ap (λ c. c.array) (some-injective larger grown same))
      ]
    ]

new-Ready :
    (malloc : Malloc) (xs : List Envstr) (name : Bytes) (y : Envstr)
    → IsCache xs
    → find_entry xs name ≡ none
    → envstr_init malloc name ≡ some y
    → Ready xs name (xs ++ y ∷ []) (length xs)
new-Ready malloc xs name y h e init =
    let (entry, m, value) = envstr_init-IsEntry malloc name y init in
    record {
      kept = IsCache-append xs y name h entry m e;
      found = Found-append name xs y e m;
      same = λ other apart. lookup-append_other xs y other (apart-false y name other m apart);
    }

append_entry-Ready :
    (malloc : Malloc) (cache : Envcache) (name : Bytes) (i : ℕ) (init : Option Envstr)
    → IsCache cache.array
    → find_entry cache.array name ≡ none
    → envstr_init malloc name ≡ init
    → (append_entry cache init).1 ≡ some i
    → Ready cache.array name (append_entry cache init).0.array i
append_entry-Ready malloc cache name i none h e init done = absurd (ground (arith, done))
append_entry-Ready malloc cache name i (some y) h e init done =
    subst (λ k. Ready cache.array name (cache.array ++ y ∷ []) k)
      (some-injective (length cache.array) i done) (new-Ready malloc cache.array name y h e init)

create_in-Ready :
    (malloc : Malloc) (cache : Envcache) (name : Bytes) (i : ℕ) (grown : Option Envcache)
    → IsCache cache.array
    → find_entry cache.array name ≡ none
    → grow_array malloc cache ≡ grown
    → (create_in malloc cache grown name).1 ≡ some i
    → Ready cache.array name (create_in malloc cache grown name).0.array i
create_in-Ready malloc cache name i none h e g done = absurd (ground (arith, done))
create_in-Ready malloc cache name i (some grown) h e g done =
    let same = grow_array-array malloc cache grown g in
    subst (λ xs. Ready xs name (append_entry grown (envstr_init malloc name)).0.array i) same
      (append_entry-Ready malloc grown name i (envstr_init malloc name) (subst IsCache (sym same) h)
        (ap (λ xs. find_entry xs name) same ∙ e) refl done)

pub envcache_create_entry-Ready :
    (malloc : Malloc) (cache : Envcache) (name : Bytes) (i : ℕ)
    → IsCache cache.array
    → find_entry cache.array name ≡ none
    → (envcache_create_entry malloc cache name).1 ≡ some i
    → Ready cache.array name (envcache_create_entry malloc cache name).0.array i
unfolding envcache_create_entry
envcache_create_entry-Ready malloc cache name i h e done =
    create_in-Ready malloc cache name i (grow_array malloc cache) h e refl done

or_create-Ready :
    (malloc : Malloc) (cache : Envcache) (name : Bytes) (i : ℕ) (found : Option ℕ)
    → IsCache cache.array
    → find_entry cache.array name ≡ found
    → (or_create malloc cache found name).1 ≡ some i
    → Ready cache.array name (or_create malloc cache found name).0.array i
or_create-Ready malloc cache name i none h e done =
    envcache_create_entry-Ready malloc cache name i h e done
or_create-Ready malloc cache name i (some j) h e done = record {
  kept = h;
  found = find_entry-Found name cache.array i (e ∙ done);
  same = λ other apart. refl;
}

pub find_or_create-Ready :
    (malloc : Malloc) (cache : Envcache) (name : Bytes) (i : ℕ)
    → IsCache cache.array
    → (find_or_create malloc cache name).1 ≡ some i
    → Ready cache.array name (find_or_create malloc cache name).0.array i
unfolding find_or_create envcache_find_entry
find_or_create-Ready malloc cache name i h done =
    or_create-Ready malloc cache name i (find_entry cache.array name) h refl done

-- Without memory for a new entry, the entries are as they were.
append_entry-none :
    (cache : Envcache) (init : Option Envstr)
    → (append_entry cache init).1 ≡ none
    → (append_entry cache init).0.array ≡ cache.array
append_entry-none cache none e = refl
append_entry-none cache (some y) e = absurd (ground (arith, e))

create_in-none :
    (malloc : Malloc) (cache : Envcache) (name : Bytes) (grown : Option Envcache)
    → grow_array malloc cache ≡ grown
    → (create_in malloc cache grown name).1 ≡ none
    → (create_in malloc cache grown name).0.array ≡ cache.array
create_in-none malloc cache name none g e = refl
create_in-none malloc cache name (some grown) g e =
    append_entry-none grown (envstr_init malloc name) e ∙ grow_array-array malloc cache grown g

or_create-none :
    (malloc : Malloc) (cache : Envcache) (name : Bytes) (found : Option ℕ)
    → (or_create malloc cache found name).1 ≡ none
    → (or_create malloc cache found name).0.array ≡ cache.array
unfolding envcache_create_entry
or_create-none malloc cache name none e =
    create_in-none malloc cache name (grow_array malloc cache) refl e
or_create-none malloc cache name (some i) e = refl

pub find_or_create-none :
    (malloc : Malloc) (cache : Envcache) (name : Bytes)
    → (find_or_create malloc cache name).1 ≡ none
    → (find_or_create malloc cache name).0.array ≡ cache.array
unfolding find_or_create
find_or_create-none malloc cache name e =
    or_create-none malloc cache name (envcache_find_entry cache name) e

-- Every allocation succeeds.
abbrev pub Enough : Malloc → Type 0
Enough malloc = (buffer : Buffer) (size : ℕ) → malloc buffer size ≡ true

is_some-value : {A : Type 0} (o : Option A) → is_some o ≡ true → (a : A) × (o ≡ some a)
is_some-value none e = absurd (ground (arith, e))
is_some-value (some a) e = (a, refl)

envstr_init-done :
    (malloc : Malloc) (name : Bytes) → Enough malloc → is_some (envstr_init malloc name) ≡ true
unfolding envstr_init
envstr_init-done malloc name enough = rw (enough string_buffer (length name + 64)) refl

grow_array-done :
    (malloc : Malloc) (cache : Envcache) → Enough malloc → is_some (grow_array malloc cache) ≡ true
unfolding grow_array
grow_array-done malloc cache enough =
    let max_arrlen = if cache.max_arrlen == 0 then 32 else cache.max_arrlen * 2 in
    elim (Bool-cases (ltb cache.max_arrlen (length cache.array + 1))) [
      | inl f ↦ rw (f, enough array_buffer max_arrlen, grow_array) refl
      | inr f ↦ rw (f, grow_array) refl
    ]

pub envcache_create_entry-done :
    (malloc : Malloc) (cache : Envcache) (name : Bytes)
    → Enough malloc
    → (i : ℕ) × ((envcache_create_entry malloc cache name).1 ≡ some i)
unfolding envcache_create_entry
envcache_create_entry-done malloc cache name enough =
    let (grown, g) =
      is_some-value (grow_array malloc cache) (grow_array-done malloc cache enough) in
    let (y, e) = is_some-value (envstr_init malloc name) (envstr_init-done malloc name enough) in
    (length grown.array, rw (g, e, envcache_create_entry) refl)

or_create-done :
    (malloc : Malloc) (cache : Envcache) (name : Bytes) (found : Option ℕ)
    → Enough malloc
    → (i : ℕ) × ((or_create malloc cache found name).1 ≡ some i)
or_create-done malloc cache name none enough = envcache_create_entry-done malloc cache name enough
or_create-done malloc cache name (some i) enough = (i, refl)

pub find_or_create-done :
    (malloc : Malloc) (cache : Envcache) (name : Bytes)
    → Enough malloc
    → (i : ℕ) × ((find_or_create malloc cache name).1 ≡ some i)
unfolding find_or_create
find_or_create-done malloc cache name enough =
    or_create-done malloc cache name (envcache_find_entry cache name) enough
