-- ===== src/Env/Windows/Set.antt =====
-- src/env-win32.c: setenv_utf8 changes the cache and the C runtime together.
use mathlib.Core.Option.{some-injective}
use mmlib.Base.{
  ℕ, ◌≡◌, ◌≢◌, refl, sym, ap, ◌∙◌, subst, Bool, true, false, not, ◌&&◌, is_some, Option, none, some,
  List, [], ◌∷◌, ◌++◌, arith,
}
use mmlib.Base.Int.{ℤ, pos}
use mmlib.Base.CString.{Bytes}
use mmlib.Env.Windows.{
  Utf16, Envstr, Envcache, Malloc, Crt, equal_sign, find_or_create, set_value_at,
}
use mmlib.Env.Windows.Utf8.{
  get_u16env, getenv_utf8, setenv_utf8, set_in, put_value, putenv_of, setenv_converted,
}
use mmlib.Env.Windows.Entries.{IsCache}
use mmlib.Env.Windows.Cache.{Changed}
use mmlib.Env.Windows.Create.{Ready, find_or_create-Ready}
use mmlib.Env.Windows.Update.{set_value_at-Changed}
use mmlib.Env.Windows.Agree.{
  IsCrt, IsName, read, Agrees, Apart, Changed-Agrees, read-others, getenv_utf8-cached,
}

Changed-Ready :
    (before made after : List Envstr) (name value : Bytes) (i : ℕ)
    → Ready before name made i
    → Changed made name (some value) after
    → Changed before name (some value) after
Changed-Ready before made after name value i r c = record {
  valid = c.valid;
  reads = c.reads;
  others = λ other apart. c.others other apart ∙ r.same other apart;
}

module _ {E : Type 0} (crt : Crt E) where
  -- The string was put, and the cache has the value.
  record Stored (env : E) (cache : Envcache) (name value : Bytes) (string : Utf16)
      (result : E × Envcache × ℤ) : Type 0 where
    put : (crt.wputenv env string).1 ≡ true
    put_env : result.0 ≡ (crt.wputenv env string).0
    changed : Changed cache.array name (some value) result.1.array

  putenv_of-Stored :
      (env : E) (cache set : Envcache) (name value : Bytes) (string : Utf16) (index : ℕ)
      (put : E × Bool)
      → crt.wputenv env string ≡ put
      → Changed cache.array name (some value) set.array
      → (putenv_of crt put index set).2 ≡ pos 0
      → Stored env cache name value string (putenv_of crt put index set)
  putenv_of-Stored env cache set name value string index (after, true) e c done = record {
    put = ap (λ p. p.1) e;
    put_env = sym (ap (λ p. p.0) e);
    changed = c;
  }
  putenv_of-Stored env cache set name value string index (after, false) e c done =
      absurd (ground (arith, done))

  put_value-Stored :
      (env : E) (cache : Envcache) (name value : Bytes) (string : Utf16) (index : ℕ)
      (set : Envcache × Bool)
      → (set.1 ≡ true → Changed cache.array name (some value) set.0.array)
      → (put_value crt env string index set).2 ≡ pos 0
      → Stored env cache name value string (put_value crt env string index set)
  put_value-Stored env cache name value string index (set, false) c done =
      absurd (ground (arith, done))
  put_value-Stored env cache name value string index (set, true) c done =
      putenv_of-Stored env cache set name value string index (crt.wputenv env string) refl (c refl)
        done

  set_in-Stored :
      (malloc : Malloc) (env : E) (cache : Envcache) (name value : Bytes) (string : Utf16)
      (ready : Envcache × Option ℕ)
      → ((i : ℕ) → ready.1 ≡ some i → Ready cache.array name ready.0.array i)
      → (set_in crt malloc env string value ready).2 ≡ pos 0
      → Stored env cache name value string (set_in crt malloc env string value ready)
  set_in-Stored malloc env cache name value string (made, none) r done =
      absurd (ground (arith, done))
  set_in-Stored malloc env cache name value string (made, some index) r done =
      let ready = r index refl in
      put_value-Stored env cache name value string index (set_value_at malloc made index value)
        (λ set.
          Changed-Ready cache.array made.array (set_value_at malloc made index value).0.array name
            value index ready
            (set_value_at-Changed malloc made name index value ready.kept ready.found set))
        done

  setenv_converted-Stored :
      (malloc : Malloc) (env : E) (cache : Envcache) (name value : Bytes) (overwrite : Bool)
      (name_u16 : Utf16) (value_u16 : Option Utf16)
      → IsCache cache.array
      → (not overwrite && is_some (crt.wgetenv env name_u16)) ≡ false
      → (setenv_converted crt malloc env cache name value overwrite (some name_u16) value_u16).2
        ≡ pos 0
      → (v : Utf16) × (value_u16 ≡ some v)
        × Stored env cache name value
            (name_u16 ++ equal_sign ∷ v)
            (setenv_converted crt malloc env cache name value overwrite (some name_u16) value_u16)
  setenv_converted-Stored malloc env cache name value overwrite n none h new done =
      absurd (ground (arith, done))
  setenv_converted-Stored malloc env cache name value overwrite n (some v) h new done =
      let string = n ++ equal_sign ∷ v in
      let result = set_in crt malloc env string value (find_or_create malloc cache name) in
      let same : result
          ≡ setenv_converted crt malloc env cache name value overwrite (some n) (some v) =
        rw new refl in
      (
        v,
        refl,
        subst (λ r. Stored env cache name value string r) same
            (set_in-Stored malloc env cache name value string (find_or_create malloc cache name)
              (λ i e. find_or_create-Ready malloc cache name i h e) (ap (λ r. r.2) same ∙ done)),
      )

  setenv_utf8-Stored :
      (malloc : Malloc) (env : E) (cache : Envcache) (name value : Bytes) (overwrite : Bool)
      (name_u16 : Utf16)
      → IsCache cache.array
      → crt.multi_byte_to_wide_char name ≡ some name_u16
      → (not overwrite && is_some (crt.wgetenv env name_u16)) ≡ false
      → (setenv_utf8 crt malloc env cache name value overwrite).2 ≡ pos 0
      → (v : Utf16) × (crt.multi_byte_to_wide_char value ≡ some v)
        × Stored env cache name value
            (name_u16 ++ equal_sign ∷ v)
            (setenv_utf8 crt malloc env cache name value overwrite)
  unfolding setenv_utf8
  setenv_utf8-Stored malloc env cache name value overwrite n h m new done =
      let value_u16 = crt.multi_byte_to_wide_char value in
      let P = λ (k : Option Utf16).
        (v : Utf16) × (value_u16 ≡ some v)
        × Stored env cache name value (n ++ equal_sign ∷ v)
            (setenv_converted crt malloc env cache name value overwrite k value_u16) in
      subst P (sym m) (
        setenv_converted-Stored malloc env cache name value overwrite n value_u16 h new (
          sym
            (ap (λ k. (setenv_converted crt malloc env cache name value overwrite k value_u16).2) m)
          ∙ done))

  -- The value that was put is what the C runtime has.
  read-Stored :
      (laws : IsCrt crt) (env : E) (name value : Bytes) (n v : Utf16)
      → IsName n
      → value ≢ []
      → crt.multi_byte_to_wide_char name ≡ some n
      → crt.multi_byte_to_wide_char value ≡ some v
      → (crt.wputenv env (n ++ equal_sign ∷ v)).1 ≡ true
      → read crt (crt.wputenv env (n ++ equal_sign ∷ v)).0 name ≡ some value
  unfolding read get_u16env
  read-Stored laws env name value n v h filled mn mv put =
      let full : v ≢ [] = λ e. filled (
        some-injective value [] (
          sym (laws.converts value v mv)
          ∙ ap (λ u. crt.wide_char_to_multi_byte u) e
          ∙ laws.converts [] [] laws.empty)) in
      rw (mn, laws.sets env n v h full put, read, get_u16env) (laws.converts value v mv)

-- A call of setenv_utf8 that returns 0, for a value that is not empty, and that was to overwrite the variable
-- or found none, when the cache says what the C runtime says and has no name that differs from this one in
-- case only: getenv_utf8 then returns the value whatever memory there is, the C runtime has it, no variable
-- of a name that differs in more than case is changed, and the cache still says what the C runtime says.
pub setenv_utf8-sets :
    {E : Type 0} (crt : Crt E) (laws : IsCrt crt) (malloc later : Malloc) (env : E)
    (cache : Envcache) (name value : Bytes) (overwrite : Bool) (name_u16 : Utf16)
    → Agrees crt env cache
    → Apart crt laws cache name name_u16
    → crt.multi_byte_to_wide_char name ≡ some name_u16
    → IsName name_u16
    → value ≢ []
    → (not overwrite && is_some (crt.wgetenv env name_u16)) ≡ false
    → (setenv_utf8 crt malloc env cache name value overwrite).2 ≡ pos 0
    → let (after, cached, status) = setenv_utf8 crt malloc env cache name value overwrite in
      ((getenv_utf8 crt later after cached name).1 ≡ some value)
      × (read crt after name ≡ some value)
      × ((other : Bytes) (u : Utf16)
          → crt.multi_byte_to_wide_char other ≡ some u
          → laws.fold u ≢ laws.fold name_u16
          → read crt after other ≡ read crt env other)
      × Agrees crt after cached
setenv_utf8-sets crt laws malloc later env cache name value overwrite n h apart m named filled new
      done =
    let (after, cached, status) = setenv_utf8 crt malloc env cache name value overwrite in
    let (v, mv, s) =
      setenv_utf8-Stored crt malloc env cache name value overwrite n h.valid m new done in
    let value_read : read crt after name ≡ some value =
      ap (λ e. read crt e name) s.put_env
      ∙ read-Stored crt laws env name value n v named filled m mv s.put in
    let same : (other : Bytes)
        → ((u : Utf16) → crt.multi_byte_to_wide_char other ≡ some u → laws.fold u ≢ laws.fold n)
        → read crt after other ≡ read crt env other =
      λ other differs.
        ap (λ e. read crt e other) s.put_env ∙ read-others crt laws env n v other named differs in
    let agrees : Agrees crt after cached =
      Changed-Agrees crt env after cache cached name (some value) h s.changed
        (λ w k. value_read ∙ k)
        (λ other w differs k.
          same other (λ u mu. apart other u differs (λ e. ground (arith, e, k)) mu)) in
    (
      ap (λ r. r.1) (getenv_utf8-cached crt later after cached name value s.changed.reads),
      value_read,
      λ other u mu differs. same other (λ w mw.
          subst (λ k. laws.fold k ≢ laws.fold n) (some-injective u w (sym mu ∙ mw)) differs),
      agrees,
    )
