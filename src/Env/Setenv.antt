-- ===== src/Env/Setenv.antt =====
-- What mm_setenv makes of an environment.
use mmlib.Base.{
  ℕ, zero, suc, ◌+◌, ◌<◌, ◌≡◌, ◌≢◌, refl, ap, subst, ◌∙◌, inl, inr, Bool, true, false, Bool-cases,
  Option, none, some, ◌∷◌, ◌++◌, arith, length, length-append, leb, ◌!=◌,
}
use mmlib.Base.Int.{ℤ, pos, negsuc}
use mmlib.Base.CString.{Bytes}
use mmlib.Path.{Platform, posix, windows}
use mmlib.Env.{Environ, delim, join_values, joined_size, env_max, mm_getenv, new_value, mm_setenv}

-- What the C library documents of setenv: it sets the value, unless it is there and not to be overwritten;
-- no other variable is changed, and none where it fails.
pub record IsEnviron {E : Type 0} (environ : Environ E) : Type 0 where
  pub sets :
      (env : E) (name value : Bytes)
      → (environ.setenv env name value true).1 ≡ true
      → environ.getenv (environ.setenv env name value true).0 name ≡ some value
  pub adds :
      (env : E) (name value : Bytes)
      → (environ.setenv env name value false).1 ≡ true
      → environ.getenv env name ≡ none
      → environ.getenv (environ.setenv env name value false).0 name ≡ some value
  pub preserves :
      (env : E) (name value old : Bytes)
      → environ.getenv env name ≡ some old
      → environ.getenv (environ.setenv env name value false).0 name ≡ some old
  pub others :
      (env : E) (name value : Bytes) (overwrite : Bool) (other : Bytes)
      → other ≢ name
      → environ.getenv (environ.setenv env name value overwrite).0 other ≡ environ.getenv env other
  pub fails :
      (env : E) (name value : Bytes) (overwrite : Bool) (other : Bytes)
      → (environ.setenv env name value overwrite).1 ≡ false
      → environ.getenv (environ.setenv env name value overwrite).0 other ≡ environ.getenv env other

-- The value that a variable is to have: MM_ENV_PRESERVE, MM_ENV_OVERWRITE, MM_ENV_PREPEND, MM_ENV_APPEND.
abbrev pub wanted : Platform → (action : ℕ) → (old : Option Bytes) → Bytes → Bytes
wanted os action none value = value
wanted os zero (some old) value = old
wanted os (suc zero) (some old) value = value
wanted os (suc (suc zero)) (some old) value = value ++ (delim os ++ old)
wanted os (suc (suc (suc action))) (some old) value = old ++ (delim os ++ value)

module _ {E : Type 0} (environ : Environ E) (os : Platform) (env : E) (name value : Bytes) where
  -- A call that returns 0 has handed the new value to setenv, which succeeded.
  mm_setenv-done :
      (action : ℕ)
      → (mm_setenv environ os env name value (pos action)).1 ≡ pos 0
      → (environ.setenv env name (new_value environ os env name value action) (action != 0)).1
        ≡ true
  unfolding mm_setenv
  mm_setenv-done action h = ground (arith, h)

  mm_setenv-env :
      (action : ℕ)
      → action < env_max
      → (mm_setenv environ os env name value (pos action)).0
        ≡ (environ.setenv env name (new_value environ os env name value action) (action != 0)).0
  unfolding mm_setenv
  mm_setenv-env action h = ground (arith, h)

  new_value-unset :
      (action : ℕ)
      → environ.getenv env name ≡ none
      → new_value environ os env name value action ≡ value
  unfolding new_value mm_getenv
  new_value-unset action e = rw (e, new_value, mm_getenv) refl

  new_value-set :
      (action : ℕ) (old : Bytes)
      → action < 3
      → environ.getenv env name ≡ some old
      → new_value environ os env name value (suc action) ≡ wanted os (suc action) (some old) value
  unfolding new_value mm_getenv join_values
  new_value-set zero old h e = rw (e, new_value, mm_getenv) refl
  new_value-set (suc zero) old h e = rw (e, new_value, mm_getenv) refl
  new_value-set (suc (suc zero)) old h e = rw (e, new_value, mm_getenv) refl
  new_value-set (suc (suc (suc action))) old h e = absurd (omega arith)

  module _ (laws : IsEnviron environ) where
    set_to :
        (action : ℕ)
        → action < 3
        → (mm_setenv environ os env name value (pos (suc action))).1 ≡ pos 0
        → environ.getenv (mm_setenv environ os env name value (pos (suc action))).0 name
          ≡ some (new_value environ os env name value (suc action))
    set_to action lt h =
        let v = new_value environ os env name value (suc action) in
        let b : (suc action != 0) ≡ true = ground arith in
        ap (λ c. environ.getenv c name) (mm_setenv-env (suc action) (omega arith))
        ∙ ap (λ o. environ.getenv (environ.setenv env name v o).0 name) b
        ∙ laws.sets env name v
            (subst (λ o. (environ.setenv env name v o).1 ≡ true) b (mm_setenv-done (suc action) h))

    set_wanted :
        (action : ℕ) (old : Option Bytes)
        → environ.getenv env name ≡ old
        → action < env_max
        → (mm_setenv environ os env name value (pos action)).1 ≡ pos 0
        → environ.getenv (mm_setenv environ os env name value (pos action)).0 name
          ≡ some (wanted os action old value)
    set_wanted zero none e lt h =
        ap (λ c. environ.getenv c name) (mm_setenv-env 0 lt)
        ∙ laws.adds env name (new_value environ os env name value 0) (mm_setenv-done 0 h) e
        ∙ ap some (new_value-unset 0 e)
    set_wanted zero (some old) e lt h =
        ap (λ c. environ.getenv c name) (mm_setenv-env 0 lt)
        ∙ laws.preserves env name (new_value environ os env name value 0) old e
    set_wanted (suc action) none e lt h =
        set_to action (omega arith) h ∙ ap some (new_value-unset (suc action) e)
    set_wanted (suc action) (some old) e lt h =
        set_to action (omega arith) h ∙ ap some (new_value-set action old (omega arith) e)

-- A call of mm_setenv with a valid action that returns 0 gives the variable the value that the action asks
-- for, from its old value, and changes no other variable.
pub mm_setenv-wanted :
    {E : Type 0} (environ : Environ E) (os : Platform) (env : E) (name value : Bytes) (action : ℕ)
    → IsEnviron environ
    → action < env_max
    → (mm_setenv environ os env name value (pos action)).1 ≡ pos 0
    → (environ.getenv (mm_setenv environ os env name value (pos action)).0 name
        ≡ some (wanted os action (environ.getenv env name) value))
      × ((other : Bytes)
          → other ≢ name
          → environ.getenv (mm_setenv environ os env name value (pos action)).0 other
            ≡ environ.getenv env other)
mm_setenv-wanted environ os env name value action laws lt h = (
  set_wanted environ os env name value laws action (environ.getenv env name) refl lt h,
  λ other apart.
      ap (λ c. environ.getenv c other) (mm_setenv-env environ os env name value action lt)
      ∙ laws.others env name (new_value environ os env name value action) (action != 0) other apart,
)

-- A call of mm_setenv that does not return 0 returns -1 and changes no variable.
mm_setenv-fails :
    {E : Type 0} (environ : Environ E) (os : Platform) (env : E) (name value : Bytes) (action : ℤ)
    → IsEnviron environ
    → (mm_setenv environ os env name value action).1 ≢ pos 0
    → ((mm_setenv environ os env name value action).1 ≡ negsuc 0)
      × ((other : Bytes)
          → environ.getenv (mm_setenv environ os env name value action).0 other
            ≡ environ.getenv env other)
unfolding mm_setenv
mm_setenv-fails environ os env name value (negsuc n) laws h = (refl, λ other. refl)
mm_setenv-fails environ os env name value (pos action) laws h =
    elim (Bool-cases (leb env_max action)) [
      | inl e ↦ rw e (refl, λ other. refl)
      | inr e ↦
          let v = new_value environ os env name value action in
          let failed : (environ.setenv env name v (action != 0)).1 ≡ false = ground (arith, h) in
          rw (e, failed) (refl, λ other. laws.fails env name v (action != 0) other failed)
    ]

-- The value joined by mm_setenv needs one byte more, with its terminator, than is allocated for it.
joined_size_short :
    (os : Platform) (action : ℕ) (old value : Bytes)
    → length (join_values os action old value) + 1 ≡ joined_size old value + 1
unfolding join_values joined_size delim
joined_size_short posix action old value =
    ground (arith, length-append value (b':' ∷ old), length-append old (b':' ∷ value))
joined_size_short windows action old value =
    ground (arith, length-append value (b';' ∷ old), length-append old (b';' ∷ value))
