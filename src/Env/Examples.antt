-- ===== src/Env/Examples.antt =====
-- The theorems about mm_setenv and mm_get_basedir at a concrete environment, a function of the names.
use mathlib.Core.List.{List-discrete}
use mmlib.Base.{◌≡◌, ◌≢◌, refl, Bool, true, false, Option, none, some, arith, ℕ_discrete, ◌∙◌}
use mmlib.Base.Int.{pos}
use mmlib.Base.CString.{Bytes, codes}
use mmlib.Path.{posix}
use mmlib.Env.{Environ, mm_setenv}
use mmlib.Env.Setenv.{IsEnviron, wanted, mm_setenv-wanted}

abbrev Env : Type 0
Env = Bytes → Option Bytes

abbrev put : Env → Bytes → Bytes → Env
put env name value other = elim (List-discrete ℕ_discrete other name) [
  | yes _ ↦ some value
  | no _ ↦ env other
]

abbrev put_new : Env → Bytes → Bytes → (old : Option Bytes) → Env
put_new env name value none = put env name value
put_new env name value (some old) = env

abbrev environ : Environ Env
environ = record {
  getenv = λ env name. env name;
  setenv = λ env name value overwrite. elim overwrite [
    | true ↦ (put env name value, true)
    | false ↦ (put_new env name value (env name), true)
  ];
  unsetenv = λ env name. (env, true);
}

put-same : (env : Env) (name value : Bytes) → put env name value name ≡ some value
put-same env name value =
    elim (List-discrete ℕ_discrete name name)
      as (λ d. elim d [ yes _ ↦ some value | no _ ↦ env name ] ≡ some value) [
        | yes _ ↦ refl
        | no h ↦ absurd (h refl)
      ]

put-other :
    (env : Env) (name value other : Bytes) → other ≢ name → put env name value other ≡ env other
put-other env name value other apart =
    elim (List-discrete ℕ_discrete other name)
      as (λ d. elim d [ yes _ ↦ some value | no _ ↦ env other ] ≡ env other) [
        | yes e ↦ absurd (apart e)
        | no _ ↦ refl
      ]

put_new-unset :
    (env : Env) (name value : Bytes) (old : Option Bytes)
    → old ≡ none
    → put_new env name value old name ≡ some value
put_new-unset env name value none e = put-same env name value
put_new-unset env name value (some o) e = ground (arith, e)

put_new-set :
    (env : Env) (name value o : Bytes) (old : Option Bytes)
    → old ≡ some o
    → put_new env name value old name ≡ env name
put_new-set env name value o none e = ground (arith, e)
put_new-set env name value o (some p) e = refl

put_new-other :
    (env : Env) (name value other : Bytes) (old : Option Bytes)
    → other ≢ name
    → put_new env name value old other ≡ env other
put_new-other env name value other none apart = put-other env name value other apart
put_new-other env name value other (some o) apart = refl

setenv-other :
    (env : Env) (name value : Bytes) (overwrite : Bool) (other : Bytes)
    → other ≢ name
    → (environ.setenv env name value overwrite).0 other ≡ env other
setenv-other env name value true other apart = put-other env name value other apart
setenv-other env name value false other apart = put_new-other env name value other (env name) apart

setenv-done :
    (env : Env) (name value : Bytes) (overwrite : Bool)
    → (environ.setenv env name value overwrite).1 ≡ true
setenv-done env name value true = refl
setenv-done env name value false = refl

environ-IsEnviron : IsEnviron environ
environ-IsEnviron = record {
  sets = λ env name value h. put-same env name value;
  adds = λ env name value h e. put_new-unset env name value (env name) e;
  preserves = λ env name value old e. put_new-set env name value old (env name) e ∙ e;
  others = setenv-other;
  fails =
      λ env name value overwrite other h. ground (arith, h, setenv-done env name value overwrite);
}

abbrev with_path : Env
with_path = put (λ name. none) (codes "PATH") (codes "/bin")

mm_setenv-wanted_example :
    (environ.getenv
        (mm_setenv environ posix with_path (codes "PATH") (codes "/opt") (pos 2)).0
        (codes "PATH")
      ≡ some (wanted posix 2 (with_path (codes "PATH")) (codes "/opt")))
    × ((other : Bytes)
        → other ≢ codes "PATH"
        → environ.getenv
            (mm_setenv environ posix with_path (codes "PATH") (codes "/opt") (pos 2)).0
            other
          ≡ with_path other)
unfolding mm_setenv
mm_setenv-wanted_example =
    mm_setenv-wanted environ posix with_path (codes "PATH") (codes "/opt") 2 environ-IsEnviron
      (omega arith) refl

abbrev home_alone : Env
home_alone = put (λ name. none) (codes "HOME") (codes "/home/me")
