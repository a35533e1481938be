-- ===== src/Env.antt =====
-- src/utils.c, the environment and the base directories. The environment itself is the C library's.
pub mod Setenv
pub mod Basedir
pub mod Windows
mod Examples
use mmlib.Base.{
  ℕ, ◌+◌, Bool, true, false, ◌||◌, Option, none, some, List, [], ◌∷◌, ◌++◌, leb, ltb, ◌==◌, ◌!=◌,
  if◌then◌else◌, length, get_elem?,
}
use mmlib.Base.Int.{ℤ, pos, negsuc}
use mmlib.Base.CString.{Bytes, codes}
use mmlib.Path.{Platform, posix, windows}

-- The call ends with the folders that are kept from then on, and returns a string or NULL; or the process
-- aborts.
pub data Answer : Type 0 where
  aborted : Answer
  answer : Option (List Bytes) → Option Bytes → Answer

-- getenv, setenv and unsetenv on an environment of type `E`: the two last ones say whether they succeed.
pub record Environ (E : Type 0) : Type 0 where
  pub getenv : E → Bytes → Option Bytes
  pub setenv : E → (name value : Bytes) → (overwrite : Bool) → E × Bool
  pub unsetenv : E → Bytes → E × Bool

-- MM_ENV_DELIM
pub delim : Platform → Bytes
delim posix = codes ":"
delim windows = codes ";"

abbrev pub env_prepend : ℕ
env_prepend = 2

abbrev pub env_append : ℕ
env_append = 3

abbrev pub env_max : ℕ
env_max = 4

abbrev pub num_dirtype : ℕ
num_dirtype = 5

-- What the two calls of sprintf write.
pub join_values : Platform → (action : ℕ) → (old_value value : Bytes) → Bytes
join_values os action old_value value =
    if action == env_prepend
    then value ++ (delim os ++ old_value)
    else old_value ++ (delim os ++ value)

-- The bytes that are allocated for it.
pub joined_size : (old_value value : Bytes) → ℕ
joined_size old_value value = length value + 1 + length old_value

module _ {E : Type 0} (environ : Environ E) where
  pub mm_getenv : E → (name : Bytes) → (default_value : Option Bytes) → Option Bytes
  mm_getenv env name default_value = elim (environ.getenv env name) [
    | none ↦ default_value
    | some value ↦ some value
  ]

  -- The value that is handed on to setenv.
  pub new_value : Platform → E → (name value : Bytes) → (action : ℕ) → Bytes
  new_value os env name value action = elim (mm_getenv env name none) [
    | none ↦ value
    | some old_value ↦
        if action == env_prepend || action == env_append
        then join_values os action old_value value
        else value
  ]

  pub mm_setenv : Platform → E → (name value : Bytes) → (action : ℤ) → E × ℤ
  mm_setenv os env name value (negsuc n) = (env, negsuc 0)
  mm_setenv os env name value (pos action) =
      let (after, done) =
        environ.setenv env name (new_value os env name value action) (action != 0) in
      if leb env_max action then (env, negsuc 0) else (after, if done then pos 0 else negsuc 0)

  -- The error of unsetenv is raised, but 0 is returned.
  pub mm_unsetenv : E → Bytes → E × ℤ
  mm_unsetenv env name = let (after, done) = environ.unsetenv env name in (after, pos 0)

  pub dir_or_relative : (dir : Option Bytes) → (parent suffix : Bytes) → Bytes
  dir_or_relative none parent suffix = parent ++ (codes "/" ++ suffix)
  dir_or_relative (some dir) parent suffix = dir

  abbrev or_value : Option Bytes → Bytes → Bytes
  or_value none value = value
  or_value (some v) value = v

  -- The folders in the order of `enum mm_known_dir`; `none` is the abort by mm_check, without a home.
  pub init_basedirs : E → Option (List Bytes)
  init_basedirs env =
      elim (mm_getenv env (codes "HOME") (mm_getenv env (codes "USERPROFILE") none)) [
        | none ↦ none
        | some home ↦ some (
            home
            ∷ dir_or_relative (mm_getenv env (codes "XDG_DATA_HOME") none) home
                (codes ".local/share")
            ∷ dir_or_relative (mm_getenv env (codes "XDG_CONFIG_HOME") none) home (codes ".config")
            ∷ dir_or_relative (mm_getenv env (codes "XDG_CACHE_HOME") none) home (codes ".cache")
            ∷ dir_or_relative (mm_getenv env (codes "XDG_RUNTIME_DIR") none)
                (or_value (mm_getenv env (codes "TEMP") (some (codes "/tmp"))) [])
                (or_value (mm_getenv env (codes "USERNAME") (some (codes "self"))) [])
            ∷ [])
      ]

  abbrev read_dir : (dirs : Option (List Bytes)) → ℕ → Answer
  read_dir none dirtype = aborted
  read_dir (some dirs) dirtype = answer (some dirs) (get_elem? dirs dirtype)

  -- mm_thr_once: the folders are set by the first call, and kept.
  abbrev once : (basedirs : Option (List Bytes)) → E → Option (List Bytes)
  once none env = init_basedirs env
  once (some dirs) env = some dirs

  pub mm_get_basedir : (basedirs : Option (List Bytes)) → E → (dirtype : ℤ) → Answer
  mm_get_basedir basedirs env (negsuc n) = answer basedirs none
  mm_get_basedir basedirs env (pos dirtype) =
      let read = read_dir (once basedirs env) dirtype in
      if ltb dirtype num_dirtype then read else answer basedirs none

  abbrev append_suffix : (allocated : Bool) → Answer → Bytes → Answer
  append_suffix allocated aborted suffix = aborted
  append_suffix allocated (answer dirs none) suffix = answer dirs none
  append_suffix true (answer dirs (some base)) suffix =
      answer dirs (some (base ++ (codes "/" ++ suffix)))
  append_suffix false (answer dirs (some base)) suffix = answer dirs none

  pub mm_path_from_basedir :
      (allocated : Bool)
      → (basedirs : Option (List Bytes)) → E
      → (dirtype : ℤ) → (suffix : Option Bytes) → Answer
  mm_path_from_basedir allocated basedirs env dirtype none = answer basedirs none
  mm_path_from_basedir allocated basedirs env dirtype (some suffix) =
      append_suffix allocated (mm_get_basedir basedirs env dirtype) suffix
