-- ===== src/Env/Basedir.antt =====
-- How long the base directories stay what they are.
use mmlib.Base.{ℕ, ◌<◌, ◌≡◌, Option, List, arith}
use mmlib.Base.Int.{pos}
use mmlib.Base.CString.{Bytes}
use mmlib.Env.{Environ, answer, num_dirtype, mm_get_basedir}

-- Once a call of mm_get_basedir for a valid folder has been answered, every call for it is answered with
-- the same string and leaves the folders as they are, whatever the environment has become.
mm_get_basedir-same :
    {E : Type 0} (environ : Environ E) (basedirs dirs : Option (List Bytes)) (env later : E)
    (dirtype : ℕ) (dir : Option Bytes)
    → dirtype < num_dirtype
    → mm_get_basedir environ basedirs env (pos dirtype) ≡ answer dirs dir
    → mm_get_basedir environ dirs later (pos dirtype) ≡ answer dirs dir
unfolding mm_get_basedir
mm_get_basedir-same environ basedirs dirs env later dirtype dir lt h = ground (arith, h)
