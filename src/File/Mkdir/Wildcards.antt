-- ===== src/File/Mkdir/Wildcards.antt =====
-- src/file.c: paths that are neither "." nor "..".
use mmlib.Base.{ℕ, zero, suc, ◌≤◌, ◌≡◌, refl, false, [], ◌∷◌, ◌++◌, arith, length}
use mmlib.Base.CString.{Bytes}
use mmlib.Path.{is_wildcard_directory}
use mmlib.File.Mkdir.Scan.{slashes}
use mmlib.File.Mkdir.Paths.{root}

pub wildcard_long : (path : Bytes) → 3 ≤ length path → is_wildcard_directory path ≡ false
unfolding is_wildcard_directory
wildcard_long [] h = refl
wildcard_long (c ∷ []) h = absurd (omega arith)
wildcard_long (c ∷ d ∷ []) h = absurd (omega arith)
wildcard_long (c ∷ d ∷ e ∷ path) h = refl

wildcard_slash : (path : Bytes) → is_wildcard_directory (b'/' ∷ path) ≡ false
unfolding is_wildcard_directory
wildcard_slash [] = refl
wildcard_slash (c ∷ []) = refl
wildcard_slash (c ∷ d ∷ path) = refl

wildcard_trail :
    (name : Bytes) (trail : ℕ)
    → is_wildcard_directory name ≡ false
    → is_wildcard_directory (name ++ slashes trail) ≡ false
unfolding is_wildcard_directory
wildcard_trail [] zero h = refl
wildcard_trail [] (suc zero) h = refl
wildcard_trail [] (suc (suc zero)) h = refl
wildcard_trail [] (suc (suc (suc trail))) h = refl
wildcard_trail (c ∷ []) zero h = h
wildcard_trail (c ∷ []) (suc zero) h = ground arith
wildcard_trail (c ∷ []) (suc (suc trail)) h = refl
wildcard_trail (c ∷ d ∷ []) zero h = h
wildcard_trail (c ∷ d ∷ []) (suc trail) h = refl
wildcard_trail (c ∷ d ∷ e ∷ name) trail h = refl

pub wildcard_root :
    (lead : ℕ) (name : Bytes) (trail : ℕ)
    → is_wildcard_directory name ≡ false
    → is_wildcard_directory (root lead name trail) ≡ false
wildcard_root zero name trail h = wildcard_trail name trail h
wildcard_root (suc lead) name trail h = wildcard_slash (slashes lead ++ (name ++ slashes trail))
