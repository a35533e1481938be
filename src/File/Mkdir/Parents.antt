-- ===== src/File/Mkdir/Parents.antt =====
-- src/file.c: mm_mkdir goes up to a directory that is not missing, and makes those below it on the way back.
use mmlib.Base.{
  ℕ, zero, suc, ◌+◌, ◌≤◌, ◌≡◌, refl, sym, ap, ◌∙◌, Bool-cases, inl, inr, true, false, List, [], ◌∷◌,
  arith, length,
}
use mmlib.Base.Int.{ℤ, pos, negsuc}
use mmlib.Base.CString.{Bytes}
use mmlib.Path.{is_wildcard_directory}
use mmlib.File.Mkdir.{
  Made, made, exists, missing, refused, internal_dirname, last_mkdir, behind_parent, first_mkdir,
  mm_mkdir_rec, mm_mkdir,
}
use mmlib.File.Mkdir.Paths.{
  IsName, IsTrimmed, below, root, internal_dirname-below, internal_dirname-root, below-IsTrimmed,
  root-IsTrimmed, length-path, length-first_path,
}
use mmlib.File.Mkdir.Wildcards.{wildcard_long, wildcard_root}

-- A path by its components: the first one, behind that many separators, and those below it, each behind more
-- separators than one.
pub data Spelled : Type 0 where
  top : (lead : ℕ) → (name : Bytes) → Spelled
  sub : Spelled → (more : ℕ) → (name : Bytes) → Spelled

-- The path, with separators at the end.
abbrev pub spell : Spelled → (trail : ℕ) → Bytes
spell (top lead name) trail = root lead name trail
spell (sub dir more name) trail = below (spell dir 0) more name trail

-- The components are names, and the first one is not "." or "..", and has at most one separator in front.
abbrev pub IsSpelled : Spelled → Type 0
IsSpelled (top lead name) = IsName name × (is_wildcard_directory name ≡ false) × (lead ≤ 1)
IsSpelled (sub dir more name) = IsName name × IsSpelled dir

-- The path and the directories above it, up to its first component.
abbrev pub ancestors : Spelled → (trail : ℕ) → List Bytes
ancestors (top lead name) trail = root lead name trail ∷ []
ancestors (sub dir more name) trail = below (spell dir 0) more name trail ∷ ancestors dir 0

module _ {F : Type 0} (mkdir : F → Bytes → F × Made) where
  abbrev pub on_answer : F × Made → (found further : F → F × ℤ) → F × ℤ
  on_answer (fs, made) found further = found fs
  on_answer (fs, exists) found further = found fs
  on_answer (fs, missing) found further = further fs
  on_answer (fs, refused) found further = (fs, negsuc 0)

  abbrev pub on_made : F × Made → (next : F → F × ℤ) → F × ℤ
  on_made (fs, made) next = next fs
  on_made (fs, exists) next = (fs, negsuc 0)
  on_made (fs, missing) next = (fs, negsuc 0)
  on_made (fs, refused) next = (fs, negsuc 0)

  -- Make the directories in turn, up to one that is not made.
  abbrev pub descend : F → List Bytes → F × ℤ
  descend fs [] = (fs, pos 0)
  descend fs (path ∷ paths) = on_made (mkdir fs path) (λ after. descend after paths)

  -- Try the directories in turn, up to one that is not missing, "." at the latest, and then make the missing ones
  -- from the last of them on.
  abbrev pub climb : F → (paths absent : List Bytes) → F × ℤ
  climb fs [] absent =
      on_answer (mkdir fs (b'.' ∷ [])) (λ after. descend after absent)
        (λ after. descend after absent)
  climb fs (path ∷ paths) absent =
      on_answer (mkdir fs path) (λ after. descend after absent)
        (λ after. climb after paths (path ∷ absent))

  -- What follows a call for a parent.
  abbrev continue : F × ℤ → (absent : List Bytes) → F × ℤ
  continue (fs, pos zero) absent = descend fs absent
  continue (fs, pos (suc n)) absent = (fs, negsuc 0)
  continue (fs, negsuc n) absent = (fs, negsuc 0)

  continue-last :
      (tried : F × Made) (absent : List Bytes)
      → continue (last_mkdir mkdir tried) absent ≡ on_made tried (λ after. descend after absent)
  continue-last (fs, made) absent = refl
  continue-last (fs, exists) absent = refl
  continue-last (fs, missing) absent = refl
  continue-last (fs, refused) absent = refl

  continue-behind :
      (path : Bytes) (parent : F × ℤ) (absent : List Bytes)
      → continue (behind_parent mkdir path parent) absent ≡ continue parent (path ∷ absent)
  continue-behind path (fs, pos zero) absent = continue-last (mkdir fs path) absent
  continue-behind path (fs, pos (suc n)) absent = refl
  continue-behind path (fs, negsuc n) absent = refl

  continue-first :
      (path : Bytes) (tried : F × Made) (with_parent further : F → F × ℤ) (absent : List Bytes)
      → is_wildcard_directory path ≡ false
      → ((fs : F) → continue (with_parent fs) absent ≡ further fs)
      → continue (first_mkdir mkdir path tried with_parent) absent
        ≡ on_answer tried (λ after. descend after absent) further
  continue-first path (fs, made) with_parent further absent w h = refl
  continue-first path (fs, exists) with_parent further absent w h = refl
  continue-first path (fs, missing) with_parent further absent w h = rw w (h fs)
  continue-first path (fs, refused) with_parent further absent w h = refl

  continue-dot :
      (tried : F × Made) (with_parent : F → F × ℤ) (absent : List Bytes)
      → continue (first_mkdir mkdir (b'.' ∷ []) tried with_parent) absent
        ≡ on_answer tried (λ after. descend after absent) (λ after. descend after absent)
  unfolding is_wildcard_directory
  continue-dot (fs, made) with_parent absent = refl
  continue-dot (fs, exists) with_parent absent = refl
  continue-dot (fs, missing) with_parent absent = refl
  continue-dot (fs, refused) with_parent absent = refl

spell-IsTrimmed : (p : Spelled) → IsSpelled p → IsTrimmed (spell p 0)
spell-IsTrimmed (top lead name) (n, w, few) = root-IsTrimmed lead name 0 few n refl
spell-IsTrimmed (sub dir more name) (n, d) =
    below-IsTrimmed (spell dir 0) more name 0 (spell-IsTrimmed dir d) n refl

-- How many calls there are.
depth : Spelled → ℕ
depth (top lead name) = 1
depth (sub dir more name) = suc (depth dir)

depth_le : (p : Spelled) (trail : ℕ) → IsSpelled p → depth p ≤ length (spell p trail)
unfolding depth
depth_le (top lead name) trail (n, w, few) =
    omega (arith, length-first_path lead name trail few n, n.size)
depth_le (sub dir more name) trail (n, d) =
    let trimmed = spell-IsTrimmed dir d in
    omega (arith, length-path (spell dir 0) more name trail trimmed n, depth_le dir 0 d)

module _ {F : Type 0} (mkdir : F → Bytes → F × Made) where
  mm_mkdir_rec-climb :
      (p : Spelled) (trail fuel : ℕ) (fs : F) (absent : List Bytes)
      → IsSpelled p
      → suc (depth p) ≤ fuel
      → continue mkdir (mm_mkdir_rec mkdir fuel fs (spell p trail)) absent
        ≡ climb mkdir fs (ancestors p trail) absent
  unfolding mm_mkdir_rec depth
  mm_mkdir_rec-climb p trail zero fs absent s h = absurd (omega (arith, h))
  mm_mkdir_rec-climb (top lead name) trail (suc zero) fs absent s h = absurd (omega (arith, h))
  mm_mkdir_rec-climb (top lead name) trail (suc (suc fuel)) fs absent (n, w, few) h =
      let path = root lead name trail in
      continue-first mkdir path (mkdir fs path) _ _ absent (wildcard_root lead name trail w)
        (λ tried.
          continue-behind mkdir path (mm_mkdir_rec mkdir (suc fuel) tried (internal_dirname path))
            absent
          ∙ ap (λ dir. continue mkdir (mm_mkdir_rec mkdir (suc fuel) tried dir) (path ∷ absent))
              (internal_dirname-root lead name trail few n)
          ∙ continue-dot mkdir (mkdir tried (b'.' ∷ [])) _ (path ∷ absent))
  mm_mkdir_rec-climb (sub dir more name) trail (suc fuel) fs absent (n, d) h =
      let path = below (spell dir 0) more name trail in
      let trimmed = spell-IsTrimmed dir d in
      let long : 3 ≤ length path =
        omega (arith, length-path (spell dir 0) more name trail trimmed n, trimmed.size, n.size) in
      continue-first mkdir path (mkdir fs path) _ _ absent (wildcard_long path long) (λ tried.
        continue-behind mkdir path (mm_mkdir_rec mkdir fuel tried (internal_dirname path)) absent
        ∙ ap (λ dir. continue mkdir (mm_mkdir_rec mkdir fuel tried dir) (path ∷ absent))
            (internal_dirname-below (spell dir 0) more name trail trimmed n)
        ∙ mm_mkdir_rec-climb dir 0 fuel tried (path ∷ absent) d (omega (arith, h)))

  -- The value returned is 0 or -1.
  abbrev Returns : F × ℤ → Type 0
  Returns r = continue mkdir r [] ≡ r

  last_mkdir-on_made :
      (tried : F × Made) → last_mkdir mkdir tried ≡ on_made mkdir tried (λ after. (after, pos 0))
  last_mkdir-on_made (fs, made) = refl
  last_mkdir-on_made (fs, exists) = refl
  last_mkdir-on_made (fs, missing) = refl
  last_mkdir-on_made (fs, refused) = refl

  last_mkdir-Returns : (tried : F × Made) → Returns (last_mkdir mkdir tried)
  last_mkdir-Returns (fs, made) = refl
  last_mkdir-Returns (fs, exists) = refl
  last_mkdir-Returns (fs, missing) = refl
  last_mkdir-Returns (fs, refused) = refl

  behind_parent-Returns :
      (path : Bytes) (parent : F × ℤ) → Returns (behind_parent mkdir path parent)
  behind_parent-Returns path (fs, pos zero) = last_mkdir-Returns (mkdir fs path)
  behind_parent-Returns path (fs, pos (suc n)) = refl
  behind_parent-Returns path (fs, negsuc n) = refl

  first_mkdir-Returns :
      (path : Bytes) (tried : F × Made) (with_parent : F → F × ℤ)
      → ((fs : F) → Returns (with_parent fs))
      → Returns (first_mkdir mkdir path tried with_parent)
  first_mkdir-Returns path (fs, made) with_parent h = refl
  first_mkdir-Returns path (fs, exists) with_parent h = refl
  first_mkdir-Returns path (fs, refused) with_parent h = refl
  first_mkdir-Returns path (fs, missing) with_parent h =
      elim (Bool-cases (is_wildcard_directory path)) [ inl w ↦ rw w refl | inr w ↦ rw w (h fs) ]

  mm_mkdir_rec-Returns :
      (fuel : ℕ) (fs : F) (path : Bytes) → Returns (mm_mkdir_rec mkdir fuel fs path)
  unfolding mm_mkdir_rec
  mm_mkdir_rec-Returns zero fs path = refl
  mm_mkdir_rec-Returns (suc fuel) fs path =
      first_mkdir-Returns path (mkdir fs path) _ (λ tried.
        behind_parent-Returns path (mm_mkdir_rec mkdir fuel tried (internal_dirname path)))

-- mm_mkdir of a path whose components are names, of which the first is neither "." nor "..", with at most
-- one separator in front of it, any number between them and any number at the end: with MM_RECURSIVE it
-- tries the path and the directories above it in turn, up to one that is not missing, "." at the latest;
-- unless that is refused, it makes the missing ones from the last of them on, and returns 0 if all of them
-- are made, and -1 behind the first one that is not, or where one was refused. Without MM_RECURSIVE it
-- makes the path or returns -1.
pub mm_mkdir-climb :
    {F : Type 0} (mkdir : F → Bytes → F × Made) (fs : F) (p : Spelled) (trail : ℕ)
    → IsSpelled p
    → (mm_mkdir mkdir fs (spell p trail) true ≡ climb mkdir fs (ancestors p trail) [])
      × (mm_mkdir mkdir fs (spell p trail) false ≡ descend mkdir fs (spell p trail ∷ []))
unfolding mm_mkdir
mm_mkdir-climb mkdir fs p trail s =
    let path = spell p trail in
    let enough : suc (depth p) ≤ length path + 2 = omega (arith, depth_le p trail s) in
    (
      sym (mm_mkdir_rec-Returns mkdir (length path + 2) fs path)
          ∙ mm_mkdir_rec-climb mkdir p trail (length path + 2) fs [] s enough,
      last_mkdir-on_made mkdir (mkdir fs path),
    )
