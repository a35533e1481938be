-- ===== src/Path/Split.antt =====
-- A path that is put together from a directory, separators, a name and more separators.
use mmlib.Base.{
  ℕ, ◌+◌, ◌-◌, ◌≤◌, ◌<◌, ◌≡◌, refl, ap, ◌∙◌, ◌⊎◌, inl, inr, true, false, some, arith, [], ◌∷◌, ◌++◌,
  length, take, length-append, take-length-append, drop-length-append, get_or-append_left,
  get_or-append_right, append_assoc, All, All-get_or, ◌==◌, if◌then◌else◌,
}
use mmlib.Base.CString.{Bytes, nul, char_at, codes}
use mmlib.Path.{
  Platform, is_path_separator, get_last_nonsep_ptr, get_basename_ptr, skip_separators, mm_basename,
  mm_dirname,
}
use mmlib.Path.Scan.{skip_separators_at, basename_loop_at, get_last_nonsep_ptr_at}

abbrev pub Separators : Platform → Bytes → Type 0
Separators os = All (λ c. is_path_separator os c ≡ true)

-- A component of a path: at least one byte, and none is a separator.
abbrev pub IsName : Platform → Bytes → Type 0
IsName os b = (0 < length b) × All (λ c. is_path_separator os c ≡ false) b

-- The last byte, if there is one, is a separator.
abbrev pub EndsBySeparator : Platform → Bytes → Type 0
EndsBySeparator os pre =
    (length pre ≡ 0) ⊎ (is_path_separator os (char_at pre (length pre - 1)) ≡ true)

module _ (os : Platform) (pre b post : Bytes) (ends : EndsBySeparator os pre) (name : IsName os b)
    (seps : Separators os post) where
  abbrev path : Bytes
  path = pre ++ (b ++ post)

  in_name :
      (i : ℕ)
      → length pre ≤ i
      → i < length pre + length b
      → is_path_separator os (char_at path i) ≡ false
  in_name i lo hi =
      ap (is_path_separator os) (
        get_or-append_right pre (b ++ post) (i - length pre) i nul (omega arith)
        ∙ get_or-append_left b post (i - length pre) nul (omega arith))
      ∙ All-get_or _ b (i - length pre) nul name.1 (omega arith)

  in_post :
      (i : ℕ)
      → length pre + length b ≤ i
      → i < length path
      → is_path_separator os (char_at path i) ≡ true
  in_post i lo hi =
      ap (is_path_separator os) (
        get_or-append_right pre (b ++ post) (i - length pre) i nul (omega arith)
        ∙ get_or-append_right b post (i - length pre - length b) (i - length pre) nul (omega arith))
      ∙ All-get_or _ post (i - length pre - length b) nul seps
          (omega (arith, length-append {0} pre (b ++ post), length-append {0} b post))

  at_pre : (length pre ≡ 0) ⊎ (is_path_separator os (char_at path (length pre - 1)) ≡ true)
  at_pre = ground (arith, get_or-append_left pre (b ++ post) (length pre - 1) nul)

  last_at : get_last_nonsep_ptr os path ≡ length pre + length b
  last_at =
      get_last_nonsep_ptr_at os path (length pre + length b) (omega (arith, name.0))
        (omega (arith, length-append {0} pre (b ++ post), length-append {0} b post)) in_post
        (inr (in_name (length pre + length b - 1) (omega (arith, name.0)) (omega (arith, name.0))))

  base_at : get_basename_ptr os path ≡ length pre
  unfolding get_basename_ptr
  base_at = rw last_at (
      basename_loop_at os path (length pre + length b) (length pre + length b - 1) (length pre)
        (omega (arith, name.0)) (omega (arith, name.0)) (λ i lo hi. in_name i lo (omega arith))
        at_pre)

  -- The name is the base name, whatever separators follow it.
  pub mm_basename-name : mm_basename os (some path) ≡ b
  unfolding mm_basename
  mm_basename-name =
      rw (last_at, base_at)
        (ground (
          arith,
          drop-length-append pre (b ++ post),
          take-length-append b post,
          name.0,
          ap (λ n. take n (b ++ post)) count,
        ))
    where
      count : length pre + length b - length pre ≡ length b
      count = omega arith

-- The directory stands before the separators that stand before the name.
module _ (os : Platform) (dir seps b post : Bytes) (some_dir : 0 < length dir)
    (ends : is_path_separator os (char_at dir (length dir - 1)) ≡ false)
    (some_sep : 0 < length seps) (are : Separators os seps) (name : IsName os b)
    (are' : Separators os post) where
  abbrev pre : Bytes
  pre = dir ++ seps

  length-pre : length pre ≡ length dir + length seps
  length-pre = length-append dir seps

  in_seps :
      (i : ℕ)
      → length dir ≤ i
      → i < length dir + length seps
      → is_path_separator os (char_at pre i) ≡ true
  in_seps i lo hi =
      ap (is_path_separator os) (get_or-append_right dir seps (i - length dir) i nul (omega arith))
      ∙ All-get_or _ seps (i - length dir) nul are (omega arith)

  in_path : (i : ℕ) → i < length dir + length seps → char_at (pre ++ (b ++ post)) i ≡ char_at pre i
  in_path i hi = get_or-append_left pre (b ++ post) i nul (omega (arith, length-pre))

  stop_at : skip_separators os (pre ++ (b ++ post)) (length pre - 1) ≡ length dir - 1
  stop_at =
      skip_separators_at os (pre ++ (b ++ post)) (length pre - 1) (length dir - 1)
        (omega (arith, length-pre))
        (λ i lo hi.
          ap (is_path_separator os) (in_path i (omega (arith, length-pre)))
          ∙ in_seps i (omega arith) (omega (arith, length-pre)))
        (inr (
          ap (is_path_separator os) (
            in_path (length dir - 1) (omega arith)
            ∙ get_or-append_left dir seps (length dir - 1) nul (omega arith))
          ∙ ends))

  pre_ends : EndsBySeparator os pre
  pre_ends = inr (in_seps (length pre - 1) (omega (arith, length-pre)) (omega (arith, length-pre)))

  mm_dirname-pre : mm_dirname os (some (pre ++ (b ++ post))) ≡ dir
  unfolding mm_dirname
  mm_dirname-pre =
      rw (base_at os pre b post pre_ends name are', stop_at)
        (ground (
          arith,
          length-pre,
          append_assoc dir seps (b ++ post),
          take-length-append dir (seps ++ (b ++ post)),
          ap (λ n. take n (pre ++ (b ++ post))) count,
        ))
    where
      count : length dir - 1 + 1 ≡ length dir
      count = omega arith

-- `mm_basename` and `mm_dirname` take a path apart: of a directory that does not end by a separator,
-- one separator or more, a name and any separators, they give the name and the directory.
pub mm_dirname-mm_basename :
    (os : Platform) (dir seps b post : Bytes)
    → 0 < length dir
    → is_path_separator os (char_at dir (length dir - 1)) ≡ false
    → 0 < length seps
    → Separators os seps
    → IsName os b
    → Separators os post
    → (mm_dirname os (some (dir ++ (seps ++ (b ++ post)))) ≡ dir)
      × (mm_basename os (some (dir ++ (seps ++ (b ++ post)))) ≡ b)
mm_dirname-mm_basename os dir seps b post some_dir ends some_sep are name are' =
    rw (← append_assoc dir seps (b ++ post)) (
      mm_dirname-pre os dir seps b post some_dir ends some_sep are name are',
      mm_basename-name os (dir ++ seps) b post
          (pre_ends os dir seps b post some_dir ends some_sep are name are') name are',
    )

-- A name with no directory before it lies in ".", and a name below the root in the root.
mm_dirname_short :
    (os : Platform) (seps b post : Bytes)
    → Separators os seps
    → IsName os b
    → Separators os post
    → mm_dirname os (some (seps ++ (b ++ post)))
      ≡ (if length seps == 0 then codes "." else take 1 seps)
unfolding mm_dirname
mm_dirname_short os [] b post are name are' = ground (
  arith,
  base_at os [] b post (inl refl) name are',
  in_name os [] b post (inl refl) name are' 0 (omega arith) (omega (arith, name.0)),
)
mm_dirname_short os (c ∷ seps) b post are name are' =
    rw (base_at os (c ∷ seps) b post ends name are', stop_at_root) (ground arith)
  where
    pre : Bytes
    pre = c ∷ seps

    ends : EndsBySeparator os pre
    ends = inr (All-get_or _ pre (length pre - 1) nul are (omega arith))

    stop_at_root : skip_separators os (pre ++ (b ++ post)) (length pre - 1) ≡ 0
    stop_at_root =
        skip_separators_at os (pre ++ (b ++ post)) (length pre - 1) 0 (omega arith)
          (λ i lo hi.
            ap (is_path_separator os) (get_or-append_left pre (b ++ post) i nul (omega arith))
            ∙ All-get_or _ pre i nul are (omega arith))
          (inl refl)
