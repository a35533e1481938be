-- ===== src/File/Mkdir/Paths.antt =====
-- src/file.c: internal_dirname of a path that is spelled by its components.
use mmlib.Base.{
  ℕ, suc, ◌+◌, ◌-◌, ◌≤◌, ◌<◌, ◌≡◌, refl, ap, ◌∙◌, false, some, [], ◌∷◌, ◌++◌, arith, All,
  All-get_or, get_or-append_left, get_or-append_right, length, length-append, length-replicate,
  take-length-append,
}
use mmlib.Base.CString.{Bytes, char_at, nul}
use mmlib.Path.{posix, is_path_separator}
use mmlib.File.Mkdir.{skip_back, cut_at, last_char, cut, internal_dirname}
use mmlib.File.Mkdir.Scan.{
  slashes, slash, char_at-slashes, skip_back-over, cut_at-over, cut_at-none,
}

-- A component: it has a byte and no separator.
pub record IsName (name : Bytes) : Type 0 where
  pub size : 0 < length name
  pub clear : All (λ c. is_path_separator posix c ≡ false) name

-- The path of a component in a directory, behind `more` separators more than one, and with some at the end.
abbrev pub below : (dir : Bytes) → (more : ℕ) → (name : Bytes) → (trail : ℕ) → Bytes
below dir more name trail = dir ++ (slashes (suc more) ++ (name ++ slashes trail))

-- The last byte is no separator.
pub record IsTrimmed (path : Bytes) : Type 0 where
  pub size : 0 < length path
  pub last : is_path_separator posix (char_at path (length path - 1)) ≡ false

module _ (dir : Bytes) (more : ℕ) (name : Bytes) (trail : ℕ) (trimmed : IsTrimmed dir)
    (n : IsName name) where
  abbrev path : Bytes
  path = below dir more name trail

  -- The bytes of the path.
  at_dir : (i : ℕ) → i < length dir → char_at path i ≡ char_at dir i
  at_dir i h = get_or-append_left dir (slashes (suc more) ++ (name ++ slashes trail)) i nul h

  at_separators : (i j : ℕ) → i < suc more → j ≡ length dir + i → char_at path j ≡ b'/'
  at_separators i j h e =
      get_or-append_right dir (slashes (suc more) ++ (name ++ slashes trail)) i j nul e
      ∙ get_or-append_left (slashes (suc more)) (name ++ slashes trail) i nul
          (omega (arith, h, length-replicate {A = ℕ} (suc more) b'/'))
      ∙ char_at-slashes (suc more) i h

  behind_separators :
      (i j : ℕ) → j ≡ length dir + suc more + i → char_at path j ≡ char_at (name ++ slashes trail) i
  behind_separators i j e =
      get_or-append_right dir (slashes (suc more) ++ (name ++ slashes trail)) (suc more + i) j nul
        (omega (arith, e))
      ∙ get_or-append_right (slashes (suc more)) (name ++ slashes trail) i (suc more + i) nul
          (omega (arith, length-replicate {A = ℕ} (suc more) b'/'))

  at_name :
      (i j : ℕ)
      → i < length name
      → j ≡ length dir + suc more + i
      → is_path_separator posix (char_at path j) ≡ false
  at_name i j h e =
      ap (is_path_separator posix)
        (behind_separators i j e ∙ get_or-append_left name (slashes trail) i nul h)
      ∙ All-get_or (λ c. is_path_separator posix c ≡ false) name i nul n.clear h

  at_trail :
      (i j : ℕ) → i < trail → j ≡ length dir + suc more + length name + i → char_at path j ≡ b'/'
  at_trail i j h e =
      behind_separators (length name + i) j (omega (arith, e))
      ∙ get_or-append_right name (slashes trail) i (length name + i) nul refl
      ∙ char_at-slashes trail i h

  pub length-path : length path ≡ length dir + suc more + length name + trail
  length-path = omega (
    arith,
    length-append dir (slashes (suc more) ++ (name ++ slashes trail)),
    length-append (slashes (suc more)) (name ++ slashes trail),
    length-append name (slashes trail),
    length-replicate {A = ℕ} (suc more) b'/',
    length-replicate {A = ℕ} trail b'/',
  )

  last_char-below : last_char path (length path) ≡ some (length dir)
  last_char-below =
      let dir_end = length dir - 1 in
      let separator = length dir + more in
      let name_end = length dir + suc more + (length name - 1) in
      let size : length path ≡ suc (name_end + trail) = omega (arith, length-path, n.size) in
      let trail_skipped : skip_back path (name_end + trail) ≡ name_end =
        skip_back-over path trail name_end (name_end + trail) refl
          (λ i lt within.
            ap (is_path_separator posix)
              (at_trail (i - suc name_end) i (omega (arith, n.size)) (omega (arith, n.size)))
            ∙ slash)
          (at_name (length name - 1) name_end (omega (arith, n.size)) refl) in
      let name_skipped : cut_at path name_end ≡ some (suc (skip_back path separator)) =
        cut_at-over path (length name - 1) separator name_end (omega arith)
          (omega (arith, trimmed.size))
          (λ i lt within. at_name (i - suc separator) i (omega arith) (omega arith))
          (ap (is_path_separator posix) (at_separators more separator (omega arith) refl)
            ∙ slash) in
      let separators_skipped : skip_back path separator ≡ dir_end =
        skip_back-over path (suc more) dir_end separator (omega (arith, trimmed.size))
          (λ i lt within.
            ap (is_path_separator posix)
              (at_separators (i - length dir) i (omega arith) (omega arith))
            ∙ slash)
          (ap (is_path_separator posix) (at_dir dir_end (omega (arith, trimmed.size)))
            ∙ trimmed.last) in
      let behind : suc dir_end ≡ length dir = omega (arith, trimmed.size) in
      ap (last_char path) size
      ∙ ap (cut_at path) trail_skipped
      ∙ name_skipped
      ∙ ap (λ k. some (suc k)) separators_skipped
      ∙ ap some behind

  -- The directory of a component, without the separators around it.
  pub internal_dirname-below : internal_dirname path ≡ dir
  unfolding internal_dirname
  internal_dirname-below =
      ap (cut path) last_char-below
      ∙ take-length-append dir (slashes (suc more) ++ (name ++ slashes trail))

  pub below-IsTrimmed : trail ≡ 0 → IsTrimmed path
  below-IsTrimmed e =
      let last : length path - 1 ≡ length dir + suc more + (length name - 1) =
        omega (arith, length-path, n.size, e) in
      record {
        size = omega (arith, length-path);
        last = at_name (length name - 1) (length path - 1) (omega (arith, n.size)) last;
      }

-- The path of a first component, behind at most one separator.
abbrev pub root : (lead : ℕ) → (name : Bytes) → (trail : ℕ) → Bytes
root lead name trail = slashes lead ++ (name ++ slashes trail)

module _ (lead : ℕ) (name : Bytes) (trail : ℕ) (few : lead ≤ 1) (n : IsName name) where
  abbrev first_path : Bytes
  first_path = root lead name trail

  behind_lead : (i j : ℕ) → j ≡ lead + i → char_at first_path j ≡ char_at (name ++ slashes trail) i
  behind_lead i j e =
      get_or-append_right (slashes lead) (name ++ slashes trail) i j nul
        (omega (arith, e, length-replicate {A = ℕ} lead b'/'))

  at_first_name :
      (i j : ℕ)
      → i < length name
      → j ≡ lead + i
      → is_path_separator posix (char_at first_path j) ≡ false
  at_first_name i j h e =
      ap (is_path_separator posix)
        (behind_lead i j e ∙ get_or-append_left name (slashes trail) i nul h)
      ∙ All-get_or (λ c. is_path_separator posix c ≡ false) name i nul n.clear h

  at_first_trail : (i j : ℕ) → i < trail → j ≡ lead + length name + i → char_at first_path j ≡ b'/'
  at_first_trail i j h e =
      behind_lead (length name + i) j (omega (arith, e))
      ∙ get_or-append_right name (slashes trail) i (length name + i) nul refl
      ∙ char_at-slashes trail i h

  pub length-first_path : length first_path ≡ lead + length name + trail
  length-first_path = omega (
    arith,
    length-append (slashes lead) (name ++ slashes trail),
    length-append name (slashes trail),
    length-replicate {A = ℕ} lead b'/',
    length-replicate {A = ℕ} trail b'/',
  )

  -- It stands in the current directory, or in the root, which is taken for it.
  pub internal_dirname-root : internal_dirname first_path ≡ b'.' ∷ []
  unfolding internal_dirname
  internal_dirname-root =
      let name_end = lead + (length name - 1) in
      let size : length first_path ≡ suc (name_end + trail) =
        omega (arith, length-first_path, n.size) in
      let trail_skipped : skip_back first_path (name_end + trail) ≡ name_end =
        skip_back-over first_path trail name_end (name_end + trail) refl
          (λ i lt within.
            ap (is_path_separator posix)
              (at_first_trail (i - suc name_end) i (omega (arith, n.size)) (omega (arith, n.size)))
            ∙ slash)
          (at_first_name (length name - 1) name_end (omega (arith, n.size)) refl) in
      ap (λ len. cut first_path (last_char first_path len)) size
      ∙ ap (λ c. cut first_path (cut_at first_path c)) trail_skipped
      ∙ ap (cut first_path) (
          cut_at-none first_path name_end
            (λ i pos lt. at_first_name (i - lead) i (omega (arith, few)) (omega (arith, few))))

  pub root-IsTrimmed : trail ≡ 0 → IsTrimmed first_path
  root-IsTrimmed e =
      let last : length first_path - 1 ≡ lead + (length name - 1) =
        omega (arith, length-first_path, n.size, e) in
      record {
        size = omega (arith, length-first_path, n.size);
        last = at_first_name (length name - 1) (length first_path - 1) (omega (arith, n.size)) last;
      }
