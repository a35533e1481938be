-- ===== src/Process/Search/Components.antt =====
-- src/process-win32.c: the components of PATH, and the pointers to them.
use mmlib.Base.{
  ℕ, ◌≤◌, ◌≡◌, refl, ap, List, [], ◌∷◌, arith, Bool-cases, inl, inr, length-drop, ◌==◌, length,
  take, drop, if◌then◌else◌,
}
use mmlib.Base.CString.{Bytes}
use mmlib.Process.Search.{dir_length, skip_semicolon}

-- A character before the components.
abbrev push : ℕ → List Bytes → List Bytes
push c [] = (c ∷ []) ∷ []
push c (dir ∷ dirs) = (c ∷ dir) ∷ dirs

-- The components between the semicolons; nothing follows a last semicolon.
abbrev pub components : Bytes → List Bytes
components [] = []
components (c ∷ path) = let dirs = components path in if c == b';' then [] ∷ dirs else push c dirs

pub components-dir_length :
    (c : ℕ) (dir : Bytes)
    → components (c ∷ dir)
      ≡ take (dir_length (c ∷ dir)) (c ∷ dir)
        ∷ components (skip_semicolon (drop (dir_length (c ∷ dir)) (c ∷ dir)))
unfolding dir_length skip_semicolon
components-dir_length c [] = ground arith
components-dir_length c (d ∷ dir) = elim (Bool-cases (c == b';')) [
  | inl semicolon ↦ rw semicolon (rw semicolon refl)
  | inr other ↦ rw other (ap (push c) (components-dir_length d dir))
]

length-skip_semicolon : (dir : Bytes) → length (skip_semicolon dir) ≤ length dir
unfolding skip_semicolon
length-skip_semicolon [] = omega arith
length-skip_semicolon (c ∷ dir) = ground arith

-- A component, with its separator, has one byte at least.
pub length-rest :
    (c : ℕ) (dir : Bytes)
    → length (skip_semicolon (drop (dir_length (c ∷ dir)) (c ∷ dir))) ≤ length dir
unfolding dir_length skip_semicolon
length-rest c dir = elim (Bool-cases (c == b';')) [
  | inl semicolon ↦ rw semicolon (rw semicolon (omega arith))
  | inr other ↦ rw other (
      omega (
        arith,
        length-skip_semicolon (drop (dir_length dir) dir),
        length-drop (dir_length dir) dir,
      ))
]

pub length-take_dir : (dir : Bytes) → length (take (dir_length dir) dir) ≡ dir_length dir
unfolding dir_length
length-take_dir [] = refl
length-take_dir (c ∷ dir) = ground (arith, length-take_dir dir)
