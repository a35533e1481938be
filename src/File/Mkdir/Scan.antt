-- ===== src/File/Mkdir/Scan.antt =====
-- src/file.c: the loops of internal_dirname over the separators and the names of a path.
use mmlib.Base.{
  ℕ, zero, suc, ◌+◌, ◌<◌, ◌≡◌, refl, ap, ◌∙◌, true, false, none, some, arith, replicate,
}
use mmlib.Base.CString.{Bytes, char_at}
use mmlib.Path.{posix, is_path_separator}
use mmlib.File.Mkdir.{skip_back, cut_at}

abbrev pub slashes : ℕ → Bytes
slashes n = replicate n b'/'

pub slash : is_path_separator posix b'/' ≡ true
unfolding is_path_separator
slash = refl

pub char_at-slashes : (n i : ℕ) → i < n → char_at (slashes n) i ≡ b'/'
char_at-slashes zero i h = absurd (omega arith)
char_at-slashes (suc n) zero h = refl
char_at-slashes (suc n) (suc i) h = char_at-slashes n i (omega arith)

-- The loops, over `d` bytes.
skip_back-here :
    (path : Bytes) (j : ℕ) → is_path_separator posix (char_at path j) ≡ false → skip_back path j ≡ j
unfolding skip_back
skip_back-here path zero k = refl
skip_back-here path (suc j) k = rw (k, skip_back) refl

pub skip_back-over :
    (path : Bytes) (d j last : ℕ)
    → last ≡ j + d
    → ((i : ℕ) → j < i → i < suc last → is_path_separator posix (char_at path i) ≡ true)
    → is_path_separator posix (char_at path j) ≡ false
    → skip_back path last ≡ j
unfolding skip_back
skip_back-over path zero j last e h k =
    let same : last ≡ j = omega (arith, e) in ap (skip_back path) same ∙ skip_back-here path j k
skip_back-over path (suc d) j zero e h k = absurd (omega (arith, e))
skip_back-over path (suc d) j (suc last) e h k =
    rw (h (suc last) (omega (arith, e)) (omega arith), skip_back)
      (skip_back-over path d j last (omega (arith, e)) (λ i lt within. h i lt (omega arith)) k)

cut_at-name :
    (path : Bytes) (m : ℕ)
    → 0 < m
    → is_path_separator posix (char_at path m) ≡ false
    → cut_at path (suc m) ≡ cut_at path m
unfolding cut_at
cut_at-name path zero h k = absurd (omega arith)
cut_at-name path (suc m) h k = rw (k, cut_at) refl

cut_at-separator :
    (path : Bytes) (m : ℕ)
    → 0 < m
    → is_path_separator posix (char_at path m) ≡ true
    → cut_at path (suc m) ≡ some (suc (skip_back path m))
unfolding cut_at
cut_at-separator path zero h k = absurd (omega arith)
cut_at-separator path (suc m) h k = rw (k, cut_at) refl

pub cut_at-over :
    (path : Bytes) (d m last : ℕ)
    → last ≡ suc (m + d)
    → 0 < m
    → ((i : ℕ) → m < i → i < last → is_path_separator posix (char_at path i) ≡ false)
    → is_path_separator posix (char_at path m) ≡ true
    → cut_at path last ≡ some (suc (skip_back path m))
cut_at-over path zero m last e pos h k =
    let same : last ≡ suc m = omega (arith, e) in
    ap (cut_at path) same ∙ cut_at-separator path m pos k
cut_at-over path (suc d) m zero e pos h k = absurd (omega (arith, e))
cut_at-over path (suc d) m (suc last) e pos h k =
    cut_at-name path last (omega (arith, e)) (h last (omega (arith, e)) (omega arith))
    ∙ cut_at-over path d m last (omega (arith, e)) pos (λ i lt within. h i lt (omega arith)) k

pub cut_at-none :
    (path : Bytes) (last : ℕ)
    → ((i : ℕ) → 0 < i → i < last → is_path_separator posix (char_at path i) ≡ false)
    → cut_at path last ≡ none
unfolding cut_at
cut_at-none path zero h = refl
cut_at-none path (suc zero) h = refl
cut_at-none path (suc (suc last)) h =
    cut_at-name path (suc last) (omega arith) (h (suc last) (omega arith) (omega arith))
    ∙ cut_at-none path (suc last) (λ i pos lt. h i pos (omega arith))
