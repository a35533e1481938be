-- ===== src/Base/CString.antt =====
-- C strings: the bytes before the terminator. A pointer into a string is the suffix that it points
-- at, so `*str` is `first str` and `str[i]` is `char_at str i`; both give 0 at the terminator.
use Prim.Native.Char.{code}
use Prim.Native.String.{String}
use mmlib.Base.{
  ℕ, ◌<◌, ◌≡◌, refl, ap, ◌∙◌, Bool, true, false, ◌==◌, if◌then◌else◌, List, [], ◌∷◌, arith, All,
  get_or,
}

abbrev pub Bytes : Type 0
Bytes = List ℕ

-- The code points of a literal; these are its bytes when the text is ASCII.
abbrev pub codes : String → Bytes
codes String.[] = []
codes (String.◌∷◌ c s) = code c ∷ codes s

abbrev pub nul : ℕ
nul = 0

abbrev pub first : Bytes → ℕ
first [] = nul
first (c ∷ s) = c

abbrev pub char_at : Bytes → ℕ → ℕ
char_at s i = get_or s i nul

-- No byte of a C string is the terminator.
abbrev pub IsCString : Bytes → Type 0
IsCString = All (λ c. (0 < c) × (c < 256))

-- Two strings, or two blocks of memory of one size, are the same.
abbrev pub bytes_eq : Bytes → Bytes → Bool
bytes_eq [] [] = true
bytes_eq [] (d ∷ t) = false
bytes_eq (c ∷ s) [] = false
bytes_eq (c ∷ s) (d ∷ t) = let rest = bytes_eq s t in if c == d then rest else false

pub bytes_eq→≡ : (s t : Bytes) → bytes_eq s t ≡ true → s ≡ t
bytes_eq→≡ [] [] h = refl
bytes_eq→≡ [] (d ∷ t) h = ground (arith, h)
bytes_eq→≡ (c ∷ s) [] h = ground (arith, h)
bytes_eq→≡ (c ∷ s) (d ∷ t) h =
    let same : c ≡ d = ground (arith, h) in
    let rest : bytes_eq s t ≡ true = ground (arith, h) in
    ap (λ k. k ∷ s) same ∙ ap (λ k. d ∷ k) (bytes_eq→≡ s t rest)

pub bytes_eq_refl : (s : Bytes) → bytes_eq s s ≡ true
bytes_eq_refl [] = refl
bytes_eq_refl (c ∷ s) = ground (arith, bytes_eq_refl s)
