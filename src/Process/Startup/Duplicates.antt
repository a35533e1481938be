-- ===== src/Process/Startup/Duplicates.antt =====
-- The handles that a new process gets are duplicates, where the system can duplicate each handle.
use mmlib.Base.{
  ℕ, zero, suc, ◌%◌, ◌/◌, ◌<◌, ◌≡◌, refl, sym, subst, ap, ◌⊎◌, inl, inr, Bool, true, false,
  Bool-cases, Option, some, List, [], ◌∷◌, arith, get_or, length, if◌then◌else◌, ◌==◌,
}
use mmlib.Process.Startup.{
  CrtFd, is_inherited, startup_config_dup_inherited_hnds, convert_fdinfo_to_crtflags,
}

abbrev pub empty : CrtFd
empty = record { flags = 0; hnd = 0; info = 0 }

-- One of the handles.
abbrev pub Among : ℕ → List ℕ → Type 0
Among hnd [] = ⊥
Among hnd (h ∷ hnds) = (hnd ≡ h) ⊎ Among hnd hnds

-- The handle stands for a file that is open, in append mode and in text mode as the parent has it, and is a pipe
-- or a console if it is one in the parent.
abbrev pub SameMode : (flags fdinfo : ℕ) → Type 0
SameMode flags fdinfo =
    (flags % 2 ≡ 1)
    × (flags / 32 % 2 ≡ fdinfo / 8 % 2)
    × (flags / 128 % 2 ≡ fdinfo / 32 % 2)
    × (flags / 8 % 2 ≡ (if fdinfo % 8 == 2 then 1 else 0))
    × (flags / 64 % 2 ≡ (if fdinfo % 8 == 3 then 1 else 0))

pub convert_fdinfo_to_crtflags-SameMode :
    (fdinfo : ℕ) → SameMode (convert_fdinfo_to_crtflags fdinfo) fdinfo
unfolding convert_fdinfo_to_crtflags
convert_fdinfo_to_crtflags-SameMode fdinfo =
    (ground arith, ground arith, ground arith, ground arith, ground arith)

-- What becomes of a cell: that of a handle that is inherited gets the duplicate.
abbrev pub Copied :
    (copy : ℕ → ℕ) → (inherited : Bool) → (cell after : CrtFd) → (hnds : List ℕ) → Type 0
Copied copy true cell after hnds =
    (after ≡ record { flags = cell.flags; hnd = copy cell.hnd; info = cell.info })
    × Among (copy cell.hnd) hnds
Copied copy false cell after hnds = after ≡ cell

module _ (dup : ℕ → Option ℕ) (copy : ℕ → ℕ) (copies : (hnd : ℕ) → dup hnd ≡ some (copy hnd)) where
  Copied-later :
      (inherited : Bool) (cell after : CrtFd) (hnd : ℕ) (hnds : List ℕ)
      → Copied copy inherited cell after hnds
      → Copied copy inherited cell after (hnd ∷ hnds)
  Copied-later true cell after hnd hnds (e, a) = (e, inr a)
  Copied-later false cell after hnd hnds e = e

  -- The first `n` cells.
  abbrev pub AreCopied : ℕ → (cells after : List CrtFd) → (hnds : List ℕ) → Type 0
  AreCopied n cells after hnds =
      (k : ℕ)
      → k < n
      → k < length cells
      → Copied copy (is_inherited (get_or cells k empty)) (get_or cells k empty)
          (get_or after k empty) hnds

  AreCopied-cons :
      (n : ℕ) (cell first : CrtFd) (cells after : List CrtFd) (hnds : List ℕ)
      → Copied copy (is_inherited cell) cell first hnds
      → AreCopied n cells after hnds
      → AreCopied (suc n) (cell ∷ cells) (first ∷ after) hnds
  AreCopied-cons n cell first cells after hnds h hs zero lt within = h
  AreCopied-cons n cell first cells after hnds h hs (suc k) lt within =
      hs k (omega arith) (omega arith)

  pub record Duplicated (n : ℕ) (cells : List CrtFd) : Type 0 where
    pub after : List CrtFd
    pub hnds : List ℕ
    pub same : startup_config_dup_inherited_hnds dup n cells ≡ some (after, hnds)
    pub size : length after ≡ length cells
    pub copied : AreCopied n cells after hnds

  pub dup_inherited-Duplicated : (n : ℕ) (cells : List CrtFd) → Duplicated n cells
  unfolding startup_config_dup_inherited_hnds
  dup_inherited-Duplicated zero cells = record {
    after = cells;
    hnds = [];
    same = refl;
    size = refl;
    copied = λ k lt. absurd (omega arith);
  }
  dup_inherited-Duplicated (suc n) [] = record {
    after = [];
    hnds = [];
    same = refl;
    size = refl;
    copied = λ k lt within. absurd (omega arith);
  }
  dup_inherited-Duplicated (suc n) (c ∷ cells) =
      let rest = dup_inherited-Duplicated n cells in
      let first : CrtFd = record { flags = c.flags; hnd = copy c.hnd; info = c.info } in
      elim (Bool-cases (is_inherited c)) [
        | inl e ↦ record {
          after = first ∷ rest.after;
          hnds = copy c.hnd ∷ rest.hnds;
          same = rw e (rw (copies c.hnd, rest.same) refl);
          size = ap suc rest.size;
          copied =
              AreCopied-cons n c first cells rest.after (copy c.hnd ∷ rest.hnds)
                (subst (λ b. Copied copy b c first (copy c.hnd ∷ rest.hnds)) (sym e)
                  (refl, inl refl))
                (λ k lt within. Copied-later _ _ _ _ _ (rest.copied k lt within));
        }
        | inr e ↦ record {
          after = c ∷ rest.after;
          hnds = rest.hnds;
          same = rw e (rw rest.same refl);
          size = ap suc rest.size;
          copied =
              AreCopied-cons n c c cells rest.after rest.hnds
                (subst (λ b. Copied copy b c c rest.hnds) (sym e) refl) rest.copied;
        }
      ]
