-- ===== src/Process/Startup/Mapping.antt =====
-- Where the descriptors of a new process come from.
use mmlib.Base.{
  length-set, get_or-set_same, get_or-set_other, ℕ, zero, suc, ◌+◌, ◌%◌, ◌<◌, ◌≡◌, ◌≢◌, refl, sym,
  ◌∙◌, ap, subst, ◌⊎◌, inl, inr, true, false, Option, none, some, List, [], ◌∷◌, ◌++◌, arith, ◌==◌,
  set, get_or, length, length-replicate, All,
}
use mmlib.Base.Int.{ℤ, pos, negsuc}
use mmlib.Process.Startup.Bounds.{num_crt_fd-le, num_crt_fd-aligned, num_fd-bounds}
use mmlib.Process.Startup.Duplicates.{
  empty, Among, SameMode, convert_fdinfo_to_crtflags-SameMode, Copied, dup_inherited-Duplicated,
}
use mmlib.Process.Startup.{
  duplicated, is_inherited, RemapFd, CrtFd, Fds, invalid_handle, convert_fdinfo_to_crtflags, num_fd,
  num_crt_fd, startup_config_alloc_crt_buffs, info_at, setup_child, setup_mapping,
  startup_config_setup_mappings, std_fd_mappings, startup_config_init,
}

-- The cell of a descriptor before the handles are duplicated.
abbrev child_cell : Fds → (parent : ℤ) → (old_info : ℕ) → CrtFd
child_cell fds (negsuc zero) old_info = record { flags = 0; hnd = invalid_handle; info = old_info }
child_cell fds parent old_info = record {
  flags = convert_fdinfo_to_crtflags (fds.fd_info parent);
  hnd = fds.osfhandle parent;
  info = fds.fd_info parent;
}

-- What a descriptor of the child gets: nothing open for -1, and else the duplicate of the parent's handle, which is
-- inherited, in the mode that it has in the parent.
abbrev pub GetsFd : Fds → (copy : ℕ → ℕ) → (parent : ℤ) → (cell : CrtFd) → (hnds : List ℕ) → Type 0
GetsFd fds copy (negsuc zero) cell hnds = (cell.flags ≡ 0) × (cell.hnd ≡ invalid_handle)
GetsFd fds copy parent cell hnds =
    (cell.hnd ≡ copy (fds.osfhandle parent))
    × Among (copy (fds.osfhandle parent)) hnds
    × SameMode cell.flags (fds.fd_info parent)
    × (cell.info ≡ fds.fd_info parent)

-- A mapping of a descriptor that is not negative from one with a handle, or from none.
pub record IsMappable (fds : Fds) (map : RemapFd) : Type 0 where
  pub child : ℕ
  pub child_fd : map.child_fd ≡ pos child
  pub valid : (map.parent_fd ≡ negsuc 0) ⊎ ((fds.osfhandle map.parent_fd == invalid_handle) ≡ false)

module _ (fds : Fds) where
  -- The cells after a mapping.
  abbrev cells_written : List CrtFd → (child : ℕ) → (parent : ℤ) → List CrtFd
  cells_written cells child parent = set cells child (child_cell fds parent (info_at cells child))

  setup_child-cells_written :
      (cells : List CrtFd) (child : ℕ) (parent : ℤ)
      → (parent ≡ negsuc 0) ⊎ ((fds.osfhandle parent == invalid_handle) ≡ false)
      → setup_child fds cells child parent ≡ some (cells_written cells child parent)
  setup_child-cells_written cells child (negsuc zero) _ = refl
  setup_child-cells_written cells child (negsuc (suc n)) (inl e) = absurd (ground (arith, e))
  setup_child-cells_written cells child (negsuc (suc n)) (inr e) = rw e refl
  setup_child-cells_written cells child (pos n) (inl e) = absurd (ground (arith, e))
  setup_child-cells_written cells child (pos n) (inr e) = rw e refl

  setup_mapping-cells_written :
      (cells : List CrtFd) (map : RemapFd) (m : IsMappable fds map)
      → setup_mapping fds cells map.child_fd map.parent_fd
        ≡ some (cells_written cells m.child map.parent_fd)
  setup_mapping-cells_written cells map m =
      ap (λ fd. setup_mapping fds cells fd map.parent_fd) m.child_fd
      ∙ setup_child-cells_written cells m.child map.parent_fd m.valid

  -- The end of startup_config_init.
  is_inherited-open :
      (hnd info fdinfo : ℕ)
      → (hnd == invalid_handle) ≡ false
      → is_inherited record { flags = convert_fdinfo_to_crtflags fdinfo; hnd = hnd; info = info }
        ≡ true
  is_inherited-open hnd info fdinfo e =
      let is_open = (convert_fdinfo_to_crtflags-SameMode fdinfo).0 in ground (arith, e, is_open)

  module _ (copy : ℕ → ℕ) (after : CrtFd) (hnds : List ℕ) where
    Copied-open :
        (parent : ℤ)
        → (fds.osfhandle parent == invalid_handle) ≡ false
        → (let cell : CrtFd = record {
          flags = convert_fdinfo_to_crtflags (fds.fd_info parent);
          hnd = fds.osfhandle parent;
          info = fds.fd_info parent;
        } in
            Copied copy (is_inherited cell) cell after hnds)
        → (after.hnd ≡ copy (fds.osfhandle parent))
          × Among (copy (fds.osfhandle parent)) hnds
          × SameMode after.flags (fds.fd_info parent)
          × (after.info ≡ fds.fd_info parent)
    Copied-open parent e h =
        let cell : CrtFd = record {
          flags = convert_fdinfo_to_crtflags (fds.fd_info parent);
          hnd = fds.osfhandle parent;
          info = fds.fd_info parent;
        } in
        let (same, among) =
          subst (λ b. Copied copy b cell after hnds)
            (is_inherited-open (fds.osfhandle parent) (fds.fd_info parent) (fds.fd_info parent) e)
            h in
        (
          ap (λ c. c.hnd) same,
          among,
          subst (λ c. SameMode c.flags (fds.fd_info parent)) (sym same)
              (convert_fdinfo_to_crtflags-SameMode (fds.fd_info parent)),
          ap (λ c. c.info) same,
        )

    Copied-GetsFd :
        (parent : ℤ) (old : ℕ)
        → (parent ≡ negsuc 0) ⊎ ((fds.osfhandle parent == invalid_handle) ≡ false)
        → Copied copy
            (is_inherited (child_cell fds parent old))
            (child_cell fds parent old)
            after
            hnds
        → GetsFd fds copy parent after hnds
    Copied-GetsFd (negsuc zero) old v h = (ap (λ c. c.flags) h, ap (λ c. c.hnd) h)
    Copied-GetsFd (negsuc (suc n)) old (inl e) h = absurd (ground (arith, e))
    Copied-GetsFd (negsuc (suc n)) old (inr e) h = Copied-open (negsuc (suc n)) e h
    Copied-GetsFd (pos n) old (inl e) h = absurd (ground (arith, e))
    Copied-GetsFd (pos n) old (inr e) h = Copied-open (pos n) e h

  setup_mappings-append :
      (o : Option (List CrtFd)) (a b : List RemapFd)
      → startup_config_setup_mappings fds o (a ++ b)
        ≡ startup_config_setup_mappings fds (startup_config_setup_mappings fds o a) b
  unfolding startup_config_setup_mappings
  setup_mappings-append none a b = refl
  setup_mappings-append (some cells) [] b = refl
  setup_mappings-append (some cells) (map ∷ a) b =
      setup_mappings-append (setup_mapping fds cells map.child_fd map.parent_fd) a b

  -- Mappings that succeed: the length stays, and so does the cell `k`, if none is for it.
  record Continues (cells : List CrtFd) (fd_map : List RemapFd) : Type 0 where
    cells_after : List CrtFd
    same : startup_config_setup_mappings fds (some cells) fd_map ≡ some cells_after
    size : length cells_after ≡ length cells
    kept :
        (k : ℕ)
        → All (λ map. map.child_fd ≢ pos k) fd_map
        → get_or cells_after k empty ≡ get_or cells k empty

  setup_mappings-Continues :
      (cells : List CrtFd) (fd_map : List RemapFd)
      → All (IsMappable fds) fd_map
      → Continues cells fd_map
  unfolding startup_config_setup_mappings
  setup_mappings-Continues cells [] _ = record {
    cells_after = cells;
    same = refl;
    size = refl;
    kept = λ k h. refl;
  }
  setup_mappings-Continues cells (map ∷ fd_map) (m, ms) =
      let cell = child_cell fds map.parent_fd (info_at cells m.child) in
      let rest = setup_mappings-Continues (set cells m.child cell) fd_map ms in
      record {
        cells_after = rest.cells_after;
        same =
            ap (λ o. startup_config_setup_mappings fds o fd_map)
              (setup_mapping-cells_written cells map m)
            ∙ rest.same;
        size = rest.size ∙ length-set cells m.child cell;
        kept = λ k h.
            rest.kept k h.1
            ∙ get_or-set_other cells m.child k cell empty (λ e. h.0 (m.child_fd ∙ ap pos e));
      }

-- Where the system can duplicate each handle, and the standard descriptors and those mapped have handles, a
-- new process gets a buffer that holds each descriptor mapped, its handles aligned; and of the last mapping
-- of a descriptor it gets a duplicate of the handle of the descriptor in the parent, which is among the
-- handles inherited, with its append and text mode and its kind, or nothing that is open, if that is -1.
pub startup_config_init-maps :
    (fds : Fds) (dup : ℕ → Option ℕ) (copy : ℕ → ℕ) (before behind : List RemapFd) (map : RemapFd)
    → ((hnd : ℕ) → dup hnd ≡ some (copy hnd))
    → All (IsMappable fds) std_fd_mappings
    → All (IsMappable fds) before
    → (m : IsMappable fds map) → All (IsMappable fds) behind
    → All (λ other. other.child_fd ≢ pos m.child) behind
    → (cells : List CrtFd) × (hnds : List ℕ) × (startup_config_init fds dup
          (before ++ (map ∷ behind))
        ≡ some (cells, hnds))
      × (m.child < length cells)
      × ((4 + length cells) % 8 ≡ 0)
      × GetsFd fds copy map.parent_fd (get_or cells m.child empty) hnds
unfolding startup_config_init startup_config_setup_mappings startup_config_alloc_crt_buffs
startup_config_init-maps fds dup copy before behind map copies std former m later others =
    let n = num_fd (before ++ (map ∷ behind)) in
    let cleared = startup_config_alloc_crt_buffs n in
    let first = setup_mappings-Continues fds cleared std_fd_mappings std in
    let second = setup_mappings-Continues fds first.cells_after before former in
    let old = info_at second.cells_after m.child in
    let cell = child_cell fds map.parent_fd old in
    let third = setup_mappings-Continues fds (set second.cells_after m.child cell) behind later in
    let last = dup_inherited-Duplicated dup copy copies n third.cells_after in
    let size : length second.cells_after ≡ num_crt_fd n =
      second.size ∙ first.size ∙ length-replicate (num_crt_fd n) empty in
    let mapped : m.child < n = num_fd-bounds before behind map m.child m.child_fd in
    let within : m.child < length second.cells_after =
      omega (arith, size, num_crt_fd-le n, mapped) in
    let final : length third.cells_after ≡ num_crt_fd n =
      third.size ∙ length-set second.cells_after m.child cell ∙ size in
    let found : get_or third.cells_after m.child empty ≡ cell =
      third.kept m.child others ∙ get_or-set_same second.cells_after m.child cell empty within in
    let after = get_or last.after m.child empty in
    (
      last.after,
      last.hnds,
      ap (duplicated dup n) (
            ap (λ o. startup_config_setup_mappings fds o (before ++ (map ∷ behind))) first.same
            ∙ setup_mappings-append fds (some first.cells_after) before (map ∷ behind)
            ∙ ap (λ o. startup_config_setup_mappings fds o (map ∷ behind)) second.same
            ∙ ap (λ o. startup_config_setup_mappings fds o behind)
                (setup_mapping-cells_written fds second.cells_after map m)
            ∙ third.same)
          ∙ last.same,
      omega (arith, last.size, final, size, within),
      omega (arith, last.size, final, num_crt_fd-aligned n),
      Copied-GetsFd fds copy after last.hnds map.parent_fd old m.valid (
          subst (λ c. Copied copy (is_inherited c) c after last.hnds) found
            (last.copied m.child mapped (omega (arith, final, size, within)))),
    )
