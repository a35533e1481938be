-- ===== src/Process/Children/Wait.antt =====
-- A child is waited for once, with the handle that it was started with.
use mmlib.Base.{
  ℕ, suc, ◌+◌, ◌≤◌, ◌≡◌, refl, ◌∙◌, ap, true, false, none, some, List, [], ◌∷◌, ◌++◌, append_assoc,
  take-length-append, drop-suc-length, All-append, arith, ◌==◌, length, length-append, drop, All,
}
use mmlib.Process.Children.{
  Child, ChildrenList, add_to_children_list, find_child, handle_at, get_handle_from_children_list,
  drop_child_from_children_list, mm_wait_process, ended, no_child, translate_exitcode_in_status,
}

-- No entry is for the process.
abbrev pub IsAbsent : ℕ → List Child → Type 0
IsAbsent pid children = All (λ child. (child.pid == pid) ≡ false) children

find_child-absent :
    (pid : ℕ) (children : List Child) → IsAbsent pid children → find_child pid children ≡ none
unfolding find_child
find_child-absent pid [] _ = refl
find_child-absent pid (child ∷ children) (h, hs) = rw (find_child-absent pid children hs, h) refl

find_child-at :
    (pid hnd : ℕ) (before behind : List Child)
    → IsAbsent pid before
    → find_child pid (before ++ (record { pid = pid; hnd = hnd } ∷ behind)) ≡ some (length before)
unfolding find_child
find_child-at pid hnd [] behind _ = let same : (pid == pid) ≡ true = ground arith in rw same refl
find_child-at pid hnd (child ∷ before) behind (h, hs) =
    rw (h, find_child-at pid hnd before behind hs) refl

handle_at-length :
    (pid hnd : ℕ) (before behind : List Child)
    → handle_at (before ++ (record { pid = pid; hnd = hnd } ∷ behind)) (length before) ≡ some hnd
handle_at-length pid hnd [] behind = refl
handle_at-length pid hnd (child ∷ before) behind = handle_at-length pid hnd before behind

drop-behind :
    (child : Child) (before behind : List Child)
    → drop (length before + 1) (before ++ (child ∷ behind)) ≡ behind
drop-behind child before behind =
    let same : length before + 1 ≡ suc (length before) = omega arith in
    rw same (drop-suc-length before child behind)

module _ (exitcode : ℕ → ℕ) (num_max pid hnd : ℕ) (before behind : List Child) where
  abbrev pub started : ChildrenList
  started = record {
    num_max = num_max;
    entries = before ++ (record { pid = pid; hnd = hnd } ∷ behind);
  }

  abbrev pub ended_list : ChildrenList
  ended_list = record { num_max = num_max; entries = before ++ behind }

  get_handle-started : IsAbsent pid before → get_handle_from_children_list started pid ≡ some hnd
  unfolding get_handle_from_children_list
  get_handle-started h =
      rw (get_handle_from_children_list, find_child-at pid hnd before behind h)
        (handle_at-length pid hnd before behind)

  drop_child-started :
      IsAbsent pid before → drop_child_from_children_list started pid ≡ some ended_list
  unfolding drop_child_from_children_list
  drop_child-started h =
      rw
        (
          drop_child_from_children_list,
          find_child-at pid hnd before behind h,
          take-length-append before (record { pid = pid; hnd = hnd } ∷ behind),
          drop-behind (record { pid = pid; hnd = hnd }) before behind,
        )
        refl

  mm_wait_process-started :
      IsAbsent pid before
      → mm_wait_process exitcode started pid
        ≡ (ended_list, ended (translate_exitcode_in_status (exitcode hnd)))
  unfolding mm_wait_process
  mm_wait_process-started h = rw (mm_wait_process, get_handle-started h, drop_child-started h) refl

mm_wait_process-absent :
    (exitcode : ℕ → ℕ) (list : ChildrenList) (pid : ℕ)
    → IsAbsent pid list.entries
    → mm_wait_process exitcode list pid ≡ (list, no_child)
unfolding mm_wait_process get_handle_from_children_list
mm_wait_process-absent exitcode list pid h =
    rw (mm_wait_process, get_handle_from_children_list, find_child-absent pid list.entries h) refl

add_to_children_list-adds :
    (list : ChildrenList) (pid hnd : ℕ)
    → length list.entries ≤ list.num_max
    → let (added, done) = add_to_children_list true list pid hnd in
      (done ≡ true)
      × (length added.entries ≤ added.num_max)
      × (added.entries ≡ list.entries ++ (record { pid = pid; hnd = hnd } ∷ []))
unfolding add_to_children_list
add_to_children_list-adds list pid hnd fits =
    let longer = length-append list.entries (record { pid = pid; hnd = hnd } ∷ []) in
    (ground arith, ground (arith, longer), ground arith)

-- A child that is added to a list within its memory, while no other one has its number, is the last of
-- it, and the list stays within its memory; waiting for it, also once others were added behind it, gives its own status
-- and removes it and no other, and waiting for it again finds no such child.
pub mm_wait_process-once :
    (exitcode : ℕ → ℕ) (list : ChildrenList) (pid hnd num_max : ℕ) (behind : List Child)
    → length list.entries ≤ list.num_max
    → IsAbsent pid list.entries
    → IsAbsent pid behind
    → let (added, done) = add_to_children_list true list pid hnd in
      let (left, result) =
        mm_wait_process exitcode
          record { num_max = num_max; entries = added.entries ++ behind }
          pid in
      (done ≡ true)
      × (length added.entries ≤ added.num_max)
      × (result ≡ ended (translate_exitcode_in_status (exitcode hnd)))
      × (left.entries ≡ list.entries ++ behind)
      × ((mm_wait_process exitcode left pid).1 ≡ no_child)
mm_wait_process-once exitcode list pid hnd num_max behind fits here later =
    let added = (add_to_children_list true list pid hnd).0 in
    let (done, size, last) = add_to_children_list-adds list pid hnd fits in
    let waited = mm_wait_process-started exitcode num_max pid hnd list.entries behind here in
    let same : added.entries ++ behind
        ≡ list.entries ++ (record { pid = pid; hnd = hnd } ∷ behind) =
      ap (λ entries. entries ++ behind) last
      ∙ append_assoc list.entries (record { pid = pid; hnd = hnd } ∷ []) behind in
    let run =
      ap (λ entries. mm_wait_process exitcode record { num_max = num_max; entries = entries } pid)
        same
      ∙ waited in
    let gone =
      mm_wait_process-absent exitcode (ended_list exitcode num_max pid hnd list.entries behind) pid
        (All-append _ list.entries behind here later) in
    (
      done,
      size,
      ap (λ r. r.1) run,
      ap (λ r. r.0.entries) run,
      ap (λ r. (mm_wait_process exitcode r.0 pid).1) run ∙ ap (λ r. r.1) gone,
    )
