-- ===== src/Process/Children.antt =====
-- src/process-win32.c, the list of the children started, and how a child ends. The handles and the
-- exit codes come from the system. Each function of the list runs under its lock.
pub mod Wait
use mmlib.Base.{
  ℕ, zero, suc, ◌+◌, ◌-◌, ◌*◌, ◌<◌, ◌%◌, Bool, true, false, ◌||◌, Option, none, some, List, [], ◌∷◌,
  ◌++◌, ◌==◌, ltb, length, take, drop, if◌then◌else◌,
}

-- `struct child_entry`
pub record Child : Type 0 where
  pub pid : ℕ
  pub hnd : ℕ

-- `struct children_list`: the first `num_child` entries, and the number that the memory can hold.
pub record ChildrenList : Type 0 where
  pub num_max : ℕ
  pub entries : List Child

abbrev add_child : ChildrenList → (num_max pid hnd : ℕ) → ChildrenList
add_child list num_max pid hnd = record {
  num_max = num_max;
  entries = list.entries ++ (record { pid = pid; hnd = hnd } ∷ []);
}

-- Whether the child was added. `allocated` says whether realloc succeeds.
unfoldable pub add_to_children_list :
    (allocated : Bool) → ChildrenList → (pid hnd : ℕ) → ChildrenList × Bool
add_to_children_list allocated list pid hnd =
    let nmax = if list.num_max == 0 then 16 else list.num_max * 2 in
    if ltb (length list.entries) list.num_max
    then (add_child list list.num_max pid hnd, true)
    else if allocated
    then (add_child list nmax pid hnd, true)
    else (list, false)

abbrev one_further : Option ℕ → Option ℕ
one_further none = none
one_further (some i) = some (suc i)

-- The loop of get_handle_from_children_list and of drop_child_from_children_list: the index of the first
-- entry of the process.
unfoldable pub find_child : ℕ → List Child → Option ℕ
find_child pid [] = none
find_child pid (child ∷ children) =
    let rest = find_child pid children in if child.pid == pid then some 0 else one_further rest

abbrev pub handle_at : List Child → ℕ → Option ℕ
handle_at [] i = none
handle_at (child ∷ children) zero = some child.hnd
handle_at (child ∷ children) (suc i) = handle_at children i

unfoldable pub get_handle_from_children_list : ChildrenList → (pid : ℕ) → Option ℕ
get_handle_from_children_list list pid = elim (find_child pid list.entries) [
  | none ↦ none
  | some i ↦ handle_at list.entries i
]

-- `none` where mm_check fails, which ends the process.
unfoldable pub drop_child_from_children_list : ChildrenList → (pid : ℕ) → Option ChildrenList
drop_child_from_children_list list pid = elim (find_child pid list.entries) [
  | none ↦ none
  | some i ↦
      some record {
        num_max = list.num_max;
        entries = take i list.entries ++ drop (i + 1) list.entries;
      }
]

-- The codes of winnt.h and signal.h.
abbrev pub is_segv : ℕ → Bool
is_segv code =
    code == 0xC0000005
    || (code == 0xC000008C || (code == 0x80000001 || (code == 0xC00000FD || code == 0x80000002)))

abbrev pub is_fpe : ℕ → Bool
is_fpe code =
    code == 0xC000008D
    || (code == 0xC000008E
        || (code == 0xC000008F
            || (code == 0xC0000090
                || (code == 0xC0000091
                    || (code == 0xC0000092
                        || (code == 0xC0000093 || (code == 0xC0000094 || code == 0xC0000095)))))))

abbrev pub signal_of : ℕ → ℕ
signal_of exitcode =
    if is_segv exitcode
    then 11
    else if is_fpe exitcode
    then 8
    else if exitcode == 0xC000001D
    then 4
    else if exitcode == 0xC000013A
    then 2
    else 22

abbrev pub wstatus_exited : ℕ
wstatus_exited = 0x100

abbrev pub wstatus_signaled : ℕ
wstatus_signaled = 0x200

-- The flags do not overlap with the values, so `|` adds them.
unfoldable pub translate_exitcode_in_status : ℕ → ℕ
translate_exitcode_in_status exitcode =
    if ltb exitcode 0xC0000000
    then exitcode % 0x100 + wstatus_exited
    else signal_of exitcode + wstatus_signaled

-- The outcome of mm_wait_process: no such child, the end of the process by mm_check, or a status.
pub data Waited : Type 0 where
  no_child aborted : Waited
  ended : (status : ℕ) → Waited

-- `exitcode` is what the system gives for a handle. The list afterwards; the handle is closed.
abbrev wait_child :
    (exitcode : ℕ → ℕ) → ChildrenList → (hnd : ℕ) → Option ChildrenList → ChildrenList × Waited
wait_child exitcode list hnd none = (list, aborted)
wait_child exitcode list hnd (some dropped) =
    (dropped, ended (translate_exitcode_in_status (exitcode hnd)))

unfoldable pub mm_wait_process :
    (exitcode : ℕ → ℕ) → ChildrenList → (pid : ℕ) → ChildrenList × Waited
mm_wait_process exitcode list pid = elim (get_handle_from_children_list list pid) [
  | none ↦ (list, no_child)
  | some hnd ↦ wait_child exitcode list hnd (drop_child_from_children_list list pid)
]
