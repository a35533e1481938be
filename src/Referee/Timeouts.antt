-- ===== src/Referee/Timeouts.antt =====
-- src/lock-referee-server.c, the lists of the threads whose wait has a timeout: nodes linked in memory,
-- from a head that is a node itself.
pub mod Detach
pub mod Link
pub mod Insert
use mmlib.Base.{
  ℕ, zero, suc, ◌+◌, Bool, true, false, Option, none, some, List, [], ◌∷◌, ◌==◌, if◌then◌else◌,
}
use mmlib.Base.Int.{ℤ, pos, ltb_ℤ}
use mmlib.Time.{Timespec, mm_timediff_ns}

-- `struct list_node`: a pointer is the number of a node, or NULL.
pub record Node : Type 0 where
  pub prev : Option ℕ
  pub next : Option ℕ

-- The nodes in memory.
abbrev pub Heap : Type 0
Heap = ℕ → Node

unfoldable pub set_prev : Heap → ℕ → Option ℕ → Heap
set_prev heap node value m =
    if m == node then record { prev = value; next = (heap m).next } else heap m

unfoldable pub set_next : Heap → ℕ → Option ℕ → Heap
set_next heap node value m =
    if m == node then record { prev = (heap m).prev; next = value } else heap m

-- The first `if` of detach_list_node.
pub detach_next : Heap → ℕ → Heap
detach_next heap node = elim (heap node).next [
  | none ↦ heap
  | some next ↦ set_next (set_prev heap next (heap node).prev) node none
]

-- The second one.
pub detach_prev : Heap → ℕ → Heap
detach_prev heap node = elim (heap node).prev [
  | none ↦ heap
  | some prev ↦ set_prev (set_next heap prev (heap node).next) node none
]

pub detach_list_node : Heap → ℕ → Heap
detach_list_node heap node = detach_prev (detach_next heap node) node

abbrev pub link_back : Heap → Option ℕ → ℕ → Heap
link_back heap none node = heap
link_back heap (some next) node = set_prev heap next (some node)

pub insert_list_node_after : Heap → (node_to_insert after : ℕ) → Heap
insert_list_node_after heap node after =
    let linked = set_next (set_prev heap node (some after)) node (heap after).next in
    set_next (link_back linked (linked after).next node) after (some node)

-- The loop of timeout_list_add_waiter: the node to insert after. It follows at most `fuel` links.
pub find_place : ℕ → Heap → (wait_timeout : ℕ → Timespec) → Timespec → (node : ℕ) → Option ℕ
find_place zero heap wait_timeout timeout node = none
find_place (suc fuel) heap wait_timeout timeout node = elim (heap node).next [
  | none ↦ some node
  | some next ↦
      let further = find_place fuel heap wait_timeout timeout next in
      if ltb_ℤ (mm_timediff_ns timeout (wait_timeout next)) (pos 0) then some node else further
]

-- The head is the node 0, and each thread client's node has another number.
pub timeout_list_add_waiter :
    (fuel : ℕ) → Heap → (wait_timeout : ℕ → Timespec) → (tc : ℕ) → Option Heap
timeout_list_add_waiter fuel heap wait_timeout tc =
    elim (find_place fuel heap wait_timeout (wait_timeout tc) 0) [
      | none ↦ none
      | some node ↦ some (insert_list_node_after heap tc node)
    ]
