-- ===== src/Threads.antt =====
-- The threads of src/thread-win32.c: the data of a thread that mm_thr_create has started, shared by the thread
-- itself and the one caller that joins or detaches it. A state is the place in the code of each with its
-- local variables, and an access to the data is one step.
pub mod Lifetime
mod Examples
use mmlib.Base.{ℕ, suc, ◌+◌, ◌-◌, ◌*◌, ◌/◌, ◌%◌, ◌≡◌, Bool, true, false, ◌==◌, if◌then◌else◌}

abbrev pub state_stopped : ℕ
state_stopped = 0x01

abbrev pub state_detached : ℕ
state_detached = 0x02

-- `state & STATE_STOPPED` and `state & STATE_DETACHED`
abbrev pub is_stopped : ℕ → Bool
is_stopped state = state % 2 == 1

abbrev pub is_detached : ℕ → Bool
is_detached state = state / 2 % 2 == 1

-- What a call of the owner came to.
pub data Outcome : Type 0 where
  detached refused : Outcome
  joined : (retval : ℕ) → Outcome

pub data Owner : Type 0 where
  -- Before mm_thr_join or mm_thr_detach.
  holds : Owner
  -- Behind the `atomic_fetch_add` of mm_thr_detach.
  detaching : (prev_state : ℕ) → Owner
  -- In WaitForSingleObject of mm_thr_join.
  waits : Owner
  returned : Outcome → Owner

pub data Worker : Type 0 where
  -- In the routine.
  runs : Worker
  -- Behind the `atomic_fetch_add` of thread_local_data_on_exit.
  exiting : (prev_state : ℕ) → Worker
  ended : Worker

-- `struct mm_thread`, and how often destroy_mm_thread_data was called for it.
pub record Thread : Type 0 where
  pub state : ℕ
  pub retval : ℕ
  pub frees : ℕ
  pub owner : Owner
  pub worker : Worker

abbrev pub mm_thr_create : Thread
mm_thr_create = record {
  state = state_detached - state_detached;
  retval = 0;
  frees = 0;
  owner = holds;
  worker = runs;
}

-- thread_proc_wrapper stores the value of the routine, and the thread comes to thread_local_data_on_exit.
unfoldable pub thread_proc_wrapper : Thread → (retval : ℕ) → Thread
thread_proc_wrapper t retval = record {
  state = t.state + state_stopped;
  retval = retval;
  frees = t.frees;
  owner = t.owner;
  worker = exiting t.state;
}

unfoldable pub thread_local_data_on_exit : Thread → (prev_state : ℕ) → Thread
thread_local_data_on_exit t prev_state = record {
  state = t.state;
  retval = t.retval;
  frees = if is_detached prev_state then t.frees + 1 else t.frees;
  owner = t.owner;
  worker = ended;
}

abbrev pub with_owner : Thread → (state frees : ℕ) → Owner → Thread
with_owner t state frees owner = record {
  state = state;
  retval = t.retval;
  frees = frees;
  owner = owner;
  worker = t.worker;
}

unfoldable pub mm_thr_detach : Thread → Thread
mm_thr_detach t = with_owner t (t.state + state_detached) t.frees (detaching t.state)

unfoldable pub detach_end : Thread → (prev_state : ℕ) → Thread
detach_end t prev_state =
    if is_detached prev_state
    then with_owner t t.state t.frees (returned refused)
    else with_owner t t.state (if is_stopped prev_state then t.frees + 1 else t.frees)
        (returned detached)

unfoldable pub mm_thr_join : Thread → Thread
mm_thr_join t =
    if is_detached t.state
    then with_owner t t.state t.frees (returned refused)
    else with_owner t t.state t.frees waits

unfoldable pub join_end : Thread → Thread
join_end t = with_owner t t.state (t.frees + 1) (returned (joined t.retval))

-- The steps, in any order.
pub data Step (result : ℕ) : Thread → Thread → Type 0 where
  finishes : (t : Thread) → t.worker ≡ runs → Step result t (thread_proc_wrapper t result)
  exits :
      (t : Thread) (prev : ℕ)
      → t.worker ≡ exiting prev
      → Step result t (thread_local_data_on_exit t prev)
  detaches : (t : Thread) → t.owner ≡ holds → Step result t (mm_thr_detach t)
  detach_ends :
      (t : Thread) (prev : ℕ) → t.owner ≡ detaching prev → Step result t (detach_end t prev)
  joins : (t : Thread) → t.owner ≡ holds → Step result t (mm_thr_join t)
  -- The handle is signalled when the thread has ended.
  join_ends : (t : Thread) → t.owner ≡ waits → t.worker ≡ ended → Step result t (join_end t)

pub data Reach (result : ℕ) : Thread → Type 0 where
  start : Reach result mm_thr_create
  later : {t u : Thread} → Reach result t → Step result t u → Reach result u
