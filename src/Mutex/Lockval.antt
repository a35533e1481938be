-- ===== src/Mutex/Lockval.antt =====
-- src/mutex-lockval.h, the parts of the lock value of a shared mutex. The int64_t is its bit pattern, a
-- number below 2^64, and a mask is a remainder or a quotient by a power of two: the owner has the bits 0
-- to 31, the count of waiters the bits 32 to 39, the mark of a dead owner the bit 40, and the thread that
-- changes the count the bits 41 to 63.
pub mod Fields
use mmlib.Base.{ℕ, ◌+◌, ◌-◌, ◌*◌, ◌/◌, ◌%◌, Bool, ◌&&◌, ◌==◌, ◌!=◌}

-- One more than the largest value.
abbrev pub int64_mod : ℕ
int64_mod = 0x10000000000000000

abbrev pub mtx_owner_tid_mask : ℕ
mtx_owner_tid_mask = 0xffffffff

abbrev pub mtx_need_recover_mask : ℕ
mtx_need_recover_mask = 0x10000000000

abbrev pub add64 : ℕ → ℕ → ℕ
add64 a b = (a + b) % int64_mod

abbrev pub sub64 : ℕ → ℕ → ℕ
sub64 a b = (a + int64_mod - b) % int64_mod

-- `lockval & MTX_OWNER_TID_MASK`
abbrev pub owner_tid : ℕ → ℕ
owner_tid lockval = lockval % 0x100000000

-- `lockval & ~MTX_OWNER_TID_MASK`
abbrev pub clear_owner : ℕ → ℕ
clear_owner lockval = lockval - lockval % 0x100000000

-- `lockval & ~MTX_WAITER_TID_MASK`
abbrev pub clear_waiter : ℕ → ℕ
clear_waiter lockval = lockval % 0x20000000000

-- `(lockval & MTX_NWAITER_MASK) >> MTX_NWAITER_SHIFTLEN`
abbrev pub mtx_num_waiter : ℕ → ℕ
mtx_num_waiter lockval = lockval / 0x100000000 % 0x100

-- `lockval & MTX_WAITER_TID_MASK`
abbrev pub waiter_tid_part : ℕ → ℕ
waiter_tid_part lockval = lockval - lockval % 0x20000000000

abbrev pub is_mtx_waited : ℕ → Bool
is_mtx_waited lockval = mtx_num_waiter lockval != 0

abbrev pub is_mtx_locked : ℕ → Bool
is_mtx_locked lockval = owner_tid lockval != 0

abbrev pub is_mtx_waiterlist_full : ℕ → Bool
is_mtx_waiterlist_full lockval = mtx_num_waiter lockval == 0xff

-- The parts do not overlap for a DWORD and the counts that it is called with, 0 and 1, so `|` adds them;
-- the shift drops all but the 23 lowest bits of the waiter.
abbrev pub mtx_lockval : (owner_tid waiter_tid nwaiter : ℕ) → ℕ
mtx_lockval owner waiter nwaiter =
    owner + nwaiter * 0x100000000 + waiter * 0x20000000000 % int64_mod

abbrev pub is_thread_mtx_owner : ℕ → (tid : ℕ) → Bool
is_thread_mtx_owner lockval tid = mtx_lockval tid 0 0 == owner_tid lockval

abbrev pub is_thread_mtx_waiterlist_owner : ℕ → (tid : ℕ) → Bool
is_thread_mtx_waiterlist_owner lockval tid = mtx_lockval 0 tid 0 == waiter_tid_part lockval

abbrev pub is_mtx_ownerdead : ℕ → Bool
is_mtx_ownerdead lockval = lockval / 0x10000000000 % 2 != 0

-- `(lockval & MTX_UNRECOVERABLE_MASK) == MTX_UNRECOVERABLE_MASK`
abbrev pub is_mtx_unrecoverable : ℕ → Bool
is_mtx_unrecoverable lockval = is_mtx_ownerdead lockval && owner_tid lockval == mtx_owner_tid_mask
