-- ===== src/Process/Startup/Bounds.antt =====
-- The sizes of the buffer for the descriptors of a new process.
use mmlib.Base.{ℕ, ◌+◌, ◌%◌, ◌≤◌, ◌<◌, ◌≡◌, List, [], ◌∷◌, ◌++◌, arith, if◌then◌else◌}
use mmlib.Base.Int.{ℤ, pos, negsuc, ltb_ℤ, ◌≤ℤ◌}
use mmlib.Process.Startup.{
  RemapFd, highest_loop, get_highest_child_fd, round_up, num_fd, num_crt_fd,
}

highest_loop-mono : (fd : ℤ) (fd_map : List RemapFd) → fd ≤ℤ highest_loop fd fd_map
unfolding highest_loop
highest_loop-mono fd [] = omega arith
highest_loop-mono fd (map ∷ fd_map) =
    ground (arith, highest_loop-mono map.child_fd fd_map, highest_loop-mono fd fd_map)

highest_loop-bounds :
    (fd : ℤ) (before behind : List RemapFd) (map : RemapFd)
    → map.child_fd ≤ℤ highest_loop fd (before ++ (map ∷ behind))
unfolding highest_loop
highest_loop-bounds fd [] behind map =
    ground (arith, highest_loop-mono map.child_fd behind, highest_loop-mono fd behind)
highest_loop-bounds fd (m ∷ before) behind map =
    highest_loop-bounds (if ltb_ℤ fd m.child_fd then m.child_fd else fd) before behind map

pub num_crt_fd-le : (n : ℕ) → n ≤ num_crt_fd n
unfolding num_crt_fd round_up
num_crt_fd-le n = omega arith

-- The handles behind the flags are aligned.
pub num_crt_fd-aligned : (n : ℕ) → (4 + num_crt_fd n) % 8 ≡ 0
unfolding num_crt_fd round_up
num_crt_fd-aligned n = omega arith

pub num_fd-bounds :
    (before behind : List RemapFd) (map : RemapFd) (child : ℕ)
    → map.child_fd ≡ pos child
    → child < num_fd (before ++ (map ∷ behind))
unfolding num_fd get_highest_child_fd
num_fd-bounds before behind map child e =
    ground (arith, highest_loop-bounds (negsuc 0) before behind map, e)

pub num_fd_min : (fd_map : List RemapFd) → 3 ≤ num_fd fd_map
unfolding num_fd
num_fd_min fd_map = ground arith
