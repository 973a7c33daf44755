-- ===== src/Thread/Wrap.antt =====
-- The turn of the arenas in arena_get of src/arena.c, when the counter of threads wraps around.
use malloc.Common.{ℕ, ◌-◌, ◌%◌, ◌^◌, ◌<◌, ◌≤◌, ◌≡◌, ◌⊎◌, ◌↔◌, arith}
use native.Mathlib.Nat.{mod-lt}
use malloc.Thread.{arena_at}

-- With some arenas, at most 2^31 - 1 of them, the arena that arena_get takes is one of them exactly if
-- arena_next, an int, has not become negative, or its distance from 2^32 is a multiple of their number.
pub arena_at_iff :
    (next count : ℕ)
    → 0 < count
    → count < 2 ^ 31
    → next < 2 ^ 32
    → ((1 ≤ arena_at next count) × (arena_at next count ≤ count))
      ↔ ((next < 2 ^ 31) ⊎ ((2 ^ 32 - next) % count ≡ 0))
unfolding arena_at
arena_at_iff next count pos few word =
    let rest = mod-lt next pos in
    let back = mod-lt (2 ^ 32 - next) pos in
    (λ (lo, hi). ground (arith, lo, hi, back, few), λ h. ground (arith, h, rest, pos))
