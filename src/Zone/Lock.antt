-- ===== src/Zone/Lock.antt =====
-- The locks that zone_force_lock and zone_force_unlock of src/zone.c take for a fork, and zone_locked.
use malloc.Common.{ℕ, zero, suc, ◌+◌, Bool, false, List, [], ◌∷◌, ◌++◌}

-- The mutex of the arena `g_state.arenas[i]`, and large_lock.
pub data Mutex : Type 0 where
  arena_lock : (i : ℕ) → Mutex
  large_lock : Mutex

pub data LockCall : Type 0 where
  lock : Mutex → LockCall
  unlock : Mutex → LockCall

-- the loops over the arenas from `i` on, `left` of them left
unfoldable pub lock_arenas : (left i : ℕ) → List LockCall
lock_arenas zero i = []
lock_arenas (suc left) i = lock (arena_lock i) ∷ lock_arenas left (i + 1)

unfoldable pub unlock_arenas : (left i : ℕ) → List LockCall
unlock_arenas zero i = []
unlock_arenas (suc left) i = unlock (arena_lock i) ∷ unlock_arenas left (i + 1)

-- The calls in their order.
unfoldable pub zone_force_lock : (arena_count : ℕ) → List LockCall
unfolding lock_arenas
zone_force_lock count = lock_arenas count 0 ++ lock large_lock ∷ []

unfoldable pub zone_force_unlock : (arena_count : ℕ) → List LockCall
unfolding unlock_arenas
zone_force_unlock count = unlock large_lock ∷ unlock_arenas count 0

abbrev pub zone_locked : Bool
zone_locked = false
