-- ===== src/Atomic.antt =====
-- include/malloc_atomic.h: the tagged word of a Treiber stack, and the stack operations as one
-- thread runs them undisturbed (the compare-and-swap succeeds).
pub mod Tagged
pub mod Threads
pub mod Shared
pub mod Alone
mod Tests
use malloc.Common.{ℕ, ◌+◌, ◌-◌, ◌*◌, ◌/◌, ◌^◌, bit_or, bit_and, if◌then◌else◌, ◌==◌, u16, u64}
use malloc.Memory.{Mem, null, write}

-- `v & PTR_MASK` and `(uint16_t)(v >> TAG_SHIFT)`
unfoldable pub tagged_ptr_get : ℕ → ℕ
tagged_ptr_get v = bit_and v (2 ^ 48 - 1)

unfoldable pub tagged_ptr_tag : ℕ → ℕ
tagged_ptr_tag v = u16 (v / 2 ^ 48)

-- the tag is a uint16_t: an argument `old_tag + 1` wraps
unfoldable pub tagged_make : ℕ → ℕ → ℕ
tagged_make ptr tag = bit_or (u64 (u16 tag * 2 ^ 48)) (bit_and ptr (2 ^ 48 - 1))

-- returns the new head word and memory; `next_offset` is 0 in every call
unfoldable pub treiber_push : ℕ → ℕ → ℕ → Mem → ℕ × Mem
treiber_push head node next_offset m =
    let linked = write m (node + next_offset) (tagged_ptr_get head) in
    (tagged_make node (tagged_ptr_tag head + 1), linked)

-- returns the popped node (NULL if empty) and the new head word
unfoldable pub treiber_pop : ℕ → ℕ → Mem → ℕ × ℕ
treiber_pop head next_offset m =
    let old = tagged_ptr_get head in
    if old == null
    then (null, head)
    else (old, tagged_make (m (old + next_offset)) (tagged_ptr_tag head + 1))

-- returns the whole list and the new head word
unfoldable pub treiber_collect : ℕ → ℕ × ℕ
treiber_collect head =
    let old = tagged_ptr_get head in
    if old == null then (null, head) else (old, tagged_make null (tagged_ptr_tag head + 1))
