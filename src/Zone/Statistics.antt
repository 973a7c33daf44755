-- ===== src/Zone/Statistics.antt =====
-- zone_statistics of src/zone.c.
use malloc.Common.{ℕ, zero, suc, ◌+◌, ◌-◌, ltb, if◌then◌else◌, u32, u64}
use malloc.Heap.{Heap}
use malloc.Thread.{State}

-- The fields of malloc_statistics_t that are set.
pub record Statistics : Type 0 where
  pub blocks_in_use : ℕ  -- unsigned
  pub size_in_use : ℕ
  pub max_size_in_use : ℕ
  pub size_allocated : ℕ

-- `a > b ? a - b : 0`
abbrev pub excess : (a b : ℕ) → ℕ
excess a b = if ltb b a then a - b else 0

-- The loop over the arenas from `a` on, `left` of them left: `blocks` and `bytes_in_use`.
unfoldable pub sum_arenas : (left a : ℕ) → Heap → (blocks bytes : ℕ) → ℕ × ℕ
sum_arenas zero a h blocks bytes = (blocks, bytes)
sum_arenas (suc left) a h blocks bytes =
    let t = (h.arena a).totals in
    sum_arenas left (a + 1) h (u64 (blocks + excess t.alloc_count t.free_count))
      (u64 (bytes + excess t.allocated t.freed))

-- What is stored in `*stats`, and peak_in_use afterwards: no other thread changes it meanwhile, so the
-- compare-and-swap succeeds.
unfoldable pub zone_statistics : State → (peak_in_use : ℕ) → Statistics × ℕ
unfolding sum_arenas
zone_statistics s peak =
    let (slab_blocks, slab_bytes) = sum_arenas s.heap.arena_count 1 s.heap 0 0 in
    let blocks = u64 (slab_blocks + s.large.large_alloc_count) in
    let bytes = u64 (slab_bytes + s.large.large_allocated) in
    (
      record {
        blocks_in_use = u32 blocks;
        size_in_use = bytes;
        max_size_in_use = if ltb peak bytes then bytes else peak;
        size_allocated = s.heap.segs.os.mmap_bytes;
      },
      if ltb peak bytes then bytes else peak,
    )
