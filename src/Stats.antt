-- ===== src/Stats.antt =====
-- The statistics of src/slab.c and src/tld.c: each thread counts in its `tld_s` (include/malloc_types.h)
-- and adds the counts to its arena's every 64 operations and when it ends.
pub mod Conserved
mod Tests
use malloc.Common.{
  ℕ, ◌+◌, ◌-◌, ◌^◌, Bool, true, false, ◌&&◌, List, [], ◌∷◌, ltb, leb, ◌==◌, if◌then◌else◌, u32, u64,
}
use malloc.Config.{bootstrap_buf_size}
use malloc.Memory.{not_null}
use malloc.Os.{Os, Kernel, os_munmap, os_page_size}

-- the fields of `arena_s` that the statistics use
pub record Totals : Type 0 where
  pub allocated : ℕ
  pub freed : ℕ
  pub alloc_count : ℕ
  pub free_count : ℕ
  pub thread_count : ℕ  -- an int, as its 32-bit word

-- `tld_t`
pub record Tld : Type 0 where
  pub arena : ℕ
  pub thread_id : ℕ  -- uint32_t
  pub bin_page : List ℕ
  pub stat_allocated : ℕ
  pub stat_freed : ℕ
  pub stat_alloc_count : ℕ
  pub stat_free_count : ℕ
  pub stat_ops : ℕ  -- uint32_t

abbrev pub stat_flush_interval : ℕ
stat_flush_interval = 64

-- `if (n) atomic_fetch_add(&a, n)`
abbrev pub add_some : ℕ → ℕ → ℕ
add_some n a = if not_null n then u64 (a + n) else a

-- `if (n) { ...; n = 0; }`
abbrev pub clear_some : ℕ → ℕ
clear_some n = if not_null n then 0 else n

-- the four additions that tld_stat_flush and tld_cleanup make
unfoldable pub add_stats : Tld → Totals → Totals
add_stats t a = record a {
  allocated = add_some t.stat_allocated a.allocated;
  freed = add_some t.stat_freed a.freed;
  alloc_count = add_some t.stat_alloc_count a.alloc_count;
  free_count = add_some t.stat_free_count a.free_count;
}

unfoldable pub tld_stat_flush : Tld → Totals → Tld × Totals
unfolding add_stats
tld_stat_flush t a = (
  record t {
    stat_allocated = clear_some t.stat_allocated;
    stat_freed = clear_some t.stat_freed;
    stat_alloc_count = clear_some t.stat_alloc_count;
    stat_free_count = clear_some t.stat_free_count;
    stat_ops = 0;
  },
  add_stats t a,
)

-- `if (++tld->stat_ops >= STAT_FLUSH_INTERVAL) tld_stat_flush(tld)`
unfoldable pub count_op : Tld → Totals → Tld × Totals
unfolding tld_stat_flush
count_op t a =
    let counted = record t { stat_ops = u32 (t.stat_ops + 1) } in
    if leb stat_flush_interval counted.stat_ops then tld_stat_flush counted a else (counted, a)

unfoldable pub tld_stat_alloc : (slot_size : ℕ) → Tld → Totals → Tld × Totals
unfolding count_op
tld_stat_alloc slot_size t a =
    count_op
      (record t {
        stat_allocated = u64 (t.stat_allocated + slot_size);
        stat_alloc_count = u64 (t.stat_alloc_count + 1);
      })
      a

unfoldable pub tld_stat_free : (slot_size : ℕ) → Tld → Totals → Tld × Totals
unfolding count_op
tld_stat_free slot_size t a =
    count_op
      (record t {
        stat_freed = u64 (t.stat_freed + slot_size);
        stat_free_count = u64 (t.stat_free_count + 1);
      })
      a

-- The tld lies at `addr`, the bootstrap buffer at `buf_start`. `a` is what `tld->arena` points to.
unfoldable pub tld_cleanup : Kernel → (addr buf_start : ℕ) → Tld → Totals → Os → Totals × Os
unfolding add_stats
tld_cleanup k addr buf_start t a os =
    if not_null addr
    then (
      if not_null t.arena
          then (let added = add_stats t a in
              record added { thread_count = u32 (added.thread_count + (2 ^ 32 - 1)) })
          else a,
      if leb buf_start addr && ltb addr (u64 (buf_start + bootstrap_buf_size))
          then os
          else os_munmap addr (os_page_size k) os,
    )
    else (a, os)

-- What a thread does that is counted: allocations and frees, by slot size.
pub data Op : Type 0 where
  alloc : (slot_size : ℕ) → Op
  free : (slot_size : ℕ) → Op

unfoldable pub stat_op : Op → Tld → Totals → Tld × Totals
unfolding tld_stat_alloc tld_stat_free
stat_op (alloc n) t a = tld_stat_alloc n t a
stat_op (free n) t a = tld_stat_free n t a

unfoldable pub stat_ops : List Op → Tld → Totals → Tld × Totals
unfolding stat_op
stat_ops [] t a = (t, a)
stat_ops (o ∷ os) t a = (let r = stat_op o t a in stat_ops os r.0 r.1)
