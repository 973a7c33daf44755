-- ===== src/Thread.antt =====
-- The allocator as one thread sees it, with tld_get of src/tld.c and arena_get of src/arena.c: the thread
-- runs undisturbed, and the other threads show in the owners of the pages and in the arenas.
pub mod Same
pub mod Wrap
use malloc.Common.{
  ℕ, ◌+◌, ◌-◌, ◌^◌, ◌%◌, ◌/◌, Bool, true, false, Option, none, some, replicate, get_or, set, ltb,
  ◌==◌, if◌then◌else◌, u32, u64, ◌&&◌,
}
use mathlib.Core.Option
use malloc.Bootstrap.{bootstrap_alloc}
use malloc.Config.{bin_count, medium_max, page_size_alloc}
use malloc.Memory.{Mem, null, not_null}
use malloc.Os.{Os, Kernel, os_mmap_aligned, os_page_size}
use malloc.Large.{Large, large_alloc}
use malloc.Page.{
  Page, PageState, unused, active, full, retired, no_owner, pop_local, bump, page_collect_remote,
  page_free_slot_local, page_free_slot_remote,
}
use malloc.Segment.{is_unused, ptr_to_segment, ptr_to_page}
use malloc.SizeClass.{size_to_bin, bin_to_size}
use malloc.Stats.{Tld, Totals, tld_stat_alloc, tld_stat_free}
use malloc.Heap.{Arena, Heap, page_ref, page_of, put_page, put_arena}
use malloc.Arena.{arena_alloc}

-- The allocator as one thread sees it. `large.os` is kept equal to `heap.segs.os`.
pub record State : Type 0 where
  pub heap : Heap
  pub large : Large
  pub tld : Option Tld  -- what pthread_getspecific gives this thread
  pub thread_id_counter : ℕ  -- uint32_t
  pub initialized : ℕ
  pub bootstrap_buf : ℕ
  pub bootstrap_used : ℕ

-- `sizeof(tld_t)`
abbrev pub tld_size : ℕ
tld_size = 656

abbrev pub with_os : Os → State → State
with_os os s = record s {
  heap = record s.heap { segs = record s.heap.segs { os = os } };
  large = record s.large { os = os };
}

abbrev pub with_heap : Heap → State → State
with_heap h s = record s { heap = h; large = record s.large { os = h.segs.os } }

-- the memset of tld_get and the assignments after it
abbrev pub new_tld : (thread_id : ℕ) → Tld
new_tld thread_id = record {
  arena = null;
  thread_id = thread_id;
  bin_page = replicate bin_count null;
  stat_allocated = 0;
  stat_freed = 0;
  stat_alloc_count = 0;
  stat_free_count = 0;
  stat_ops = 0;
}

-- the memory of a new tld, from the bootstrap buffer before the initialisation
unfoldable pub tld_memory : Kernel → State → ℕ × State
tld_memory k s =
    if s.initialized == 2
    then (let (addr, os) = os_mmap_aligned k (os_page_size k) (os_page_size k) s.heap.segs.os in
        (addr, with_os os s))
    else (let (addr, used) = bootstrap_alloc s.bootstrap_buf tld_size s.bootstrap_used in
        (addr, record s { bootstrap_used = used }))

-- NULL if there is no memory
unfoldable pub tld_get : Kernel → State → Option Tld × State
unfolding tld_memory
tld_get k s = elim s.tld [
  | some t ↦ (some t, s)
  | none ↦
      let (addr, s') = tld_memory k s in
      if addr == null
      then (none, s')
      else (let t = new_tld s'.thread_id_counter in
          (some t, record s' { tld = some t; thread_id_counter = u32 (s'.thread_id_counter + 1) }))
]

-- `&g_state.arenas[next % count]` for ints: the remainder of a negative `next` is 0 or negative. An
-- address before the array is known as 2^64 less its distance from the array.
unfoldable pub arena_at : (next count : ℕ) → ℕ
arena_at next count =
    let back = (2 ^ 32 - next) % count in
    if ltb next (2 ^ 31) then next % count + 1 else if back == 0 then 1 else 2 ^ 64 - back

-- the next arena in turn, by which the thread is counted
unfoldable pub next_arena : Heap → ℕ × Heap
unfolding arena_at
next_arena h =
    let a = arena_at h.arena_next h.arena_count in
    let arena = h.arena a in
    (
      a,
      put_arena a
          (record arena {
            totals = record arena.totals { thread_count = u32 (arena.totals.thread_count + 1) };
          })
          (record h { arena_next = u32 (h.arena_next + 1) }),
    )

-- `tld ? tld->arena : NULL`
abbrev pub attached : Option Tld → ℕ
attached none = null
attached (some t) = t.arena

-- arena_get once it knows the thread's data
unfoldable pub attach : Option Tld → State → ℕ × State
unfolding next_arena
attach tld s =
    if not_null (attached tld)
    then (attached tld, s)
    else if s.heap.arena_count == 0
    then (null, s)
    else (let (a, h) = next_arena s.heap in
        (a, record (with_heap h s) { tld = Option.map (λ (t : Tld). record t { arena = a }) tld }))

-- NULL if there is no arena
unfoldable pub arena_get : Kernel → State → ℕ × State
unfolding tld_get attach
arena_get k s = (let (tld, s1) = tld_get k s in attach tld s1)
