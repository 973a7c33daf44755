-- ===== src/Slab.antt =====
-- src/slab.c: the calls of one thread, each of which runs undisturbed.
pub mod Free
pub mod Ready
pub mod Fast
pub mod Slow
pub mod Turn
pub mod Buffer
pub mod Alloc
pub mod Request
pub mod Example
mod Tests
use malloc.Common.{
  sub16, u16, u32, u64, ◌+◌, ℕ, ◌-◌, ◌^◌, ◌%◌, ◌/◌, Bool, true, false, Option, none, some,
  replicate, get_or, set, ltb, ◌==◌, if◌then◌else◌, ◌&&◌,
}
use mathlib.Core.Option
use malloc.Bootstrap.{bootstrap_alloc}
use malloc.Config.{bin_count, medium_max, page_size_alloc}
use malloc.Memory.{Mem, null, not_null}
use malloc.Os.{Os, Kernel, os_mmap_aligned, os_page_size}
use malloc.Large.{Large, large_alloc}
use malloc.Page.{
  page_start, Page, PageState, unused, active, full, retired, no_owner, page_collect_remote,
  page_free_slot_local, page_free_slot_remote,
}
use malloc.Segment.{is_unused, ptr_to_segment, ptr_to_page}
use malloc.SizeClass.{size_to_bin, bin_to_size}
use malloc.Stats.{Tld, Totals, tld_stat_alloc, tld_stat_free}
use malloc.Heap.{Arena, Heap, page_ref, page_of, put_page, put_arena}
use malloc.Arena.{arena_alloc}
use malloc.Thread.{
  State, tld_size, with_os, with_heap, new_tld, tld_memory, tld_get, arena_at, next_arena, attached,
  attach, arena_get,
}

-- the head of the local list, after the remote frees have been collected; NULL if there is none
unfoldable pub pop_collected : Page × Mem → ℕ × Bool × Page × Mem
pop_collected (p, m) =
    if not_null p.local_free
    then (
      p.local_free,
      false,
      record p {
        local_free = m p.local_free;
        local_free_count = sub16 p.local_free_count 1;
        used = u16 (p.used + 1);
      },
      m,
    )
    else (null, false, p, m)

-- The fast path of slab_alloc_inner on the cached page: the slot, NULL if the page is full, and
-- whether it is virgin memory.
unfoldable pub fast_path : Page → Mem → Option (ℕ × Bool × Page × Mem)
unfolding pop_collected
fast_path p m =
    if not_null p.local_free
    then some (
      p.local_free,
      false,
      record p {
        local_free = m p.local_free;
        local_free_count = sub16 p.local_free_count 1;
        used = u16 (p.used + 1);
      },
      m,
    )
    else if ltb p.bump_offset p.bump_end
    then some (
      u64 (page_start p + p.bump_offset),
      true,
      record p { bump_offset = u32 (p.bump_offset + p.slot_size); used = u16 (p.used + 1) },
      m,
    )
    else Option.map pop_collected (page_collect_remote p m)

-- what a call of slab_alloc_inner answers: the slot, and `*zeroed`
pub record Answer : Type 0 where
  pub slot : ℕ
  pub zeroed : Bool

abbrev pub is_active : PageState → Bool
is_active unused = false
is_active active = true
is_active full = false
is_active retired = false

-- The statistics of an allocation or a free; `tld->arena` is flushed to.
unfoldable pub count_in : (Tld → Totals → Tld × Totals) → Tld → State → State
count_in count t s =
    let arena = s.heap.arena t.arena in
    let (t', totals) = count t arena.totals in
    record (with_heap (put_arena t.arena (record arena { totals = totals }) s.heap) s) {
      tld = some t';
    }

-- The page `p` of the cache after the fast path: the slot is counted, or the cache cleared.
unfoldable pub after_fast : (bin p : ℕ) → Tld → State → ℕ × Bool × Page × Mem → Answer × State
unfolding count_in
after_fast bin p t s (slot, zeroed, page, m) =
    let s' = with_heap (record (put_page p page s.heap) { mem = m }) s in
    if not_null slot
    then (record { slot = slot; zeroed = zeroed }, count_in (tld_stat_alloc page.slot_size) t s')
    else (
      record { slot = null; zeroed = false },
      record s' { tld = some (record t { bin_page = set t.bin_page bin null }) },
    )

-- the fast path on the page `p` of the thread's cache
unfoldable pub use_cached : (bin p : ℕ) → Tld → State → Option (Answer × State)
unfolding fast_path after_fast
use_cached bin p t s = Option.map (after_fast bin p t s) (fast_path (page_of s.heap p) s.heap.mem)

-- The compare-and-swap of the owner of `p`: the page is cached if this thread owns it afterwards.
unfoldable pub claim_page : (bin p : ℕ) → Tld → State → State
claim_page bin p t s =
    let owner = (page_of s.heap p).owner_tid in
    let cached = record t { bin_page = set t.bin_page bin p } in
    if owner == no_owner
    then record (with_heap
        (put_page p (record (page_of s.heap p) { owner_tid = t.thread_id }) s.heap) s) {
          tld = some cached;
        }
    else if owner == t.thread_id
    then record s { tld = some cached }
    else s

-- the claim of the page of a slot
unfoldable pub claim : (bin slot : ℕ) → Tld → State → State
unfolding claim_page
claim bin slot t s = elim (ptr_to_page s.heap.segs.registry slot) [
  | none ↦ s
  | some (seg, i) ↦ claim_page bin (page_ref seg i) t s
]

-- what follows arena_alloc: the page of the slot is claimed
unfoldable pub after_arena : (bin : ℕ) → State → ℕ × Heap → Answer × State
unfolding claim
after_arena bin s (slot, h) =
    let s' = with_heap h s in
    (
      record { slot = slot; zeroed = not_null slot },
      if not_null slot then (elim s.tld [ none ↦ s' | some t ↦ claim bin slot t s' ]) else s',
    )

-- what follows arena_get
unfoldable pub from_arena : Kernel → ℕ → (bin : ℕ) → ℕ × State → Option (Answer × State)
unfolding after_arena
from_arena k fuel bin (a, s) =
    if a == null
    then some (record { slot = null; zeroed = false }, s)
    else Option.map (after_arena bin s) (arena_alloc k fuel a bin s.heap)

-- From arena_get to the end.
unfoldable pub slow_path : Kernel → ℕ → (bin : ℕ) → State → Option (Answer × State)
unfolding arena_get from_arena
slow_path k fuel bin s = from_arena k fuel bin (arena_get k s)

-- a request with a mapping of its own
unfoldable pub slab_large : Kernel → (size : ℕ) → State → Answer × State
slab_large k size s =
    let (ptr, l) = large_alloc k size s.large in
    (record { slot = ptr; zeroed = false }, record (with_os l.os s) { large = l })

-- the fast path's answer if it found a slot
unfoldable pub or_slow : Kernel → ℕ → (bin : ℕ) → Answer × State → Option (Answer × State)
unfolding slow_path
or_slow k fuel bin (answer, s) =
    if not_null answer.slot then some (answer, s) else slow_path k fuel bin s

-- a request that a bin serves, by a thread with its data
unfoldable pub with_cache : Kernel → ℕ → (bin : ℕ) → Tld → State → Option (Answer × State)
unfolding use_cached or_slow slow_path
with_cache k fuel bin t s =
    let p = get_or t.bin_page bin null in
    if not_null p && is_active (page_of s.heap p).state
    then (elim (use_cached bin p t s) [ none ↦ none | some r ↦ or_slow k fuel bin r ])
    else slow_path k fuel bin s

-- a request that a bin serves, with what tld_get has given
unfoldable pub with_tld : Kernel → ℕ → (bin : ℕ) → Option Tld × State → Option (Answer × State)
unfolding with_cache slow_path
with_tld k fuel bin (none, s) = slow_path k fuel bin s
with_tld k fuel bin (some t, s) = with_cache k fuel bin t s

-- a request that a bin serves
unfoldable pub slab_bin : Kernel → ℕ → (bin : ℕ) → State → Option (Answer × State)
unfolding tld_get with_tld
slab_bin k fuel bin s = with_tld k fuel bin (tld_get k s)

-- `fuel` is for the lists of arena_alloc.
unfoldable pub slab_alloc_inner : Kernel → ℕ → (size : ℕ) → State → Option (Answer × State)
unfolding slab_large slab_bin
slab_alloc_inner k fuel size s =
    let size = if size == 0 then 1 else size in
    let bin = size_to_bin s.heap.classes size in
    if ltb medium_max size
    then some (slab_large k size s)
    else if ltb (page_size_alloc / 2) (bin_to_size s.heap.classes bin)
    then some (slab_large k size s)
    else slab_bin k fuel bin s

unfoldable pub slab_alloc : Kernel → ℕ → (size : ℕ) → State → Option (ℕ × State)
unfolding slab_alloc_inner
slab_alloc k fuel size s =
    Option.map (λ (answer, s'). (answer.slot, s')) (slab_alloc_inner k fuel size s)

unfoldable pub slab_alloc_zeroed : Kernel → ℕ → (size : ℕ) → State → Option (Answer × State)
unfolding slab_alloc_inner
slab_alloc_zeroed k fuel size s = slab_alloc_inner k fuel size s

-- the credit of a remote free to the page's arena
unfoldable pub credit : (a slot_size : ℕ) → Heap → Heap
credit a slot_size h =
    if not_null a
    then put_arena a
        (record (h.arena a) {
          totals = record (h.arena a).totals {
            freed = u64 ((h.arena a).totals.freed + slot_size);
            free_count = u64 ((h.arena a).totals.free_count + 1);
          };
        })
        h
    else h

-- the free of a slot of the page `p` of another thread, or of none
unfoldable pub free_remote : (p ptr : ℕ) → State → State
unfolding credit
free_remote p ptr s =
    let (page, m) = page_free_slot_remote (page_of s.heap p) s.heap.mem ptr in
    with_heap (credit page.arena page.slot_size (record (put_page p page s.heap) { mem = m })) s

-- the free of a slot of the page `p` of this thread
unfoldable pub free_local : (p ptr : ℕ) → Tld → State → State
unfolding count_in
free_local p ptr t s =
    let (page, m) = page_free_slot_local (page_of s.heap p) s.heap.mem ptr in
    count_in (tld_stat_free page.slot_size) t
      (with_heap (record (put_page p page s.heap) { mem = m }) s)

-- the free of a slot of the page `p`, in use
unfoldable pub free_in : Kernel → (p ptr : ℕ) → State → State
unfolding tld_get free_local free_remote
free_in k p ptr s =
    let (tld, s1) = tld_get k s in
    elim tld [
      | none ↦ free_remote p ptr s1
      | some t ↦
          if (page_of s1.heap p).owner_tid == t.thread_id
          then free_local p ptr t s1
          else free_remote p ptr s1
    ]

unfoldable pub slab_free : Kernel → (ptr : ℕ) → State → State
unfolding free_in
slab_free k ptr s =
    let seg = ptr_to_segment s.heap.segs.registry ptr in
    if ptr == null
    then s
    else if seg == null
    then s
    else elim (ptr_to_page s.heap.segs.registry ptr) [
      | none ↦ s
      | some (b, i) ↦
          if is_unused (page_of s.heap (page_ref b i)).state
          then s
          else free_in k (page_ref b i) ptr s
    ]
