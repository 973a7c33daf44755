-- ===== src/Slab/Tests.antt =====
-- A thread allocates, and frees a slot of a page that nobody owns and a NULL pointer.
use mathlib.Core.Option
use malloc.Heap.{page_of}
use malloc.Page.{page_alloc_slot}
use malloc.Slab.{slab_free, fast_path}
use malloc.Slab.Fast.{forget, fast_path-page_alloc_slot}
use malloc.Slab.Free.{IsFreed, slab_free-IsFreed}
use malloc.Common.{◌+◌, ◌≡◌, refl, [], arith, Returns, ◌≤◌, ◌<◌, ◌^◌, ◌-◌, ◌%◌, ◌⊎◌, ◌↔◌}
use malloc.Common.Mask.{align_up}
use malloc.SizeClass.{size_to_bin, bin_to_size}
use malloc.Thread.{new_tld, arena_at}
use malloc.Slab.{slab_alloc_inner}
use malloc.Slab.Slow.{SlabResult}
use malloc.Slab.Request.{slab_alloc_inner-SlabResult}
use malloc.Thread.Wrap.{arena_at_iff}
use malloc.Arena.Example.{
  nothing, empty-IsHeap, can_grow, kernel, base, page_opened, first, first-IsTaken, held,
}
use malloc.Slab.Example.{state, started, empty_arenas, started-IsCache}

slab_free-IsFreed_example : IsFreed state held (base + 1) first.0 (slab_free kernel first.0 state)
slab_free-IsFreed_example =
    slab_free-IsFreed kernel state held (base + 1) first.0 first-IsTaken.valid
      (first-IsTaken.extended.opened (base + 1) page_opened.open_page) (ground arith)

slab_alloc_inner-SlabResult_example :
    Returns (slab_alloc_inner kernel 0 100 started) (SlabResult nothing 100 (λ a b. []) (λ a. []))
unfolding bin_to_size size_to_bin align_up
slab_alloc_inner-SlabResult_example =
    slab_alloc_inner-SlabResult kernel 0 100 nothing (new_tld 0) (λ a b. []) (λ a. []) started refl
      (omega arith) (omega arith)
      (record { valid = empty-IsHeap; arenas = λ a ne. empty_arenas a; cache = started-IsCache })
      refl can_grow (omega arith) (λ a ne. omega arith) (λ a ne. omega arith)

arena_at_iff_example :
    ((1 ≤ arena_at 0xffff_fffd 4) × (arena_at 0xffff_fffd 4 ≤ 4))
    ↔ ((0xffff_fffd < 2 ^ 31) ⊎ ((2 ^ 32 - 0xffff_fffd) % 4 ≡ 0))
arena_at_iff_example = arena_at_iff 0xffff_fffd 4 (omega arith) (omega arith) (omega arith)

fast_path-page_alloc_slot_example :
    Option.map forget (fast_path (page_of first.1 (base + 1)) first.1.mem)
    ≡ page_alloc_slot (page_of first.1 (base + 1)) first.1.mem
fast_path-page_alloc_slot_example =
    fast_path-page_alloc_slot (page_of first.1 (base + 1)) first.1.mem
