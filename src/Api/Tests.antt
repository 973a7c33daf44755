-- ===== src/Api/Tests.antt =====
-- A block allocated and freed, and the second slot of a page for 256-byte requests.
use malloc.Common.{
  false, ◌∷◌, get_or-replicate, sub64, ℕ, ◌<◌, ◌≤◌, ◌≡◌, ◌≢◌, ◌/◌, none, some, inl, inr, ◌+◌, refl,
  [], arith, Returns, ◌%◌, ◌*◌, replicate,
}
use malloc.Common.Mask.{align_up}
use malloc.SizeClass.{size_to_bin, bin_to_size}
use malloc.Config.{medium_max, page_size_alloc}
use malloc.Os.{Kernel, os_mmap_aligned}
use malloc.Large.{large_free, large_find, find_loop}
use malloc.Segment.{ptr_to_segment}
use malloc.Page.{bump, page_init, round_slot}
use malloc.Registry.{segment_register, register_loop, registered_loop, segment_is_registered}
use malloc.Segment.{segment_create, open_page}
use malloc.Arena.{carve}
use malloc.Arena.Growth.{CanGrow}
use malloc.Arena.Scan.{IsExtended-refl}
use malloc.Thread.{State, new_tld}
use malloc.Arena.Example.{
  base, empty, held, first-IsTaken, first, nothing, empty-IsHeap, can_grow, kernel,
}
use malloc.SizeClass.Table.{tables}
use malloc.Slab.Example.{
  listed-IsHeap, listed-IsArena, state, listed, started, empty_arenas, started-IsCache,
}
use malloc.Api.Malloc.{CanServe}
use malloc.Api.Calloc.{IsCalloc, my_calloc-IsCalloc}
use malloc.Api.Realloc.{IsRealloc, my_realloc-IsRealloc}
use malloc.Api.Drift.{realloc_large_drifts}
use malloc.Api.{
  Process, malloc_ensure_init, my_realloc, in_bootstrap, known_page, my_calloc, my_malloc,
  aligned_size,
}
use malloc.Api.Free.{IsUndone, my_malloc-my_free}
use malloc.Api.Aligned.{aligned_size_off}
use malloc.Api.Start.{IsStarted, malloc_ensure_init-IsStarted}

-- the state before malloc_init, with other contents than zeros
abbrev untouched : State
untouched = record started {
  heap = record empty { segs = record empty.segs { registry = replicate 256 7 } };
  initialized = 0;
  bootstrap_used = 77;
}

my_malloc-my_free_example : Returns (my_malloc kernel 0 100 started) (IsUndone kernel nothing)
unfolding bin_to_size size_to_bin align_up
my_malloc-my_free_example =
    my_malloc-my_free kernel 0 100 nothing (new_tld 0) (λ a b. []) (λ a. []) started refl refl
      (omega arith) (omega arith) (omega arith)
      (record { valid = empty-IsHeap; arenas = λ a ne. empty_arenas a; cache = started-IsCache })
      refl can_grow (omega arith) (λ a ne. omega arith) (λ a ne. omega arith)

aligned_size_off_example :
    (0x41_0000 + 1 * bin_to_size tables (size_to_bin tables (aligned_size 256 200))) % 256 ≢ 0
aligned_size_off_example =
    aligned_size_off 200 0x41_0000 1 (omega arith) (omega arith) (omega arith)

started_serves :
    (size : ℕ)
    → 0 < size
    → size ≤ medium_max
    → bin_to_size tables (size_to_bin tables size) ≤ page_size_alloc / 2
    → CanServe kernel 0 size nothing (new_tld 0) (λ a b. []) (λ a. []) started
started_serves size pos medium half = record {
  up = refl;
  set_up = refl;
  pos = pos;
  medium = medium;
  half = half;
  ready = record { valid = empty-IsHeap; arenas = λ a ne. empty_arenas a; cache = started-IsCache };
  has_tld = refl;
  grows = can_grow;
  in_turn = omega arith;
  enough_pages = λ a ne. omega arith;
  enough_segs = λ a ne. omega arith;
}

abbrev process : State → Process
process s = record { state = s; errno = none; writes = [] }

my_calloc-IsCalloc_example :
    Returns
      (my_calloc kernel 0 4 25 (process started))
      (IsCalloc kernel 0 (process started) nothing 100)
unfolding bin_to_size size_to_bin align_up
my_calloc-IsCalloc_example =
    my_calloc-IsCalloc kernel 0 4 25 nothing (new_tld 0) (λ a b. []) (λ a. []) (process started)
      (inr (started_serves 100 (omega arith) (omega arith) (omega arith)))

-- The slot of page 1 is held, and page 2 can be opened.
abbrev holding : State
holding = record state { heap = listed first.1 (IsExtended-refl first.1); tld = some (new_tld 0) }

abbrev refusing : Kernel
refusing = record { page_size = 4096; answer = λ size. none }

holding-CanGrow : CanGrow refusing holding.heap.segs.registry holding.heap.segs.os
unfolding carve segment_create open_page segment_register register_loop os_mmap_aligned align_up
holding-CanGrow = record {
  j = 12;
  pages = refl;
  room = record { index = 0; index_lt = omega arith; holds = refl };
  answer = inl refl;
  low = omega arith;
}

holding_serves : CanServe refusing 1 100 held (new_tld 0) (λ a b. []) (λ a. base ∷ []) holding
unfolding bin_to_size size_to_bin align_up carve
holding_serves = record {
  up = refl;
  set_up = refl;
  pos = omega arith;
  medium = omega arith;
  half = omega arith;
  ready = record {
    valid = listed-IsHeap first.1 (IsExtended-refl first.1) held first-IsTaken.valid;
    arenas = listed-IsArena first.1 (IsExtended-refl first.1);
    cache = record {
      sized = refl;
      open_pages = λ b lt ne. absurd (ne (get_or-replicate 75 b 0));
      fits = λ b lt ne. absurd (ne (get_or-replicate 75 b 0));
    };
  };
  has_tld = refl;
  grows = holding-CanGrow;
  in_turn = omega arith;
  enough_pages = λ a ne. omega arith;
  enough_segs = λ a ne. omega arith;
}

outside : in_bootstrap holding first.0 ≡ false
unfolding carve segment_create open_page os_mmap_aligned align_up bump page_init round_slot
    bin_to_size
outside = refl

my_realloc-IsRealloc_example :
    Returns
      (my_realloc refusing 1 first.0 100 (process holding))
      (IsRealloc (process holding) held (base + 1) first.0 100)
my_realloc-IsRealloc_example =
    my_realloc-IsRealloc (process holding) (base + 1) first.0 holding_serves (ground arith) outside

-- One large allocation, of 200000 bytes in a mapping of 204800.
abbrev one_large : State
one_large = record started {
  large = record started.large {
    large_list = 0x50_0000;
    headers =
        λ a. record { base = 0x50_0000; size = 0x3_2000; user_size = 200000; next = 0; prev = 0 };
    large_allocated = 200000;
    large_alloc_count = 1;
  };
}

realloc_large_drifts_example :
    Returns (my_realloc kernel 0 0x50_0030 200001 (process one_large)) (λ r.
      (r.0 ≡ 0x50_0030)
      × Returns (large_free r.1.state.large 0x50_0030) (λ t.
        (t.large_allocated ≡ sub64 200000 200001) × (t.large_allocated ≢ sub64 200000 200000)))
unfolding large_find find_loop known_page ptr_to_segment segment_is_registered registered_loop
realloc_large_drifts_example =
    realloc_large_drifts (process one_large) 0x50_0030 200001 0x50_0000 (omega arith) (omega arith)
      refl kernel 0 refl refl refl (omega arith) (omega arith) (omega arith) (omega arith)

malloc_ensure_init-IsStarted_example : IsStarted (malloc_ensure_init untouched)
malloc_ensure_init-IsStarted_example = malloc_ensure_init-IsStarted untouched refl refl refl refl
