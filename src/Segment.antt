-- ===== src/Segment.antt =====
-- The segments of src/segment.c and `segment_s` of include/malloc_types.h: 4 MB of memory whose first
-- page holds the metadata of all pages. A segment is known by its address.
pub mod Pages
pub mod Open
pub mod Close
pub mod Create
pub mod Lookup
mod Tests
use malloc.Common.{
  ℕ, zero, suc, ◌+◌, ◌-◌, ◌/◌, ◌^◌, Bool, true, false, Option, none, some, List, [], ◌∷◌, get_or,
  set, leb, ◌==◌, if◌then◌else◌, bit_and, u16, u32, sub16, sub64,
}
use malloc.Config.{segment_size, page_size_alloc, pages_per_segment, pages_data_start}
use malloc.Memory.{null}
use malloc.Os.{Os, Kernel, os_mmap_aligned, os_munmap, os_madvise_free}
use malloc.Page.{Page, PageState, unused, active, full, retired, no_owner, page_start, page_init}
use malloc.Registry.{segment_register, segment_unregister, segment_is_registered}
use malloc.SizeClass.{SizeClasses, bin_to_size}

-- `segment_t`
pub record Segment : Type 0 where
  pub magic : ℕ
  pub page_count : ℕ  -- uint16_t
  pub pages_used : ℕ  -- uint16_t
  pub arena : ℕ
  pub next : ℕ
  pub prev : ℕ
  pub pages : List Page

-- `SEGMENT_MAGIC`
abbrev pub segment_magic : ℕ
segment_magic = 0xa110_ca7e

-- the segments in memory, by address, with the registry and the operating system
pub record Segments : Type 0 where
  pub segment : ℕ → Segment
  pub registry : List ℕ
  pub os : Os

abbrev pub put : ℕ → Segment → (ℕ → Segment) → ℕ → Segment
put a seg f b = if a == b then seg else f b

-- The metadata of page `i` after the memset and the loop of segment_create; PAGE_UNUSED is 0.
abbrev pub blank : (seg arena i : ℕ) → Page
blank seg arena i = record {
  arena = arena;
  segment = seg;
  owner_tid = 0;
  bin_idx = 0;
  state = unused;
  slot_size = 0;
  capacity = 0;
  used = 0;
  bump_offset = 0;
  bump_end = 0;
  local_free = null;
  local_free_count = 0;
  remote_free = 0;
  remote_free_count = 0;
  next = null;
  prev = null;
  page_index = u16 i;
}

-- the loop over the pages from `i` on, `left` of them left
unfoldable pub blank_pages : (left i seg arena : ℕ) → List Page
blank_pages zero i seg arena = []
blank_pages (suc left) i seg arena = blank seg arena i ∷ blank_pages left (i + 1) seg arena

-- `pages[i]`
abbrev pub page_at : Segment → ℕ → Page
page_at seg i = get_or seg.pages i (blank 0 0 0)

-- a new segment at `base`
unfoldable pub new_segment : (base arena : ℕ) → Segment
unfolding blank_pages
new_segment base arena =
    let pages = blank_pages pages_per_segment 0 base arena in
    record {
      magic = segment_magic;
      page_count = pages_per_segment;
      pages_used = 0;
      arena = arena;
      next = null;
      prev = null;
      pages = set pages 0 (record (get_or pages 0 (blank 0 0 0)) { state = full });
    }

-- Returns the address, NULL on failure.
unfoldable pub segment_create : Kernel → (arena : ℕ) → Segments → ℕ × Segments
unfolding new_segment
segment_create k arena s =
    let (mem, os) = os_mmap_aligned k segment_size segment_size s.os in
    if mem == null then (null, record s { os = os }) else (
      mem,
      record {
        segment = put mem (new_segment mem arena) s.segment;
        registry = segment_register s.registry mem;
        os = os;
      },
    )

unfoldable pub segment_destroy : ℕ → Segments → Segments
segment_destroy seg s = if seg == null then s else record s {
  registry = segment_unregister s.registry seg;
  os = os_munmap seg segment_size s.os;
}

-- `state == PAGE_UNUSED`
abbrev pub is_unused : PageState → Bool
is_unused unused = true
is_unused active = false
is_unused full = false
is_unused retired = false

-- The loop of segment_alloc_page from page `i` on, `left` rounds left: the first unused page.
unfoldable pub unused_loop : (left i : ℕ) → List Page → Option ℕ
unused_loop zero i pages = none
unused_loop (suc left) i pages =
    let rest = unused_loop left (i + 1) pages in
    if is_unused (get_or pages i (blank 0 0 0)).state then some i else rest

-- the page set up and counted
unfoldable pub open_page : SizeClasses → (base bin_idx i : ℕ) → Segment → Segment
open_page t base bin_idx i seg =
    let slot_size = u32 (bin_to_size t bin_idx) in
    record seg {
      pages = set seg.pages i (page_init (page_at seg i) base seg.arena (u16 i) bin_idx slot_size);
      pages_used = u16 (seg.pages_used + 1);
    }

-- The segment at `base`: the index of the page, or none if the segment is full.
unfoldable pub segment_alloc_page :
    SizeClasses → (base bin_idx : ℕ) → Segment → Option (ℕ × Segment)
unfolding unused_loop open_page
segment_alloc_page t base bin_idx seg =
    elim (unused_loop (pages_per_segment - pages_data_start) pages_data_start seg.pages) [
      | none ↦ none
      | some i ↦ some (i, open_page t base bin_idx i seg)
    ]

-- the fields that segment_free_page resets
abbrev pub close_page : Page → Page
close_page p = record p {
  owner_tid = no_owner;
  state = unused;
  local_free = null;
  local_free_count = 0;
  remote_free = 0;
  remote_free_count = 0;
  used = 0;
  bump_offset = 0;
  bump_end = 0;
}

-- `page` is `&seg->pages[i]`.
unfoldable pub segment_free_page : (i : ℕ) → Segment → Os → Segment × Os
segment_free_page i seg os = (
  record seg {
    pages = set seg.pages i (close_page (page_at seg i));
    pages_used = sub16 seg.pages_used 1;
  },
  os_madvise_free (page_start (page_at seg i)) page_size_alloc os,
)

-- `SEGMENT_MASK`
abbrev pub segment_mask : ℕ
segment_mask = 2 ^ 64 - segment_size

-- NULL if the segment of the address is not registered
unfoldable pub ptr_to_segment : List ℕ → ℕ → ℕ
ptr_to_segment registry addr =
    let base = bit_and addr segment_mask in
    if segment_is_registered registry base then base else null

-- The segment and the index of the page, none for NULL.
unfoldable pub ptr_to_page : List ℕ → ℕ → Option (ℕ × ℕ)
unfolding ptr_to_segment
ptr_to_page registry addr =
    let seg = ptr_to_segment registry addr in
    let page_idx = u16 (sub64 addr seg / page_size_alloc) in
    if seg == null
    then none
    else if leb pages_per_segment page_idx
    then none
    else some (seg, page_idx)
