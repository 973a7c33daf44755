-- ===== src/Zone/Relief.antt =====
-- zone_pressure_relief of src/zone.c.
pub mod Pages
pub mod Lost
use malloc.Common.{
  ℕ, zero, suc, ◌+◌, ◌-◌, ◌^◌, ◌%◌, ◌&&◌, Option, none, some, ◌==◌, if◌then◌else◌, u64,
}
use malloc.Config.{page_size_alloc, pages_per_segment, pages_data_start}
use malloc.Memory.{null}
use malloc.Os.{Os, os_madvise_free}
use malloc.Page.{Page, page_start, page_is_empty}
use malloc.Segment.{page_at}
use malloc.Slab.{is_active}
use malloc.Heap.{Heap, segment_of}

-- one page: the kernel's record, and `released`
unfoldable pub relieve_page : Page → Os × ℕ → Os × ℕ
relieve_page p (os, released) =
    if is_active p.state && page_is_empty p
    then (os_madvise_free (page_start p) page_size_alloc os, u64 (released + page_size_alloc))
    else (os, released)

-- the loop over the pages of a segment from `i` on, `left` of them left
unfoldable pub relieve_pages : (left i seg : ℕ) → Heap → Os × ℕ → Os × ℕ
unfolding relieve_page
relieve_pages zero i seg h r = r
relieve_pages (suc left) i seg h r =
    relieve_pages left (i + 1) seg h (relieve_page (page_at (segment_of h seg) i) r)

-- The loop over the segments of an arena from `seg` on; `none` means that the fuel ran out.
unfoldable pub relieve_segments : ℕ → (seg : ℕ) → Heap → Os × ℕ → Option (Os × ℕ)
unfolding relieve_pages
relieve_segments zero seg h r = if seg == null then some r else none
relieve_segments (suc fuel) seg h r =
    let rest =
      relieve_segments fuel (segment_of h seg).next h
        (relieve_pages (pages_per_segment - pages_data_start) pages_data_start seg h r) in
    if seg == null then some r else rest

-- the loop over the arenas from `a` on, `left` of them left
unfoldable pub relieve_arenas : ℕ → (left a : ℕ) → Heap → Os × ℕ → Option (Os × ℕ)
unfolding relieve_segments
relieve_arenas fuel zero a h r = some r
relieve_arenas fuel (suc left) a h r = elim (relieve_segments fuel (h.arena a).segments h r) [
  | none ↦ none
  | some t ↦ relieve_arenas fuel left (a + 1) h t
]

-- The kernel's record, which is all that changes, and the bytes released.
unfoldable pub zone_pressure_relief : ℕ → Heap → Option (Os × ℕ)
unfolding relieve_arenas
zone_pressure_relief fuel h = relieve_arenas fuel h.arena_count 1 h (h.segs.os, 0)
