-- ===== src/Heap.antt =====
-- The state that src/arena.c and src/slab.c work on: `arena_s` of include/malloc_types.h, the segments
-- with their pages, and the memory of the free slots. The arena `g_state.arenas[i]` is known as i + 1,
-- and a page's metadata `&seg->pages[i]` as seg + i, an address in the header of its segment; 0 is NULL.
pub mod Refs
pub mod Valid
pub mod Update
pub mod Apart
pub mod Frame
use malloc.Common.{ℕ, ◌+◌, ◌-◌, ◌%◌, ◌^◌, List, set, if◌then◌else◌, ◌==◌}
use malloc.Config.{segment_size}
use malloc.Memory.{Mem}
use malloc.Page.{Page}
use malloc.Segment.{Segment, Segments, put, page_at}
use malloc.SizeClass.{SizeClasses}
use malloc.Stats.{Totals}

-- `arena_t` without its lock
pub record Arena : Type 0 where
  pub id : ℕ  -- uint32_t
  pub bins : List ℕ
  pub segments : ℕ
  pub segment_count : ℕ  -- uint32_t
  pub totals : Totals

pub record Heap : Type 0 where
  pub segs : Segments
  pub mem : Mem
  pub arena : ℕ → Arena
  pub arena_count : ℕ  -- int, as its 32-bit word
  pub arena_next : ℕ  -- int, as its 32-bit word
  pub classes : SizeClasses

-- `&seg->pages[i]`, and the segment and the index of a page
abbrev pub page_ref : ℕ → ℕ → ℕ
page_ref seg i = seg + i

abbrev pub index_of : ℕ → ℕ
index_of p = p % segment_size

abbrev pub seg_of : ℕ → ℕ
seg_of p = p - p % segment_size

abbrev pub segment_of : Heap → ℕ → Segment
segment_of h seg = h.segs.segment seg

-- `*p` for a page
abbrev pub page_of : Heap → ℕ → Page
page_of h p = page_at (segment_of h (seg_of p)) (index_of p)

abbrev pub put_segment : ℕ → Segment → Heap → Heap
put_segment seg s h = record h { segs = record h.segs { segment = put seg s h.segs.segment } }

-- `*p = page`
abbrev pub put_page : ℕ → Page → Heap → Heap
put_page p page h =
    put_segment (seg_of p)
      (record (segment_of h (seg_of p)) {
        pages = set (segment_of h (seg_of p)).pages (index_of p) page;
      })
      h

abbrev pub put_arena : ℕ → Arena → Heap → Heap
put_arena a arena h = record h { arena = λ b. if a == b then arena else h.arena b }
