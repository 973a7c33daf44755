-- ===== src/Arena.antt =====
-- src/arena.c: an arena finds a page with virgin slots or opens one. Every function but arena_get holds
-- the arena's lock. A loop over a list of pages or of segments has fuel; the outer `none` of a result
-- means that it ran out.
pub mod Scan
pub mod Take
pub mod Open
pub mod Grow
pub mod Link
pub mod Growth
pub mod Moved
pub mod Relink
pub mod Remove
pub mod Close
pub mod Lists
pub mod Listed
pub mod Retire
pub mod Insert
pub mod Alloc
pub mod Example
pub mod Emptied
mod Tests
use malloc.Common.{
  ℕ, zero, suc, ◌+◌, ◌%◌, ◌^◌, Bool, true, false, ◌&&◌, Option, none, some, replicate, get_or, set,
  ltb, ◌==◌, if◌then◌else◌, u8, u32, u64,
}
use malloc.Config.{bin_count}
use malloc.Memory.{null, not_null}
use malloc.Os.{Os, Kernel}
use malloc.Page.{Page, no_owner, bump, page_is_empty}
use malloc.Segment.{Segment, segment_create, segment_alloc_page, segment_free_page}
use malloc.Stats.{Totals}
use malloc.Heap.{
  Arena, Heap, page_ref, index_of, seg_of, segment_of, page_of, put_page, put_segment, put_arena,
}

unfoldable pub arena_init : (id : ℕ) → Arena
arena_init id = record {
  id = id;
  bins = replicate bin_count null;
  segments = null;
  segment_count = 0;
  totals = record { allocated = 0; freed = 0; alloc_count = 0; free_count = 0; thread_count = 0 };
}

abbrev pub put_next : ℕ → ℕ → Heap → Heap
put_next p v h = put_page p (record (page_of h p) { next = v }) h

abbrev pub put_prev : ℕ → ℕ → Heap → Heap
put_prev p v h = put_page p (record (page_of h p) { prev = v }) h

abbrev pub put_bin : (a bin v : ℕ) → Heap → Heap
put_bin a bin v h = put_arena a (record (h.arena a) { bins = set (h.arena a).bins bin v }) h

abbrev pub bin_head : Heap → (a bin : ℕ) → ℕ
bin_head h a bin = get_or (h.arena a).bins bin null

unfoldable pub bin_remove_page : (a page : ℕ) → Heap → Heap
bin_remove_page a page h =
    let bin = (page_of h page).bin_idx in
    let prev = (page_of h page).prev in
    let h1 = if not_null prev then put_next prev (page_of h page).next h else h in
    let next = (page_of h1 page).next in
    let h2 = if not_null next then put_prev next (page_of h1 page).prev h1 else h1 in
    let h3 = if bin_head h2 a bin == page then put_bin a bin (page_of h2 page).next h2 else h2 in
    put_prev page null (put_next page null h3)

unfoldable pub bin_insert_page : (a page : ℕ) → Heap → Heap
bin_insert_page a page h =
    let bin = (page_of h page).bin_idx in
    let head = bin_head h a bin in
    let h1 = put_next page head (put_prev page null h) in
    let h2 = if not_null head then put_prev head page h1 else h1 in put_bin a bin page h2

-- `owner == UINT32_MAX && page->bump_offset < page->bump_end`
abbrev pub has_virgin : Page → Bool
has_virgin p = (p.owner_tid == no_owner) && ltb p.bump_offset p.bump_end

-- the loop over a bin's pages, from `page` on: the first page with virgin slots that nobody owns, or NULL
unfoldable pub scan_bin : ℕ → Heap → (page : ℕ) → Option ℕ
scan_bin zero h page = if page == null then some null else none
scan_bin (suc fuel) h page =
    let rest = scan_bin fuel h (page_of h page).next in
    if page == null then some null else if has_virgin (page_of h page) then some page else rest

-- `arena->allocated += page->slot_size` and `arena->alloc_count += 1`
abbrev pub count_alloc : (a slot_size : ℕ) → Heap → Heap
count_alloc a slot_size h =
    put_arena a
      (record (h.arena a) {
        totals = record (h.arena a).totals {
          allocated = u64 ((h.arena a).totals.allocated + slot_size);
          alloc_count = u64 ((h.arena a).totals.alloc_count + 1);
        };
      })
      h

-- the next virgin slot of a page, with the arena's counts
unfoldable pub carve : (a page : ℕ) → Heap → ℕ × Heap
carve a page h =
    let (slot, taken) = bump (page_of h page) in
    (slot, count_alloc a (page_of h page).slot_size (put_page page taken h))

-- the loop over the arena's segments, from `seg` on: the page opened, or NULL
unfoldable pub open_loop : ℕ → (bin seg : ℕ) → Heap → Option (ℕ × Heap)
open_loop zero bin seg h = if seg == null then some (null, h) else none
open_loop (suc fuel) bin seg h =
    let rest = open_loop fuel bin (segment_of h seg).next h in
    if seg == null
    then some (null, h)
    else elim (segment_alloc_page h.classes seg bin (segment_of h seg)) [
      | none ↦ rest
      | some (i, s) ↦ some (page_ref seg i, put_segment seg s h)
    ]

-- `seg->next = arena->segments; if (arena->segments) arena->segments->prev = seg;
-- arena->segments = seg; arena->segment_count++`
unfoldable pub link_segment : (a seg : ℕ) → Heap → Heap
link_segment a seg h =
    let head = (h.arena a).segments in
    let h1 = put_segment seg (record (segment_of h seg) { next = head }) h in
    let h2 =
      if not_null head
      then put_segment head (record (segment_of h1 head) { prev = seg }) h1
      else h1 in
    put_arena a
      (record (h2.arena a) { segments = seg; segment_count = u32 ((h2.arena a).segment_count + 1) })
      h2

-- a new segment of the arena, and its first page
unfoldable pub grow : Kernel → (a bin : ℕ) → Heap → ℕ × Heap
unfolding link_segment
grow k a bin h =
    let (seg, segs) = segment_create k a h.segs in
    if seg == null
    then (null, record h { segs = segs })
    else (let h' = link_segment a seg (record h { segs = segs }) in
        elim (segment_alloc_page h'.classes seg bin (segment_of h' seg)) [
          | none ↦ (null, h')
          | some (i, s) ↦ (page_ref seg i, put_segment seg s h')
        ])

-- arena_alloc once `bin` is known
unfoldable pub alloc_from_bin : Kernel → ℕ → (a bin : ℕ) → Heap → Option (ℕ × Heap)
unfolding scan_bin carve open_loop grow bin_insert_page
alloc_from_bin k fuel a bin h = elim (scan_bin fuel h (bin_head h a bin)) [
  | none ↦ none
  | some page ↦
      if not_null page
      then some (carve a page h)
      else elim (open_loop fuel bin (h.arena a).segments h) [
        | none ↦ none
        | some (found, h1) ↦
            let (opened, h2) = if not_null found then (found, h1) else grow k a bin h1 in
            if opened == null
            then some (null, h2)
            else some (carve a opened (bin_insert_page a opened h2))
      ]
]

-- A slot, NULL if there is no memory.
unfoldable pub arena_alloc : Kernel → ℕ → (a bin_idx : ℕ) → Heap → Option (ℕ × Heap)
unfolding alloc_from_bin
arena_alloc k fuel a bin_idx h = alloc_from_bin k fuel a (u8 bin_idx) h

-- retirement of a page that has become empty
unfoldable pub arena_free : (a page : ℕ) → Heap → Heap
unfolding bin_remove_page
arena_free a page h =
    if page_is_empty (page_of h page)
    then (let removed = bin_remove_page a page h in
        let seg = seg_of page in
        let (s, os) = segment_free_page (index_of page) (segment_of removed seg) removed.segs.os in
        let freed = put_segment seg s removed in
        record freed { segs = record freed.segs { os = os } })
    else h
