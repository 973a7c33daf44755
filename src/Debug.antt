-- ===== src/Debug.antt =====
-- src/debug.c, where MALLOC_DEBUG is 1: one bit for each slot of a page says whether callers hold it. The
-- bitmaps stand apart from the pages, by page; abort is `none`.
pub mod Bits
pub mod Track
pub mod Caught
pub mod Count
pub mod Check
pub mod Whole
mod Tests
use malloc.Common.{
  replicate, ℕ, zero, suc, ◌+◌, ◌-◌, ◌/◌, ◌%◌, ◌^◌, Bool, true, false, ◌&&◌, ◌||◌, Option, none,
  some, List, get_or, set, ltb, leb, ◌==◌, if◌then◌else◌, bit_and, bit_or, u8, u16,
}
use mathlib.Core.Option
use malloc.Config.{page_size_alloc, min_align, pages_per_segment, pages_data_start}
use malloc.Memory.{Mem, null, not_null}
use malloc.Page.{Page, PageState, unused, active, full, retired, page_start}
use malloc.Segment.{page_at}
use malloc.Heap.{Heap, page_ref, segment_of}

-- `DEBUG_BITMAP_BYTES`
abbrev pub debug_bitmap_bytes : ℕ
debug_bitmap_bytes = page_size_alloc / min_align / 8

-- the bitmap after the memset of page_init
abbrev pub blank_bitmap : List ℕ
blank_bitmap = replicate debug_bitmap_bytes 0

-- `UINT16_MAX`, the index of no slot
abbrev pub no_index : ℕ
no_index = 0xffff

unfoldable pub debug_slot_index : Page → (ptr : ℕ) → ℕ
debug_slot_index p ptr =
    let offset = ptr - page_start p in
    let idx = u16 (offset / p.slot_size) in
    if ltb ptr (page_start p)
    then no_index
    else if offset % p.slot_size == 0
    then (if ltb idx p.capacity then idx else no_index)
    else no_index

-- `(uint8_t)(1u << (idx % 8))`
abbrev pub bit_mask : ℕ → ℕ
bit_mask idx = u8 (2 ^ (idx % 8))

-- `debug_bitmap[idx / 8] & mask`
abbrev pub test_bit : List ℕ → ℕ → Bool
test_bit bits idx = not_null (bit_and (get_or bits (idx / 8) 0) (bit_mask idx))

unfoldable pub debug_mark_allocated : Page → (ptr : ℕ) → List ℕ → Option (List ℕ)
unfolding debug_slot_index
debug_mark_allocated p ptr bits =
    let idx = debug_slot_index p ptr in
    if idx == no_index
    then none
    else if test_bit bits idx
    then none
    else some (set bits (idx / 8) (bit_or (get_or bits (idx / 8) 0) (bit_mask idx)))

unfoldable pub debug_check_and_mark_freed : Page → (ptr : ℕ) → List ℕ → Option (List ℕ)
unfolding debug_slot_index
debug_check_and_mark_freed p ptr bits =
    let idx = debug_slot_index p ptr in
    if idx == no_index
    then none
    else if test_bit bits idx
    then some
        (set bits (idx / 8) (bit_and (get_or bits (idx / 8) 0) (u8 (2 ^ 32 - 1 - bit_mask idx))))
    else none

-- `__builtin_popcount` of a byte
abbrev pub popcount : ℕ → ℕ
popcount b =
    b % 2 + b / 2 % 2 + b / 4 % 2 + b / 8 % 2 + b / 16 % 2 + b / 32 % 2 + b / 64 % 2 + b / 128 % 2

-- the loop over the bytes of a bitmap from `b` on, `left` of them left
unfoldable pub bitmap_count : (left b count : ℕ) → List ℕ → ℕ
bitmap_count zero b count bits = count
bitmap_count (suc left) b count bits =
    bitmap_count left (b + 1) (u16 (count + popcount (get_or bits b 0))) bits

-- The walk along the local free list: its length, and whether all entries are free slots. The outer
-- `none` means that the fuel ran out.
unfoldable pub free_walk : ℕ → Page → Mem → List ℕ → (entry walked : ℕ) → Bool → Option (ℕ × Bool)
unfolding debug_slot_index
free_walk zero p m bits entry walked ok = none
free_walk (suc fuel) p m bits entry walked ok =
    let walked' = u16 (walked + 1) in
    let idx = debug_slot_index p entry in
    let rest =
      free_walk fuel p m bits (m entry) walked' (if test_bit bits idx then false else ok) in
    if entry == null
    then some (walked, ok)
    else if ltb p.capacity walked'
    then some (walked', false)
    else if idx == no_index
    then some (walked', false)
    else rest

-- `bump_remaining`
abbrev pub bump_remaining : Page → ℕ
bump_remaining p =
    if ltb p.bump_offset p.bump_end then u16 ((p.bump_end - p.bump_offset) / p.slot_size) else 0

-- the comparisons of the checks 1 to 4, after the walk
unfoldable pub counts_agree : Page → List ℕ → ℕ × Bool → Bool
unfolding bitmap_count
counts_agree p bits (walked, ok) =
    (bitmap_count (u16 ((p.capacity + 7) / 8)) 0 0 bits == p.used)
    && (ok
        && ((walked == p.local_free_count)
            && (u16 (p.used + walked + p.remote_free_count + bump_remaining p) == p.capacity)))

unfoldable pub check_page : Page → Mem → List ℕ → Option Bool
unfolding free_walk counts_agree
check_page p m bits =
    Option.map (counts_agree p bits) (free_walk (p.capacity + 2) p m bits p.local_free 0 true)

-- `state` is PAGE_ACTIVE or PAGE_FULL
abbrev pub is_checked : PageState → Bool
is_checked unused = false
is_checked active = true
is_checked full = true
is_checked retired = false

-- Both passes, in this order; `none` if one of them ran out of fuel.
unfoldable pub both : Option Bool → Option Bool → Option Bool
both none s = none
both (some a) none = none
both (some a) (some b) = some (a && b)

-- the loop over the pages of a segment from `i` on, `left` of them left
unfoldable pub check_pages : (left i seg : ℕ) → Heap → (ℕ → List ℕ) → Option Bool
unfolding check_page both
check_pages zero i seg h bits = some true
check_pages (suc left) i seg h bits =
    let page = page_at (segment_of h seg) i in
    both
      (if is_checked page.state then check_page page h.mem (bits (page_ref seg i)) else some true)
      (check_pages left (i + 1) seg h bits)

-- the loop over the segments of an arena from `seg` on
unfoldable pub check_segments : ℕ → (seg : ℕ) → Heap → (ℕ → List ℕ) → Option Bool
unfolding check_pages both
check_segments zero seg h bits = if seg == null then some true else none
check_segments (suc fuel) seg h bits =
    let rest = check_segments fuel (segment_of h seg).next h bits in
    if seg == null
    then some true
    else both (check_pages (pages_per_segment - pages_data_start) pages_data_start seg h bits) rest

-- the loop over the arenas from `a` on, `left` of them left
unfoldable pub check_arenas : ℕ → (left a : ℕ) → Heap → (ℕ → List ℕ) → Option Bool
unfolding check_segments both
check_arenas fuel zero a h bits = some true
check_arenas fuel (suc left) a h bits =
    both (check_segments fuel (h.arena a).segments h bits) (check_arenas fuel left (a + 1) h bits)

-- `ok`, with fuel for the lists of segments; the messages are left out.
unfoldable pub debug_heap_check : ℕ → Heap → (ℕ → List ℕ) → Option Bool
unfolding check_arenas
debug_heap_check fuel h bits = check_arenas fuel h.arena_count 1 h bits
