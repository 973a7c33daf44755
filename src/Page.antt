-- ===== src/Page.antt =====
-- src/page.c and `page_meta_s` of include/malloc_types.h: slabs of slots of one size, with a bump
-- pointer, a local free list and a remote free list. The free lists lie in the slots themselves.
pub mod Invariant
pub mod Init
pub mod Kept
pub mod Collect
pub mod Alloc
pub mod Free
pub mod Safety
mod Tests
use malloc.Common.{
  ℕ, zero, suc, ◌+◌, ◌-◌, ◌*◌, ◌/◌, ◌%◌, ◌^◌, Bool, ◌&&◌, Option, none, some, bit_and, ltb, ◌==◌,
  if◌then◌else◌, u16, u32, u64, sub16,
}
use mathlib.Core.Option
use malloc.Config.{page_size_alloc, min_align}
use malloc.Memory.{Mem, null, not_null, write}
use malloc.Atomic.{treiber_push, treiber_collect}

-- `page_state_t`
pub data PageState : Type 0 where
  unused active full retired : PageState

-- Pointers are addresses; `arena`, `next` and `prev` are only copied here.
pub record Page : Type 0 where
  pub arena : ℕ
  pub segment : ℕ
  pub owner_tid : ℕ  -- uint32_t
  pub bin_idx : ℕ  -- uint8_t
  pub state : PageState
  pub slot_size : ℕ  -- uint32_t
  pub capacity : ℕ  -- uint16_t
  pub used : ℕ  -- uint16_t
  pub bump_offset : ℕ  -- uint32_t
  pub bump_end : ℕ  -- uint32_t
  pub local_free : ℕ
  pub local_free_count : ℕ  -- uint16_t
  pub remote_free : ℕ  -- the tagged word
  pub remote_free_count : ℕ  -- uint16_t
  pub next : ℕ
  pub prev : ℕ
  pub page_index : ℕ  -- uint16_t

-- UINT32_MAX, the owner of a page that no thread has claimed
abbrev pub no_owner : ℕ
no_owner = 0xffff_ffff

-- page_start of segment.c
abbrev pub page_start : Page → ℕ
page_start p = u64 (p.segment + p.page_index * page_size_alloc)

-- `(s + (MIN_ALIGN - 1)) & ~(MIN_ALIGN - 1)` on uint32_t
unfoldable pub round_slot : ℕ → ℕ
round_slot s = bit_and (u32 (s + (min_align - 1))) (2 ^ 32 - min_align)

-- `arena` is `seg->arena`.
unfoldable pub page_init : Page → (seg arena page_index bin_idx slot_size : ℕ) → Page
unfolding round_slot
page_init p seg arena page_index bin_idx slot_size =
    let size = round_slot (if ltb slot_size min_align then min_align else slot_size) in
    let capacity = u16 (page_size_alloc / size) in
    record {
      arena = arena;
      segment = seg;
      owner_tid = no_owner;
      bin_idx = bin_idx;
      state = active;
      slot_size = size;
      capacity = capacity;
      used = 0;
      bump_offset = 0;
      bump_end = u32 (capacity * size);
      local_free = null;
      local_free_count = 0;
      remote_free = 0;
      remote_free_count = 0;
      next = null;
      prev = null;
      page_index = page_index;
    }

-- the statements that take the head of the local free list
unfoldable pub pop_local : Page → Mem → ℕ × Page
pop_local p m = (
  p.local_free,
  record p {
    local_free = m p.local_free;
    local_free_count = sub16 p.local_free_count 1;
    used = u16 (p.used + 1);
  },
)

-- the statements that carve the next virgin slot
unfoldable pub bump : Page → ℕ × Page
bump p = (
  u64 (page_start p + p.bump_offset),
  record p { bump_offset = u32 (p.bump_offset + p.slot_size); used = u16 (p.used + 1) },
)

-- The `while` of page_collect_remote from a node that is not NULL: the count and the last node.
-- `none` means that the fuel ran out.
walk : ℕ → Mem → (current count : ℕ) → Option (ℕ × ℕ)
walk zero m current count = none
walk (suc fuel) m current count =
    let rest = walk fuel m (m current) (u16 (count + 1)) in
    if m current == null then some (u16 (count + 1), current) else rest

-- A list of more nodes than the page has slots would have to be a cycle, so `capacity` is fuel
-- enough.
unfoldable pub page_collect_remote : Page → Mem → Option (Page × Mem)
unfolding walk
page_collect_remote p m =
    let (list, head) = treiber_collect p.remote_free in
    if list == null
    then some (p, m)
    else Option.map
        (λ (count, tail). (
          record p {
            local_free = list;
            local_free_count = u16 (p.local_free_count + count);
            remote_free = head;
            remote_free_count = sub16 p.remote_free_count count;
          },
          if tail == null then m else write m tail p.local_free,
        ))
        (walk p.capacity m list 0)

-- page_alloc_slot after the remote frees have been collected
unfoldable pub take_local : Page → Mem → ℕ × Page × Mem
take_local p m =
    if not_null p.local_free
    then (let (slot, p') = pop_local p m in (slot, p', m))
    else (null, p, m)

-- NULL if the page is full
unfoldable pub page_alloc_slot : Page → Mem → Option (ℕ × Page × Mem)
page_alloc_slot p m =
    if not_null p.local_free
    then (let (slot, p') = pop_local p m in some (slot, p', m))
    else if ltb p.bump_offset p.bump_end
    then (let (slot, p') = bump p in some (slot, p', m))
    else Option.map (λ (q, n). take_local q n) (page_collect_remote p m)

unfoldable pub page_free_slot_local : Page → Mem → ℕ → Page × Mem
page_free_slot_local p m ptr = (
  record p {
    local_free = ptr;
    local_free_count = u16 (p.local_free_count + 1);
    used = sub16 p.used 1;
  },
  write m ptr p.local_free,
)

unfoldable pub page_free_slot_remote : Page → Mem → ℕ → Page × Mem
page_free_slot_remote p m ptr =
    let (head, n) = treiber_push p.remote_free ptr 0 m in
    (
      record p {
        remote_free = head;
        remote_free_count = u16 (p.remote_free_count + 1);
        used = sub16 p.used 1;
      },
      n,
    )

unfoldable pub page_is_empty : Page → Bool
page_is_empty p = (p.used == 0) && ltb 0 p.bump_offset

-- the new state; the madvise of the page's memory is the second part: its start and length
unfoldable pub page_retire : Page → Page × (ℕ × ℕ)
page_retire p = (record p { state = retired }, (page_start p, page_size_alloc))
