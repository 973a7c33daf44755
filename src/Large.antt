-- ===== src/Large.antt =====
-- src/large.c and `large_alloc_s` of include/malloc_types.h: allocations with a mapping of their
-- own, their headers in a doubly linked list. Every function holds `large_lock` while it touches the
-- list. A loop over the list has `large_alloc_count`, the number of headers in it, as fuel.
mod Tests
pub mod Linked
pub mod Find
pub mod Unlink
pub mod Free
pub mod Alloc
pub mod Block
use malloc.Common.{
  ℕ, zero, suc, ◌+◌, Bool, ◌&&◌, Option, none, some, ◌==◌, ltb, leb, if◌then◌else◌, u64, sub64,
}
use mathlib.Core.Option
use malloc.Common.Mask.{align_up}
use malloc.Config.{min_align}
use malloc.Memory.{null, not_null}
use malloc.Os.{Os, Kernel, os_mmap_aligned, os_munmap, os_page_size}

-- `large_alloc_t`; a header is known by its address, which is the `base` of its mapping.
pub record LargeAlloc : Type 0 where
  pub base : ℕ
  pub size : ℕ
  pub user_size : ℕ
  pub next : ℕ
  pub prev : ℕ

-- the headers in memory, by address
abbrev pub Headers : Type 0
Headers = ℕ → LargeAlloc

abbrev pub store : Headers → ℕ → LargeAlloc → Headers
store h a la b = if a == b then la else h b

-- `a->next = v` and `a->prev = v`
abbrev pub set_next : ℕ → ℕ → Headers → Headers
set_next a v h b = if a == b then record (h b) { next = v } else h b

abbrev pub set_prev : ℕ → ℕ → Headers → Headers
set_prev a v h b = if a == b then record (h b) { prev = v } else h b

-- the fields of g_state that large.c uses
pub record Large : Type 0 where
  pub large_list : ℕ
  pub headers : Headers
  pub large_allocated : ℕ
  pub large_alloc_count : ℕ
  pub os : Os

-- `(sizeof(large_alloc_t) + MIN_ALIGN - 1) & ~(MIN_ALIGN - 1)`, five words rounded up
abbrev pub large_header_size : ℕ
large_header_size = 48

-- The links, from the lock to the unlock, for the header at `la`, whose other fields are given.
unfoldable pub link : (la size user_size : ℕ) → Large → Large
link la size user_size s =
    let h = store s.headers la (record {
      base = la;
      size = size;
      user_size = user_size;
      next = s.large_list;
      prev = null;
    }) in
    record s {
      large_list = la;
      headers = if not_null s.large_list then set_prev s.large_list la h else h;
    }

-- header_space, for an alignment that is at least MIN_ALIGN
abbrev pub header_space : ℕ → ℕ
header_space alignment = align_up large_header_size alignment

-- total, the length of the mapping
abbrev pub total_size : (page_size size alignment : ℕ) → ℕ
total_size page_size size alignment = align_up (u64 (header_space alignment + size)) page_size

-- from the header's first field to the last counter, once the mapping is there
unfoldable pub enlist : (base total size : ℕ) → Os → Large → Large
unfolding link
enlist base total size os s = record (link base total size s) {
  large_allocated = u64 (s.large_allocated + size);
  large_alloc_count = u64 (s.large_alloc_count + 1);
  os = os;
}

unfoldable pub large_alloc_aligned : Kernel → (size alignment : ℕ) → Large → ℕ × Large
unfolding enlist os_page_size
large_alloc_aligned k size alignment s =
    let alignment = if ltb alignment min_align then min_align else alignment in
    let os_page = os_page_size k in
    let total = total_size os_page size alignment in
    let (base, os) =
      os_mmap_aligned k total (if ltb alignment os_page then os_page else alignment) s.os in
    if base == null
    then (null, record s { os = os })
    else (u64 (base + header_space alignment), enlist base total size os s)

unfoldable pub large_alloc : Kernel → (size : ℕ) → Large → ℕ × Large
unfolding large_alloc_aligned
large_alloc k size s = large_alloc_aligned k size min_align s

-- `ptr >= base && ptr < end`
abbrev pub covers : LargeAlloc → ℕ → Bool
covers la ptr = leb la.base ptr && ltb ptr (u64 (la.base + la.size))

-- The loop of large_find and of large_free: the first header from `la` on whose mapping holds ptr,
-- NULL if there is none. The outer `none` means that the fuel ran out.
unfoldable pub find_loop : ℕ → Headers → (ptr la : ℕ) → Option ℕ
find_loop zero h ptr la = if la == null then some null else none
find_loop (suc fuel) h ptr la =
    let rest = find_loop fuel h ptr (h la).next in
    if la == null then some null else if covers (h la) ptr then some la else rest

unfoldable pub large_find : Large → ℕ → Option ℕ
unfolding find_loop
large_find s ptr = find_loop s.large_alloc_count s.headers ptr s.large_list

unfoldable pub large_usable_size : Large → ℕ → Option ℕ
unfolding large_find
large_usable_size s ptr =
    Option.map (λ la. if not_null la then (s.headers la).user_size else 0) (large_find s ptr)

-- The three statements that take the header at `la` out of the list. No header is a neighbour of
-- itself, so its fields are read once.
unfoldable pub unlink : ℕ → Large → Large
unlink la s =
    let prev = (s.headers la).prev in
    let next = (s.headers la).next in
    let h = if not_null prev then set_next prev next s.headers else s.headers in
    record s {
      headers = if not_null next then set_prev next prev h else h;
      large_list = if s.large_list == la then next else s.large_list;
    }

-- The header's fields are read before the list is unlocked and its memory unmapped.
unfoldable pub drop : ℕ → Large → Large
unfolding unlink
drop la s =
    let header = s.headers la in
    record (unlink la s) {
      large_allocated = sub64 s.large_allocated header.user_size;
      large_alloc_count = sub64 s.large_alloc_count 1;
      os = os_munmap header.base header.size s.os;
    }

unfoldable pub large_free : Large → ℕ → Option Large
unfolding find_loop drop
large_free s ptr =
    if ptr == null
    then some s
    else Option.map (λ la. if not_null la then drop la s else s)
        (find_loop s.large_alloc_count s.headers ptr s.large_list)
