-- ===== src/Api.antt =====
-- src/malloc.c: the public functions, each called by one thread that runs undisturbed. What they write to
-- the memory of their callers is a list of the calls of memset and memcpy.
pub mod Start
pub mod Aligned
pub mod Malloc
pub mod Free
pub mod Calloc
pub mod Known
pub mod Drift
pub mod Realloc
mod Tests
use malloc.Common.{
  ℕ, ◌+◌, ◌-◌, ◌*◌, ◌^◌, ◌⊎◌, inl, inr, Bool, true, false, ◌&&◌, ◌||◌, not, Option, none, some,
  List, [], ◌∷◌, ltb, leb, ◌==◌, if◌then◌else◌, bit_and, u64, sub64,
}
use mathlib.Core.Option
use malloc.Common.Mask.{align_up}
use malloc.Config.{medium_max, min_align, page_size_alloc, bootstrap_buf_size}
use malloc.Init.{Global, set_up}
use malloc.Memory.{null, not_null}
use malloc.Os.{Kernel, os_page_size}
use malloc.Large.{
  Large, LargeAlloc, large_alloc, large_alloc_aligned, large_find, large_free, large_usable_size,
  store,
}
use malloc.Segment.{ptr_to_segment, ptr_to_page}
use malloc.SizeClass.{size_to_bin}
use malloc.Heap.{Heap, page_ref, page_of}
use malloc.Arena.{arena_init}
use malloc.Thread.{State, with_os}
use malloc.Slab.{Answer, slab_alloc, slab_alloc_zeroed, slab_free}

-- `ENOMEM` and `EINVAL`, whose values are the system's
pub data Errno : Type 0 where
  enomem : Errno
  einval : Errno

pub data Write : Type 0 where
  memset : (ptr value size : ℕ) → Write
  memcpy : (to from size : ℕ) → Write

-- The allocator, the last errno that it has set, and its writes, the latest first.
pub record Process : Type 0 where
  pub state : State
  pub errno : Option Errno
  pub writes : List Write

abbrev pub with_state : Process → State → Process
with_state s t = record s { state = t }

abbrev pub wrote : Write → Process → Process
wrote w s = record s { writes = w ∷ s.writes }

-- malloc_ensure_init, of a thread that finds the allocator untouched or initialised
unfoldable pub malloc_ensure_init : State → State
malloc_ensure_init s =
    if s.initialized == 2
    then s
    else (let g = set_up (record {
      initialized = s.initialized;
      segment_registry = s.heap.segs.registry;
      classes = s.heap.classes;
      arena_count = s.heap.arena_count;
      arena_next = s.heap.arena_next;
      large_list = s.large.large_list;
      bootstrap_used = s.bootstrap_used;
    }) in
        record s {
          initialized = g.initialized;
          heap = record s.heap {
            segs = record s.heap.segs { registry = g.segment_registry };
            arena =
                λ a. if leb 1 a && leb a g.arena_count then arena_init (a - 1) else s.heap.arena a;
            arena_count = g.arena_count;
            arena_next = g.arena_next;
            classes = g.classes;
          };
          large = record s.large { large_list = g.large_list };
          bootstrap_used = g.bootstrap_used;
        })

-- what large.c returns, with the operating system that it shares with the segments
abbrev pub with_large : State → ℕ × Large → ℕ × State
with_large s (ptr, l) = (ptr, record (with_os l.os s) { large = l })

unfoldable pub my_malloc : Kernel → ℕ → (size : ℕ) → State → Option (ℕ × State)
unfolding malloc_ensure_init
my_malloc k fuel size s =
    let s' = malloc_ensure_init s in
    let size = if size == 0 then 1 else size in
    if ltb medium_max size
    then some (with_large s' (large_alloc k size s'.large))
    else slab_alloc k fuel size s'

-- `addr >= buf_start && addr < buf_start + BOOTSTRAP_BUF_SIZE`
abbrev pub in_bootstrap : State → ℕ → Bool
in_bootstrap s ptr = leb s.bootstrap_buf ptr && ltb ptr (u64 (s.bootstrap_buf + bootstrap_buf_size))

-- The free of a pointer without a segment; `none` means that the fuel of large_free ran out.
unfoldable pub free_large : (ptr : ℕ) → State → Option State
free_large ptr s = Option.map (λ l. record (with_os l.os s) { large = l }) (large_free s.large ptr)

unfoldable pub my_free : Kernel → (ptr : ℕ) → State → Option State
unfolding free_large
my_free k ptr s =
    if ptr == null
    then some s
    else if in_bootstrap s ptr
    then some s
    else if not_null (ptr_to_segment s.heap.segs.registry ptr)
    then some (slab_free k ptr s)
    else free_large ptr s

-- the memset of my_calloc, for a slot that is not known to be zero
unfoldable pub cleared : (total : ℕ) → Process → Answer × State → ℕ × Process
cleared total s (answer, t) = (
  answer.slot,
  if not_null answer.slot && not answer.zeroed
      then wrote (memset answer.slot 0 total) (with_state s t)
      else with_state s t,
)

unfoldable pub my_calloc : Kernel → ℕ → (count size : ℕ) → Process → Option (ℕ × Process)
unfolding malloc_ensure_init cleared
my_calloc k fuel count size s =
    if leb (2 ^ 64) (count * size)
    then some (null, record s { errno = some enomem })
    else (let s' = malloc_ensure_init s.state in
        let total = if count * size == 0 then 1 else count * size in
        if ltb medium_max total
        then (let (ptr, t) = with_large s' (large_alloc k total s'.large) in
            some (ptr, with_state s t))
        else Option.map (cleared total (with_state s s')) (slab_alloc_zeroed k fuel total s'))

-- `alignment == 0 || (alignment & (alignment - 1)) != 0`
abbrev pub bad_alignment : ℕ → Bool
bad_alignment alignment = (alignment == 0) || not_null (bit_and alignment (sub64 alignment 1))

-- the size that my_memalign asks the slab layer for
unfoldable pub aligned_size : (alignment size : ℕ) → ℕ
aligned_size alignment size = align_up (if ltb size alignment then alignment else size) alignment

-- large_alloc_aligned for my_memalign
unfoldable pub memalign_large : Kernel → (alignment size : ℕ) → Process → Option (ℕ × Process)
memalign_large k alignment size s =
    let r = with_large s.state (large_alloc_aligned k size alignment s.state.large) in
    some (r.0, with_state s r.1)

unfoldable pub my_memalign : Kernel → ℕ → (alignment size : ℕ) → Process → Option (ℕ × Process)
unfolding my_malloc aligned_size malloc_ensure_init memalign_large
my_memalign k fuel alignment size s =
    let s' = with_state s (malloc_ensure_init s.state) in
    if bad_alignment alignment
    then some (null, record s' { errno = some einval })
    else if leb alignment min_align
    then Option.map (λ (ptr, t). (ptr, with_state s' t)) (my_malloc k fuel size s'.state)
    else if ltb medium_max size || ltb page_size_alloc alignment
    then memalign_large k alignment size s'
    else if ltb medium_max (aligned_size alignment size)
    then memalign_large k alignment size s'
    else Option.map (λ (ptr, t). (ptr, with_state s' t))
        (slab_alloc k fuel (aligned_size alignment size) s'.state)

-- What my_posix_memalign returns: an error, or 0 with the pointer stored in `*memptr`.
unfoldable pub my_posix_memalign :
    Kernel → ℕ → (alignment size : ℕ) → Process → Option ((Errno ⊎ ℕ) × Process)
unfolding my_memalign
my_posix_memalign k fuel alignment size s =
    if ltb alignment 8 || not_null (bit_and alignment (sub64 alignment 1))
    then some (inl einval, s)
    else Option.map (λ (ptr, t). (if ptr == null then inl enomem else inr ptr, t))
        (my_memalign k fuel alignment size s)

unfoldable pub my_valloc : Kernel → ℕ → (size : ℕ) → Process → Option (ℕ × Process)
unfolding my_memalign
my_valloc k fuel size s = my_memalign k fuel (os_page_size k) size s

-- The page of a pointer, if the segment and the page are known.
unfoldable pub known_page : State → (ptr : ℕ) → Option ℕ
known_page s ptr =
    if not_null (ptr_to_segment s.heap.segs.registry ptr)
    then Option.map (λ (seg, i). page_ref seg i) (ptr_to_page s.heap.segs.registry ptr)
    else none

unfoldable pub my_malloc_usable_size : (ptr : ℕ) → State → Option ℕ
unfolding known_page
my_malloc_usable_size ptr s = if ptr == null then some 0 else (elim (known_page s ptr) [
  | some p ↦ some (page_of s.heap p).slot_size
  | none ↦ large_usable_size s.large ptr
])

-- `memcpy(new_ptr, ptr, copied)` and the free of the old memory, if there is new memory
unfoldable pub move_to : Kernel → (ptr copied : ℕ) → Process → ℕ × State → Option (ℕ × Process)
unfolding my_free
move_to k ptr copied s (new_ptr, t) =
    if new_ptr == null
    then some (null, with_state s t)
    else Option.map (λ u. (new_ptr, wrote (memcpy new_ptr ptr copied) (with_state s u)))
        (my_free k ptr t)

-- `new_size` bytes elsewhere, with what fits of `old_size` bytes
unfoldable pub reallocate :
    Kernel → ℕ → (ptr old_size new_size : ℕ) → Process → Option (ℕ × Process)
unfolding my_malloc move_to
reallocate k fuel ptr old_size new_size s = elim (my_malloc k fuel new_size s.state) [
  | none ↦ none
  | some r ↦ move_to k ptr (if ltb old_size new_size then old_size else new_size) s r
]

-- my_realloc of a pointer into the large allocation at `la`
unfoldable pub realloc_large : Kernel → ℕ → (ptr new_size la : ℕ) → Process → Option (ℕ × Process)
unfolding reallocate
realloc_large k fuel ptr new_size la s =
    let l = s.state.large in
    let header = l.headers la in
    if la == null
    then some (null, s)
    else if leb new_size (sub64 header.size (sub64 ptr header.base))
    then some (
      ptr,
      with_state s (record s.state {
        large = record l { headers = store l.headers la (record header { user_size = new_size }) };
      }),
    )
    else reallocate k fuel ptr header.user_size new_size s

-- my_realloc of a pointer that is neither NULL nor in the bootstrap buffer
unfoldable pub realloc_known : Kernel → ℕ → (ptr new_size : ℕ) → Process → Option (ℕ × Process)
unfolding known_page reallocate realloc_large
realloc_known k fuel ptr new_size s = elim (known_page s.state ptr) [
  | some p ↦
      let page = page_of s.state.heap p in
      if leb new_size page.slot_size && (size_to_bin s.state.heap.classes new_size == page.bin_idx)
      then some (ptr, s)
      else reallocate k fuel ptr page.slot_size new_size s
  | none ↦ elim (large_find s.state.large ptr) [
    | none ↦ none
    | some la ↦ realloc_large k fuel ptr new_size la s
  ]
]

unfoldable pub my_realloc : Kernel → ℕ → (ptr new_size : ℕ) → Process → Option (ℕ × Process)
unfolding my_malloc my_free realloc_known malloc_ensure_init
my_realloc k fuel ptr new_size s =
    let s' = with_state s (malloc_ensure_init s.state) in
    if ptr == null
    then Option.map (λ (p, t). (p, with_state s t)) (my_malloc k fuel new_size s.state)
    else if new_size == 0
    then Option.map (λ t. (null, with_state s t)) (my_free k ptr s.state)
    else if in_bootstrap s'.state ptr
    then Option.map
        (λ (p, t). (
          p,
          if not_null p then wrote (memcpy p ptr new_size) (with_state s' t) else with_state s' t,
        ))
        (my_malloc k fuel new_size s'.state)
    else realloc_known k fuel ptr new_size s'
