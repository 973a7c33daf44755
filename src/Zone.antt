-- ===== src/Zone.antt =====
-- src/zone.c: the zone that macOS calls, and the symbols that take the place of the system's. The zone
-- argument, which every function ignores, is left out. The locks are in Zone/Lock, the statistics in
-- Zone/Statistics, the pressure relief in Zone/Relief.
pub mod Lock
pub mod Statistics
pub mod Relief
pub mod Claim
mod Tests
use malloc.Common.{
  ℕ, zero, suc, ◌+◌, ◌⊎◌, Bool, true, false, Option, none, some, List, [], ◌∷◌, ltb, ◌==◌,
  if◌then◌else◌,
}
use mathlib.Core.Option
use malloc.Common.Mask.{align_up}
use malloc.Config.{medium_max}
use malloc.Memory.{null, not_null}
use malloc.Os.{Kernel, os_page_size}
use malloc.Large.{large_find}
use malloc.Segment.{ptr_to_segment}
use malloc.SizeClass.{SizeClasses, size_to_bin, bin_to_size}
use malloc.Thread.{State}
use malloc.Api.{
  Process, Errno, malloc_ensure_init, in_bootstrap, my_malloc, my_free, my_calloc, my_realloc,
  my_memalign, my_posix_memalign, my_valloc, my_malloc_usable_size,
}

abbrev pub zone_size : (ptr : ℕ) → State → Option ℕ
zone_size = my_malloc_usable_size

abbrev pub zone_malloc : Kernel → ℕ → (size : ℕ) → State → Option (ℕ × State)
zone_malloc = my_malloc

abbrev pub zone_calloc : Kernel → ℕ → (count size : ℕ) → Process → Option (ℕ × Process)
zone_calloc = my_calloc

abbrev pub zone_valloc : Kernel → ℕ → (size : ℕ) → Process → Option (ℕ × Process)
zone_valloc = my_valloc

abbrev pub zone_free : Kernel → (ptr : ℕ) → State → Option State
zone_free = my_free

abbrev pub zone_realloc : Kernel → ℕ → (ptr size : ℕ) → Process → Option (ℕ × Process)
zone_realloc = my_realloc

abbrev pub zone_memalign : Kernel → ℕ → (alignment size : ℕ) → Process → Option (ℕ × Process)
zone_memalign = my_memalign

abbrev pub zone_free_definite_size : Kernel → (ptr size : ℕ) → State → Option State
zone_free_definite_size k ptr size = my_free k ptr

abbrev pub zone_destroy : State → State
zone_destroy s = s

unfoldable pub zone_good_size : Kernel → SizeClasses → (size : ℕ) → ℕ
zone_good_size k c size =
    let size = if size == 0 then 1 else size in
    if ltb medium_max size
    then align_up size (os_page_size k)
    else bin_to_size c (size_to_bin c size)

-- The loop of zone_batch_malloc with `left` rounds left: the cells of `results` that it writes, `count`, and
-- the state. `none` means that the fuel of my_malloc ran out.
unfoldable pub zone_batch_malloc :
    Kernel → ℕ → (size num_requested : ℕ) → State → Option (List ℕ × ℕ × State)
unfolding my_malloc
zone_batch_malloc k fuel size zero s = some ([], 0, s)
zone_batch_malloc k fuel size (suc left) s = elim (my_malloc k fuel size s) [
  | none ↦ none
  | some (ptr, t) ↦
      let rest = zone_batch_malloc k fuel size left t in
      if ptr == null
      then some (null ∷ [], 0, t)
      else Option.map (λ (results, count, u). (ptr ∷ results, count + 1, u)) rest
]

-- The loop of zone_batch_free over the pointers that are left: what it leaves in their cells, and the state.
unfoldable pub zone_batch_free : Kernel → (to_be_freed : List ℕ) → State → Option (List ℕ × State)
unfolding my_free
zone_batch_free k [] s = some ([], s)
zone_batch_free k (ptr ∷ ptrs) s = elim (my_free k ptr s) [
  | none ↦ none
  | some t ↦ Option.map (λ (cells, u). (null ∷ cells, u)) (zone_batch_free k ptrs t)
]

-- `none` means that the fuel of large_find ran out.
unfoldable pub zone_claimed_address : (ptr : ℕ) → State → Option Bool
zone_claimed_address ptr s =
    if ptr == null
    then some false
    else if in_bootstrap s ptr
    then some true
    else if not_null (ptr_to_segment s.heap.segs.registry ptr)
    then some true
    else Option.map not_null (large_find s.large ptr)

-- The calls of the system's zone list are left out.
abbrev pub zone_register : State → State
zone_register = malloc_ensure_init

abbrev pub zone_init_constructor : State → State
zone_init_constructor = zone_register

-- the interposed symbols
abbrev pub malloc_symbol : Kernel → ℕ → (size : ℕ) → State → Option (ℕ × State)
malloc_symbol = my_malloc

abbrev pub free_symbol : Kernel → (ptr : ℕ) → State → Option State
free_symbol = my_free

abbrev pub calloc_symbol : Kernel → ℕ → (count size : ℕ) → Process → Option (ℕ × Process)
calloc_symbol = my_calloc

abbrev pub realloc_symbol : Kernel → ℕ → (ptr size : ℕ) → Process → Option (ℕ × Process)
realloc_symbol = my_realloc

abbrev pub valloc_symbol : Kernel → ℕ → (size : ℕ) → Process → Option (ℕ × Process)
valloc_symbol = my_valloc

abbrev pub posix_memalign_symbol :
    Kernel → ℕ → (alignment size : ℕ) → Process → Option ((Errno ⊎ ℕ) × Process)
posix_memalign_symbol = my_posix_memalign

abbrev pub malloc_usable_size_symbol : (ptr : ℕ) → State → Option ℕ
malloc_usable_size_symbol = my_malloc_usable_size

abbrev pub malloc_size_symbol : (ptr : ℕ) → State → Option ℕ
malloc_size_symbol = my_malloc_usable_size

abbrev pub malloc_good_size_symbol : Kernel → SizeClasses → (size : ℕ) → ℕ
malloc_good_size_symbol = zone_good_size
