-- ===== src/Arena/Tests.antt =====
-- An allocation from an arena that has no segment yet, and another one from the page that it opens.
use malloc.Common.{ℕ, ◌+◌, ◌≤◌, ◌⊎◌, [], ◌∷◌, arith, Returns}
use malloc.SizeClass.{bin_to_size}
use malloc.Heap.{Heap, page_of}
use malloc.Heap.Valid.{IsOpen, Live, hold}
use malloc.Heap.Apart.{heap_slots-apart}
use malloc.Arena.{carve, arena_alloc, arena_free}
use malloc.Arena.Retire.{FreeResult, arena_free-FreeResult}
use malloc.Arena.Emptied.{
  page, none_held, bins, listed, listed-IsHeap, listed-IsArena, listed-IsListed, listed_bin,
}
use malloc.Arena.Take.{IsTaken, carve-IsTaken}
use malloc.Arena.Alloc.{AllocResult, arena_alloc-AllocResult}
use malloc.Arena.Example.{
  kernel, empty, nothing, empty-IsHeap, empty-IsArena, can_grow, base, page_opened, first,
  first-IsTaken, first_room, held,
}

arena_alloc-AllocResult_example :
    Returns (arena_alloc kernel 0 1 3 empty) (AllocResult empty nothing 1 3 (λ b. []) [])
unfolding bin_to_size
arena_alloc-AllocResult_example =
    arena_alloc-AllocResult kernel 1 3 empty nothing (λ b. []) [] empty-IsHeap empty-IsArena
      can_grow (omega arith) (omega arith) (omega arith) 0 (omega arith) (omega arith)

abbrev second : ℕ × Heap
second = carve 1 (base + 1) first.1

second-IsTaken : IsTaken first.1 held (base + 1) second
second-IsTaken =
    carve-IsTaken 1 (base + 1) first.1 held first-IsTaken.valid
      (first-IsTaken.extended.opened (base + 1) page_opened.open_page) first_room

abbrev both : Live
both = hold held (base + 1) (second.0 ∷ held (base + 1))

opened_still : IsOpen second.1 (base + 1)
opened_still =
    second-IsTaken.extended.opened (base + 1)
      (first-IsTaken.extended.opened (base + 1) page_opened.open_page)

heap_slots-apart_example :
    (first.0 + (page_of second.1 (base + 1)).slot_size ≤ second.0)
    ⊎ (second.0 + (page_of second.1 (base + 1)).slot_size ≤ first.0)
heap_slots-apart_example =
    heap_slots-apart (base + 1) (base + 1) first.0 second.0 second-IsTaken.valid opened_still
      opened_still (ground arith) (ground arith)
      (λ e. absurd (ground (arith, second-IsTaken.new, e)))

arena_free-FreeResult_example :
    FreeResult listed none_held 1 page bins [] (arena_free 1 page listed)
arena_free-FreeResult_example =
    arena_free-FreeResult listed none_held 1 page bins [] listed-IsHeap listed-IsArena
      listed-IsListed (omega (arith, listed_bin)) (rw listed_bin (λ e. absurd (ground (arith, e))))
