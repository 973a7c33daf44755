-- ===== src/Zone/Tests.antt =====
-- The zone at a heap with one page, whose one slot has been freed, and at a page of two slots.
use malloc.Common.{ℕ, ◌+◌, ◌≡◌, refl, List, [], ◌∷◌, arith, Returns}
use malloc.Memory.{Mem, null}
use malloc.Memory.Chain.{erase}
use malloc.Os.{Os, madvise}
use malloc.Page.{
  Page, page_start, page_init, bump, page_free_slot_local, page_alloc_slot, round_slot,
}
use malloc.Page.Invariant.{IsPage, Holds}
use malloc.Page.Init.{page_init-IsPage}
use malloc.Page.Alloc.{bump-Fresh}
use malloc.Page.Free.{page_free_slot_local-Holds}
use malloc.Segment.{blank}
use malloc.Large.Linked.{IsLarge}
use malloc.Heap.{Heap}
use malloc.Heap.Valid.{hold}
use malloc.Arena.Example.{kernel, base, first, first-IsTaken, held, page_opened}
use malloc.Slab.{slab_free}
use malloc.Slab.Free.{IsFreed, slab_free-IsFreed}
use malloc.Slab.Example.{state, listed, listed-IsHeap, listed-IsArena}
use malloc.Zone.{zone_claimed_address}
use malloc.Zone.Claim.{IsClaim, zone_claimed_address-IsClaim}
use malloc.Zone.Relief.{relieve_page, zone_pressure_relief}
use malloc.Zone.Relief.Pages.{IsRelieved, arenas_pages, zone_pressure_relief-IsRelieved}
use malloc.Zone.Relief.Lost.{discarded, relieve_page-loses}

freed : IsFreed state held (base + 1) first.0 (slab_free kernel first.0 state)
freed =
    slab_free-IsFreed kernel state held (base + 1) first.0 first-IsTaken.valid
      (first-IsTaken.extended.opened (base + 1) page_opened.open_page) (ground arith)

abbrev emptied : Heap
emptied = listed (slab_free kernel first.0 state).heap freed.heap.extended

zone_pressure_relief-IsRelieved_example : Returns (zone_pressure_relief 1 emptied) (
    IsRelieved emptied
      (hold held (base + 1) (erase first.0 (held (base + 1))))
      (arenas_pages (λ a. base ∷ []) emptied.arena_count 1)
      (emptied.segs.os, 0))
zone_pressure_relief-IsRelieved_example =
    zone_pressure_relief-IsRelieved emptied (hold held (base + 1) (erase first.0 (held (base + 1))))
      (λ a b. []) (λ a. base ∷ []) 1
      (listed-IsHeap (slab_free kernel first.0 state).heap freed.heap.extended _ freed.heap.valid)
      (listed-IsArena (slab_free kernel first.0 state).heap freed.heap.extended)
      (λ a ne. omega arith)

-- A page of two slots of 32 KB, both handed out and freed.
abbrev zeros : Mem
zeros a = 0

abbrev new_page : Page
new_page = page_init (blank 0x40_0000 1 1) 0x40_0000 7 1 66 0x8000

new_page-Holds : IsPage new_page zeros 0 [] [] []
new_page-Holds =
    (page_init-IsPage (blank 0x40_0000 1 1) zeros 0x40_0000 7 1 66 0x8000 (omega arith)
      (omega arith) (omega arith) (omega arith) (omega arith)).0

abbrev one_held : ℕ × Page
one_held = bump new_page

abbrev two_held : ℕ × Page
two_held = bump one_held.1

one_held-Holds : Holds one_held.1 zeros (one_held.0 ∷ [])
unfolding page_init round_slot
one_held-Holds = (bump-Fresh [] new_page-Holds (omega arith)).holds

two_held-Holds : Holds two_held.1 zeros (two_held.0 ∷ one_held.0 ∷ [])
unfolding page_init round_slot bump
two_held-Holds =
    (bump-Fresh one_held-Holds.local one_held-Holds.page
      (omega (arith, one_held-Holds.page.bumped))).holds

abbrev one_freed : Page × Mem
one_freed = page_free_slot_local two_held.1 zeros two_held.0

one_freed-Holds : Holds one_freed.0 one_freed.1 (one_held.0 ∷ [])
unfolding page_init round_slot bump
one_freed-Holds = page_free_slot_local-Holds two_held.0 two_held-Holds (omega arith)

abbrev two_freed : Page × Mem
two_freed = page_free_slot_local one_freed.0 one_freed.1 one_held.0

two_freed-Holds : Holds two_freed.0 two_freed.1 []
unfolding page_init round_slot bump
two_freed-Holds = page_free_slot_local-Holds one_held.0 one_freed-Holds (omega arith)

abbrev no_calls : Os
no_calls = record { mmap_bytes = 0; calls = [] }

relieve_page-loses_example :
    ((relieve_page two_freed.0 (no_calls, 0)).0.calls
      ≡ madvise (page_start two_freed.0) 0x1_0000 ∷ [])
    × ((live : List ℕ)
        → ¬ (Holds two_freed.0 (discarded (page_start two_freed.0) 0x1_0000 two_freed.1) live))
    × Returns
        (page_alloc_slot two_freed.0 (discarded (page_start two_freed.0) 0x1_0000 two_freed.1))
        (λ r.
          (r.0 ≡ two_freed.0.local_free)
          × (r.1.local_free ≡ null)
          × (r.1.local_free_count + 1 ≡ two_freed.0.local_free_count))
unfolding page_init round_slot bump page_free_slot_local
relieve_page-loses_example =
    relieve_page-loses two_freed.0 no_calls 0 two_freed-Holds (omega arith) refl

no_larges : IsLarge state.large []
no_larges = record { linked = refl; distinct = refl; counted = refl; bounded = omega arith }

zone_claimed_address-IsClaim_example :
    Returns (zone_claimed_address first.0 state) (IsClaim kernel state held [] first.0)
zone_claimed_address-IsClaim_example =
    zone_claimed_address-IsClaim kernel state held [] first.0 first-IsTaken.valid no_larges refl
