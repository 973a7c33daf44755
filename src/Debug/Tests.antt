-- ===== src/Debug/Tests.antt =====
-- The bitmap of a page with one slot held, and the check of a heap with that page.
use malloc.Common.{
  ℕ, ◌+◌, ◌≡◌, ◌≢◌, ◌⊎◌, ◌<◌, List, [], ◌∷◌, true, none, some, Returns, arith, if◌then◌else◌, ◌==◌,
  ne→==, ℕ_discrete, subst,
}
use malloc.Memory.Chain.{count, erase}
use malloc.Page.{Page, page_start}
use malloc.Page.Invariant.{Holds}
use malloc.Page.Kept.{slots_inside}
use malloc.Heap.{Heap, page_of}
use malloc.Heap.Valid.{IsOpen}
use malloc.Arena.Example.{base, first, first-IsTaken, held, page_opened}
use malloc.Slab.Example.{listed, listed-IsHeap, listed-IsArena}
use malloc.Arena.Scan.{IsExtended-refl}
use malloc.Debug.{blank_bitmap, debug_mark_allocated, debug_check_and_mark_freed, debug_heap_check}
use malloc.Debug.Caught.{
  IsTracked, blank-IsTracked, debug_mark_allocated-IsTracked, debug_check_and_mark_freed-catches,
}
use malloc.Debug.Whole.{debug_heap_check-passes}

abbrev page : Page
page = page_of first.1 (base + 1)

page_holds : Holds page first.1.mem (first.0 ∷ [])
page_holds =
    first-IsTaken.valid.page (base + 1)
      (first-IsTaken.extended.opened (base + 1) page_opened.open_page)

marked_first :
    Returns (debug_mark_allocated page first.0 blank_bitmap) (λ b. IsTracked page b (first.0 ∷ []))
marked_first =
    debug_mark_allocated-IsTracked page first.0 blank_bitmap page_holds (blank-IsTracked page)

in_page : first.0 < page_start page + 0x1_0000
in_page = (slots_inside page_holds.page first.0 (ground arith)).1

debug_check_and_mark_freed-catches_example :
    let marked = marked_first.0 in
    (count first.0 (first.0 ∷ []) ≢ 0
      × Returns
          (debug_check_and_mark_freed page first.0 marked)
          (λ b. IsTracked page b (erase first.0 (first.0 ∷ []))))
    ⊎ ((count first.0 (first.0 ∷ []) ≡ 0) × (debug_check_and_mark_freed page first.0 marked ≡ none))
debug_check_and_mark_freed-catches_example =
    debug_check_and_mark_freed-catches page first.0 marked_first.0 page_holds marked_first.2 in_page

-- Every arena lists the one segment.
abbrev checked : Heap
checked = listed first.1 (IsExtended-refl first.1)

abbrev bitmaps : ℕ → List ℕ
bitmaps p = if base + 1 == p then marked_first.0 else blank_bitmap

checked_tracked : (p : ℕ) → IsOpen checked p → IsTracked (page_of checked p) (bitmaps p) (held p)
checked_tracked p o = elim (ℕ_discrete (base + 1) p) [
  | yes e ↦ subst (λ p. IsTracked (page_of first.1 p) (bitmaps p) (held p)) e marked_first.2
  | no ne ↦ rw (ne→== (base + 1) p ne) (blank-IsTracked (page_of first.1 p))
]

debug_heap_check-passes_example : debug_heap_check 1 checked bitmaps ≡ some true
debug_heap_check-passes_example =
    debug_heap_check-passes checked held bitmaps (λ a b. []) (λ a. base ∷ []) 1
      (listed-IsHeap first.1 (IsExtended-refl first.1) held first-IsTaken.valid) checked_tracked
      (listed-IsArena first.1 (IsExtended-refl first.1)) (λ a ne. omega arith)
