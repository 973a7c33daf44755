-- ===== src/Debug/Whole.antt =====
-- debug_heap_check of a whole heap that is in order.
use malloc.Common.{
  ℕ, zero, suc, ◌+◌, ◌-◌, ◌<◌, ◌≤◌, ◌≡◌, ◌≢◌, refl, subst, inl, inr, true, false, Bool-cases, some,
  List, [], ◌∷◌, length, arith, ne→==, ==_iff, if◌then◌else◌,
}
use malloc.Config.{pages_per_segment, pages_data_start}
use malloc.Memory.{null}
use malloc.Memory.Chain.{Chain, count}
use malloc.Page.{PageState, unused, active, full, retired}
use malloc.Registry.Probe.{Contains}
use malloc.Segment.{page_at, is_unused}
use malloc.Heap.{Heap, page_ref, segment_of, page_of}
use malloc.Heap.Frame.{page_of-page_ref, page_ref-IsOpen}
use malloc.Heap.Valid.{IsOpen, IsHeap, Live}
use malloc.Arena.Scan.{IsArena, next_segment}
use malloc.Debug.{
  is_checked, check_page, check_pages, check_segments, check_arenas, debug_heap_check, both,
}
use malloc.Debug.Caught.{IsTracked}
use malloc.Debug.Check.{check_page-passes}

checked-in_use : (s : PageState) → is_checked s ≡ true → is_unused s ≡ false
checked-in_use unused h = cc
checked-in_use active h = refl
checked-in_use full h = refl
checked-in_use retired h = refl

module _ (h : Heap) (live : Live) (bits : ℕ → List ℕ) (v : IsHeap h live)
    (tracked : (p : ℕ) → IsOpen h p → IsTracked (page_of h p) (bits p) (live p)) where
  module _ (seg : ℕ) (some_seg : seg ≢ null) (c : Contains h.segs.registry seg) where
    page_passes :
        (i : ℕ)
        → 1 ≤ i
        → i < 64
        → (if is_checked (page_at (segment_of h seg) i).state
            then check_page (page_at (segment_of h seg) i) h.mem (bits (page_ref seg i))
            else some true)
          ≡ some true
    page_passes i lo hi = elim (Bool-cases (is_checked (page_at (segment_of h seg) i).state)) [
      | inr no_check ↦ rw no_check refl
      | inl checked ↦
          let o = page_ref-IsOpen v seg i some_seg c hi lo (checked-in_use _ checked) in
          rw checked (
            subst (λ page. check_page page h.mem (bits (page_ref seg i)) ≡ some true)
              (page_of-page_ref v seg i some_seg c hi)
              (check_page-passes (page_of h (page_ref seg i)) (bits (page_ref seg i)) (v.page _ o)
                (tracked _ o)))
    ]

    check_pages-passes :
        (left i : ℕ) → 1 ≤ i → i + left ≤ 64 → check_pages left i seg h bits ≡ some true
    unfolding check_pages both
    check_pages-passes zero i lo hi = refl
    check_pages-passes (suc left) i lo hi =
        rw
          (
            page_passes i lo (omega (arith, hi)),
            check_pages-passes left (i + 1) (omega arith) (omega (arith, hi)),
          )
          refl

  check_segments-passes :
      (fuel seg : ℕ) (xs : List ℕ)
      → length xs ≤ fuel
      → Chain (next_segment h) seg xs
      → ((s : ℕ) → count s xs ≢ 0 → Contains h.segs.registry s)
      → check_segments fuel seg h bits ≡ some true
  unfolding check_segments both
  check_segments-passes zero seg [] le c known = rw ((==_iff seg null).1 c) refl
  check_segments-passes (suc fuel) seg [] le c known = rw ((==_iff seg null).1 c) refl
  check_segments-passes zero seg (x ∷ xs) le c known = absurd (omega (arith, le))
  check_segments-passes (suc fuel) seg (x ∷ xs) le c known =
      rw
        (
          c.0,
          ne→== x null c.1,
          check_pages-passes x c.1 (known x (ground arith)) (pages_per_segment - pages_data_start)
              pages_data_start (omega arith) (omega arith),
          check_segments-passes fuel (next_segment h x) xs (omega (arith, le)) c.2
              (λ s m. known s (omega (arith, m))),
        )
        refl

  module _ (pages : ℕ → ℕ → List ℕ) (segs : ℕ → List ℕ)
      (arenas : (a : ℕ) → a ≢ null → IsArena h a (pages a) (segs a)) (fuel : ℕ)
      (enough : (a : ℕ) → a ≢ null → length (segs a) ≤ fuel) where
    check_arenas-passes : (left a : ℕ) → a ≢ null → check_arenas fuel left a h bits ≡ some true
    unfolding check_arenas both
    check_arenas-passes zero a ne = refl
    check_arenas-passes (suc left) a ne =
        rw
          (
            check_segments-passes fuel (h.arena a).segments (segs a) (enough a ne)
                (arenas a ne).segments (arenas a ne).registered,
            check_arenas-passes left (a + 1) (omega arith),
          )
          refl

-- In a valid heap with valid arenas, where the bitmap of each open page says which of its slots callers
-- hold, debug_heap_check finds everything in order, if the fuel is as much as the arenas' lists of segments
-- have entries.
pub debug_heap_check-passes :
    (h : Heap) (live : Live) (bits : ℕ → List ℕ) (pages : ℕ → ℕ → List ℕ) (segs : ℕ → List ℕ)
    (fuel : ℕ)
    → IsHeap h live
    → ((p : ℕ) → IsOpen h p → IsTracked (page_of h p) (bits p) (live p))
    → ((a : ℕ) → a ≢ null → IsArena h a (pages a) (segs a))
    → ((a : ℕ) → a ≢ null → length (segs a) ≤ fuel)
    → debug_heap_check fuel h bits ≡ some true
unfolding debug_heap_check
debug_heap_check-passes h live bits pages segs fuel v tracked arenas enough =
    check_arenas-passes h live bits v tracked pages segs arenas fuel enough h.arena_count 1
      (omega arith)
