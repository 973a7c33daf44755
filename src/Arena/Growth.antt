-- ===== src/Arena/Growth.antt =====
-- A new segment for an arena, or NULL: `grow` of src/arena.c.
use malloc.Common.{
  ℕ, Bool-cases, leb, sub64, ◌+◌, ◌^◌, ◌<◌, ◌≤◌, ◌≡◌, ◌≢◌, ◌⊎◌, inl, inr, refl, arith, none, some,
  ne→==, List,
}
use malloc.Memory.{null}
use malloc.Os.{Os, Kernel, call, mmap_failed, os_mmap_aligned}
use malloc.Os.Aligned.{asked, IsAnswer}
use malloc.Registry.Probe.{Contains}
use malloc.Segment.{Segments, segment_create}
use malloc.SizeClass.{bin_to_size}
use malloc.Segment.Create.{segment_create-IsCreated}
use malloc.Heap.{Heap}
use malloc.Heap.Valid.{IsHeap, Live}
use malloc.Arena.{grow}
use malloc.Arena.Scan.{IsExtended, with_system-IsExtended}
use malloc.Heap.Frame.{with_system-IsHeap}
use malloc.Arena.Link.{IsGrown, linked-IsGrown}

-- What growing needs of the kernel and of the registry.
pub record CanGrow (k : Kernel) (registry : List ℕ) (os : Os) : Type 0 where
  pub j : ℕ
  pub pages : k.page_size ≡ 2 ^ j
  pub room : Contains registry 0
  pub answer :
      (k.answer (asked k (2 ^ 22) (2 ^ 22)) ≡ none)
      ⊎ ((p : ℕ) × (k.answer (asked k (2 ^ 22) (2 ^ 22)) ≡ some p)
          × IsAnswer k.page_size os (asked k (2 ^ 22) (2 ^ 22)) p)
  pub low : (os_mmap_aligned k (2 ^ 22) (2 ^ 22) os).0 + 2 ^ 22 ≤ 2 ^ 48

-- NULL with nothing but the record of the failed call changed, or a page of a new segment.
pub data GrowResult (h : Heap) (live : Live) (a bin size : ℕ) : ℕ × Heap → Type 0 where
  no_memory :
      (g : Heap)
      → IsHeap g live
      → IsExtended h g
      → g.arena ≡ h.arena
      → GrowResult h live a bin size (null, g)
  grown : (p : ℕ) (g : Heap) → IsGrown h live a bin size p g → GrowResult h live a bin size (p, g)

-- A segment lies where the mapping does.
segment_create_where :
    (k : Kernel) (a : ℕ) (s : Segments)
    → (segment_create k a s).0 ≡ (os_mmap_aligned k (2 ^ 22) (2 ^ 22) s.os).0
unfolding segment_create
segment_create_where k a s = ground arith

-- The kernel's refusal.
refused :
    (k : Kernel) (a : ℕ) (s : Segments)
    → k.answer (asked k (2 ^ 22) (2 ^ 22)) ≡ none
    → (c : ℕ) × (segment_create k a s ≡ (null, record s { os = call s.os (mmap_failed c) }))
unfolding segment_create os_mmap_aligned
refused k a s e = elim (Bool-cases (leb 0x40_0000 k.page_size)) [
  | inl small ↦ (0x40_0000, rw (small, (rw small at e)) refl)
  | inr large ↦ (sub64 (0x40_0000 + 0x40_0000) 1, rw (large, (rw large at e)) refl)
]

pub grow-GrowResult :
    (k : Kernel) (a bin : ℕ) (h : Heap) (live : Live)
    → IsHeap h live
    → CanGrow k h.segs.registry h.segs.os
    → 0 < bin_to_size h.classes bin
    → bin_to_size h.classes bin ≤ 0x1_0000
    → GrowResult h live a bin (bin_to_size h.classes bin) (grow k a bin h)
unfolding grow
grow-GrowResult k a bin h live v c pos small = elim c.answer [
  | inl none_given ↦
      let (n, e) = refused k a h.segs none_given in
      rw e (
        no_memory _ (with_system-IsHeap h (after n) live v (λ b m. m))
          (with_system-IsExtended h (after n)) refl)
  | inr (p, given, ok) ↦
      let made = segment_create-IsCreated k a c.j p h.segs c.pages v.registry c.room given ok in
      let some_seg : (segment_create k a h.segs).0 ≢ null = omega (arith, made.maps.given) in
      let (i, t, ran, g) =
        linked-IsGrown h live v a bin (segment_create k a h.segs).0 (segment_create k a h.segs).1
          made some_seg (rw (segment_create_where k a h.segs) c.low) pos small in
      rw (ne→== _ null some_seg, ran) (grown _ _ g)
]
  where
    after : ℕ → Os
    after n = call h.segs.os (mmap_failed n)
