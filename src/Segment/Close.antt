-- ===== src/Segment/Close.antt =====
-- What segment_free_page of src/segment.c does to the page table.
use malloc.Common.{
  ℕ, ◌+◌, ◌*◌, ◌^◌, ◌<◌, ◌≤◌, ◌≡◌, ◌≢◌, refl, sym, ◌∷◌, set, length-set, get_or-set_self,
  get_or-set_ne, arith, sub16,
}
use malloc.Os.{Os, madvise, os_madvise_free}
use malloc.Segment.{Segment, blank, page_at, close_page, segment_free_page}
use malloc.Segment.Pages.{
  in_use, IsUnused, IsInUse, IsSegment, in_use-set, in_use-pos, in_use-le, replaced-IsSegment,
}

-- In a valid segment below 2^48, freeing a data page that is in use leaves a valid segment in
-- which that page is unused and the others are as they were, and tells the kernel that the 64
-- KB of the page are free.
pub segment_free_page-IsSegment :
    (base i : ℕ) (seg : Segment) (os : Os)
    → IsSegment base seg
    → 1 ≤ i
    → i < 64
    → IsInUse seg i
    → 0 < base
    → base + 0x40_0000 ≤ 2 ^ 48
    → let r = segment_free_page i seg os in
      IsSegment base r.0
      × IsUnused r.0 i
      × ((j : ℕ) → j ≢ i → page_at r.0 j ≡ page_at seg j)
      × (r.1.calls ≡ madvise (base + i * 0x1_0000) 0x1_0000 ∷ os.calls)
unfolding segment_free_page os_madvise_free
segment_free_page-IsSegment base i seg os v lo hi taken pos low = (
  replaced-IsSegment base seg (segment_free_page i seg os).0 i (close_page (page_at seg i)) v hi
      refl (v.placed i hi).0 (v.placed i hi).1 (λ e. absurd (omega arith)) count,
  rw
      (get_or-set_self seg.pages i (close_page (page_at seg i)) (blank 0 0 0)
        (omega (arith, v.sized)))
      refl,
  λ j ne. get_or-set_ne seg.pages i j _ _ (λ e. ne (sym e)),
  rw ((v.placed i hi).0, (v.placed i hi).1) (ground arith),
)
  where
    kept : 1 ≤ in_use (set seg.pages i (close_page (page_at seg i)))
    kept =
        in_use-pos (set seg.pages i (close_page (page_at seg i))) 0
          (omega (arith, length-set seg.pages i (close_page (page_at seg i)), v.sized))
          (rw (get_or-set_ne seg.pages i 0 (close_page (page_at seg i)) (blank 0 0 0) (omega arith))
            v.header)

    count : sub16 seg.pages_used 1 + 1 ≡ in_use (set seg.pages i (close_page (page_at seg i)))
    count = ground (
      arith,
      in_use-set seg.pages i (close_page (page_at seg i)) (blank 0 0 0) (omega (arith, v.sized)),
      in_use-le seg.pages,
      v.sized,
      v.counted,
      taken,
      kept,
    )
