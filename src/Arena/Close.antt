-- ===== src/Arena/Close.antt =====
-- segment_free_page on a page of the heap, as arena_free of src/arena.c calls it.
use malloc.Common.{
  ℕ, ◌*◌, ◌+◌, ◌≡◌, ◌≢◌, refl, sym, ap, ◌∙◌, subst, [], ◌∷◌, ℕ_discrete, arith, true,
}
use malloc.Os.{Os, madvise}
use malloc.Os.Aligned.{mapped}
use malloc.Page.{page_start}
use malloc.Segment.{Segment, is_unused, page_at, segment_free_page}
use malloc.Segment.Pages.{IsSegment, IsUnused}
use malloc.Segment.Close.{segment_free_page-IsSegment}
use malloc.Heap.{Heap, index_of, seg_of, segment_of, page_of, put_segment}
use malloc.Heap.Refs.{segment_of-put_self, segment_of-put_ne, refs_differ}
use malloc.Heap.Valid.{IsOpen, IsHeap, Live}
use malloc.Heap.Apart.{page_start-IsOpen}
use malloc.Heap.Frame.{with_system}

-- The page `p` is closed, the other pages are as they were, and the kernel has been told that the
-- page's memory is free.
pub record IsClosed (h : Heap) (live : Live) (p : ℕ) (g : Heap) : Type 0 where
  pub valid : IsHeap g live
  pub closed : ¬ (IsOpen g p)
  pub opened : (q : ℕ) → q ≢ p → IsOpen h q → IsOpen g q
  pub pages : (q : ℕ) → q ≢ p → page_of g q ≡ page_of h q
  pub next_seg : (s : ℕ) → (segment_of g s).next ≡ (segment_of h s).next
  pub registry : g.segs.registry ≡ h.segs.registry
  pub arenas : g.arena ≡ h.arena
  pub classes : g.classes ≡ h.classes
  pub advised : g.segs.os.calls ≡ madvise (page_start (page_of h p)) 0x1_0000 ∷ h.segs.os.calls

module _ (h : Heap) (live : Live) (v : IsHeap h live) (p : ℕ) (o : IsOpen h p)
    (none_held : live p ≡ []) where
  abbrev freed : Segment × Os
  freed = segment_free_page (index_of p) (segment_of h (seg_of p)) h.segs.os

  abbrev shut : Heap
  shut = with_system (put_segment (seg_of p) freed.0 h) freed.1

  facts :
      IsSegment (seg_of p) freed.0
      × IsUnused freed.0 (index_of p)
      × ((j : ℕ) → j ≢ index_of p → page_at freed.0 j ≡ page_at (segment_of h (seg_of p)) j)
      × (freed.1.calls ≡ madvise (seg_of p + index_of p * 0x1_0000) 0x1_0000 ∷ h.segs.os.calls)
  facts =
      segment_free_page-IsSegment (seg_of p) (index_of p) (segment_of h (seg_of p)) h.segs.os
        (v.segment (seg_of p) o.some_segment o.registered) o.lo o.hi o.in_use
        (omega (arith, o.some_segment))
        (omega (arith, v.below (seg_of p) o.some_segment o.registered))

  stored : segment_of shut (seg_of p) ≡ freed.0
  stored = segment_of-put_self h (seg_of p) freed.0

  elsewhere : (s : ℕ) → seg_of p ≢ s → segment_of shut s ≡ segment_of h s
  elsewhere s ne = segment_of-put_ne h (seg_of p) s freed.0 ne

  other_page : (q : ℕ) → q ≢ p → page_of shut q ≡ page_of h q
  other_page q differ = elim (ℕ_discrete (seg_of p) (seg_of q)) [
    | no ne ↦ ap (λ t. page_at t (index_of q)) (elsewhere (seg_of q) ne)
    | yes e ↦
        subst
          (λ b. page_at (segment_of shut b) (index_of q) ≡ page_at (segment_of h b) (index_of q)) e
          (ap (λ t. page_at t (index_of q)) stored
            ∙ facts.2 (index_of q) (refs_differ q p differ (sym e)))
  ]

  same_open : (q : ℕ) → q ≢ p → IsOpen h q → IsOpen shut q
  same_open q differ o' = record {
    some_segment = o'.some_segment;
    registered = o'.registered;
    lo = o'.lo;
    hi = o'.hi;
    in_use = ap (λ t. is_unused t.state) (other_page q differ) ∙ o'.in_use;
  }

  was_open : (q : ℕ) → q ≢ p → IsOpen shut q → IsOpen h q
  was_open q differ o' = record {
    some_segment = o'.some_segment;
    registered = o'.registered;
    lo = o'.lo;
    hi = o'.hi;
    in_use = sym (ap (λ t. is_unused t.state) (other_page q differ)) ∙ o'.in_use;
  }

  unused : is_unused (page_of shut p).state ≡ true
  unused = ap (λ s. is_unused (page_at s (index_of p)).state) stored ∙ facts.1

  shut_now : ¬ (IsOpen shut p)
  shut_now o' = cc (sym unused ∙ o'.in_use)

  shut-IsHeap : IsHeap shut live
  shut-IsHeap = record {
    registry = v.registry;
    segment = λ b some_b c. elim (ℕ_discrete (seg_of p) b) [
      | yes e ↦
          subst (λ t. IsSegment t (segment_of shut t)) e
            (subst (IsSegment (seg_of p)) (sym stored) facts.0)
      | no ne ↦ subst (IsSegment b) (sym (elsewhere b ne)) (v.segment b some_b c)
    ];
    on_boundary = v.on_boundary;
    below = v.below;
    backed = λ b some_b c. ap (λ cs. mapped cs b) facts.3 ∙ v.backed b some_b c;
    page = λ q o'. elim (ℕ_discrete q p) [
      | yes e ↦ absurd (shut_now (subst (IsOpen shut) e o'))
      | no differ ↦ rw (other_page q differ) (v.page q (was_open q differ o'))
    ];
    idle = λ q closed. elim (ℕ_discrete q p) [
      | yes e ↦ ap live e ∙ none_held
      | no differ ↦ v.idle q (λ o'. closed (same_open q differ o'))
    ];
  }

  pub segment_free_page-IsClosed : IsClosed h live p shut
  unfolding segment_free_page
  segment_free_page-IsClosed = record {
    valid = shut-IsHeap;
    closed = shut_now;
    opened = same_open;
    pages = other_page;
    next_seg = λ s. elim (ℕ_discrete (seg_of p) s) [
      | yes e ↦
          subst (λ t. (segment_of shut t).next ≡ (segment_of h t).next) e (ap (λ t. t.next) stored)
      | no ne ↦ ap (λ t. t.next) (elsewhere s ne)
    ];
    registry = refl;
    arenas = refl;
    classes = refl;
    advised =
        facts.3 ∙ ap (λ t. madvise t 0x1_0000 ∷ h.segs.os.calls) (sym (page_start-IsOpen v p o));
  }
