-- ===== src/Heap/Update.antt =====
-- A heap with one open page changed.
use malloc.Common.{
  ℕ, ◌≡◌, ◌≢◌, refl, sym, ap, ◌∙◌, subst, false, List, set, ==_iff, ne→==, arith, ℕ_discrete,
}
use malloc.Memory.{Mem}
use malloc.Page.{Page}
use malloc.Page.Invariant.{Holds}
use malloc.Segment.{is_unused, blank}
use malloc.Segment.Pages.{IsSegment, in_use, in_use-set, replaced-IsSegment}
use malloc.Heap.{Heap, index_of, seg_of, segment_of, page_of, put_page}
use malloc.Heap.Refs.{segment_of-put_self, segment_of-put_ne, page_of-put_self, page_of-put_ne}
use malloc.Heap.Valid.{IsOpen, IsHeap, Live, hold}

-- The new metadata of a page in use: where it lies stays.
pub record IsRewrite (old new : Page) : Type 0 where
  pub segment : new.segment ≡ old.segment
  pub page_index : new.page_index ≡ old.page_index
  pub in_use : is_unused new.state ≡ false

module _ (h : Heap) (p : ℕ) (page : Page) (m : Mem) where
  abbrev pub rewritten : Heap
  rewritten = record (put_page p page h) { mem = m }

  module _ (live : Live) (v : IsHeap h live) (o : IsOpen h p)
      (r : IsRewrite (page_of h p) page) where
    pub here : page_of rewritten p ≡ page
    here =
        page_of-put_self h p page
          (omega (arith, (v.segment (seg_of p) o.some_segment o.registered).sized, o.hi))

    pub there : (q : ℕ) → p ≢ q → page_of rewritten q ≡ page_of h q
    there q ne = page_of-put_ne h p q page ne

    -- The same pages are open.
    pub stays_open : (q : ℕ) → IsOpen h q → IsOpen rewritten q
    stays_open q o' = record {
      some_segment = o'.some_segment;
      registered = o'.registered;
      lo = o'.lo;
      hi = o'.hi;
      in_use = elim (ℕ_discrete p q) [
        | yes e ↦
            subst (λ t. is_unused (page_of rewritten t).state ≡ false) e
              (ap (λ t. is_unused t.state) here ∙ r.in_use)
        | no ne ↦ ap (λ t. is_unused t.state) (there q ne) ∙ o'.in_use
      ];
    }

    pub was_open : (q : ℕ) → IsOpen rewritten q → IsOpen h q
    was_open q o' = record {
      some_segment = o'.some_segment;
      registered = o'.registered;
      lo = o'.lo;
      hi = o'.hi;
      in_use = elim (ℕ_discrete p q) [
        | yes e ↦ subst (λ t. is_unused (page_of h t).state ≡ false) e o.in_use
        | no ne ↦ sym (ap (λ t. is_unused t.state) (there q ne)) ∙ o'.in_use
      ];
    }

    put_page-IsSegment : IsSegment (seg_of p) (segment_of rewritten (seg_of p))
    put_page-IsSegment =
        let s = v.segment (seg_of p) o.some_segment o.registered in
        rw
          (segment_of-put_self h (seg_of p) (record (segment_of h (seg_of p)) {
            pages = set (segment_of h (seg_of p)).pages (index_of p) page;
          }))
          (replaced-IsSegment (seg_of p) (segment_of h (seg_of p)) _ (index_of p) page s o.hi refl
            (r.segment ∙ (s.placed (index_of p) o.hi).0)
            (r.page_index ∙ (s.placed (index_of p) o.hi).1) (λ _. r.in_use)
            (omega (arith, s.counted, balance s)))
      where
        balance :
            IsSegment (seg_of p) (segment_of h (seg_of p))
            → in_use (set (segment_of h (seg_of p)).pages (index_of p) page)
              ≡ in_use (segment_of h (seg_of p)).pages
        balance s = ground (
          arith,
          in_use-set (segment_of h (seg_of p)).pages (index_of p) page (blank 0 0 0)
              (omega (arith, s.sized, o.hi)),
          r.in_use,
          o.in_use,
        )

    pub rewritten-IsHeap :
        (slots : List ℕ)
        → Holds page m slots
        → ((q : ℕ) → p ≢ q → IsOpen h q → Holds (page_of h q) m (live q))
        → IsHeap rewritten (hold live p slots)
    rewritten-IsHeap slots holds frame = record {
      registry = v.registry;
      segment = λ b some_b c. elim (ℕ_discrete (seg_of p) b) [
        | yes e ↦ subst (λ t. IsSegment t (segment_of rewritten t)) e put_page-IsSegment
        | no ne ↦
            subst (IsSegment b) (sym (segment_of-put_ne h (seg_of p) b _ ne)) (v.segment b some_b c)
      ];
      on_boundary = v.on_boundary;
      below = v.below;
      backed = v.backed;
      page = λ q o'. elim (ℕ_discrete p q) [
        | yes e ↦
            subst (λ t. Holds (page_of rewritten t) m (hold live p slots t)) e
              (rw ((==_iff p p).1 refl, here) holds)
        | no ne ↦ rw (ne→== p q ne, there q ne) (frame q ne (was_open q o'))
      ];
      idle = λ q closed. elim (ℕ_discrete p q) [
        | yes e ↦ absurd (closed (subst (IsOpen rewritten) e (stays_open p o)))
        | no ne ↦ rw (ne→== p q ne) (v.idle q (λ o'. closed (stays_open q o')))
      ];
    }
