-- ===== src/Arena/Link.antt =====
-- A new segment becomes the first of an arena, in src/arena.c, and its first page is opened.
use malloc.Common.{
  ℕ, get_or, u32, ◌+◌, ◌^◌, ◌<◌, ◌≤◌, ◌≡◌, ◌≢◌, refl, sym, ap, ◌∙◌, subst, List, ◌∷◌, arith, Bool,
  true, false, ℕ_discrete, if◌then◌else◌, Option, some, ne→==, ==_iff,
}
use malloc.Memory.{not_null}
use malloc.Memory.Chain.{Chain}
use malloc.Registry.Probe.{Contains}
use malloc.Segment.{Segment, Segments, blank, is_unused}
use malloc.Segment.Pages.{IsUnused}
use malloc.SizeClass.{bin_to_size}
use malloc.Segment.{segment_alloc_page}
use malloc.Segment.Open.{IsOpened, Opening, opens, exhausted, segment_alloc_page-Opening}
use malloc.Segment.Create.{IsCreated}
use malloc.Heap.{Heap, page_ref, segment_of, put_segment, put_arena}
use malloc.Heap.Refs.{segment_of-put_self, segment_of-put_ne}
use malloc.Heap.Valid.{IsHeap, Live, put_arena-IsOpen, put_arena-IsHeap}
use malloc.Arena.{link_segment}
use malloc.Arena.Scan.{IsExtended, IsArena, next_segment, extended-IsArena}
use malloc.Arena.Take.{count_alloc-IsExtended}
use malloc.Arena.Open.{IsPageOpened, opened-IsPageOpened}
use malloc.Arena.Grow.{
  relinked, same_pages, relinked-IsHeap, relinked-IsExtended, not_before, created-IsHeap,
  created-IsExtended, new_registered,
}

-- The new segment is the first of the arena's, the rest of the heap is as it was, and its first page
-- has been opened.
pub record IsGrown (h : Heap) (live : Live) (a bin size p : ℕ) (g : Heap) : Type 0 where
  pub seg : ℕ
  pub linked : Heap
  pub valid : IsHeap linked live
  pub extended : IsExtended h linked
  pub classes : linked.classes ≡ h.classes
  pub others : (b : ℕ) → a ≢ b → linked.arena b ≡ h.arena b
  pub arena :
      (pages : ℕ → List ℕ) (segs : List ℕ)
      → IsArena h a pages segs
      → IsArena linked a pages (seg ∷ segs)
  pub page : IsPageOpened linked live bin size p g

module _ (h : Heap) (live : Live) (v : IsHeap h live) (a bin seg : ℕ) (segs : Segments)
    (created : IsCreated h.segs seg segs) (ne : seg ≢ 0) (low : seg + 2 ^ 22 ≤ 2 ^ 48) where
  abbrev head : ℕ
  head = (h.arena a).segments

  abbrev h0 : Heap
  h0 = record h { segs = segs }

  abbrev h1 : Heap
  h1 =
      relinked h0 live (created-IsHeap h live v seg segs created ne low) seg head
        (segment_of h0 seg).prev

  h1-IsHeap : IsHeap h1 live
  h1-IsHeap =
      relinked-IsHeap h0 live (created-IsHeap h live v seg segs created ne low) seg head
        (segment_of h0 seg).prev

  h1-IsExtended : IsExtended h h1
  h1-IsExtended =
      relinked-IsExtended h0 live (created-IsHeap h live v seg segs created ne low) seg head
        (segment_of h0 seg).prev h (created-IsExtended h live v seg segs created ne low)
        (λ b e some_b c. absurd (not_before h live v seg segs created ne low b some_b c (sym e)))

  abbrev h2 : Heap
  h2 = relinked h1 live h1-IsHeap head (segment_of h1 head).next seg

  -- The heap when the segments have been linked, before the arena's own record is written.
  record IsLinked (g : Heap) : Type 0 where
    valid : IsHeap g live
    extended : IsExtended h g
    arenas : g.arena ≡ h.arena
    classes : g.classes ≡ h.classes
    next : (segment_of g seg).next ≡ head
    registered : Contains g.segs.registry seg
    unused : IsUnused (segment_of g seg) 1

  h1-IsUnused : IsUnused (segment_of h1 seg) 1
  h1-IsUnused =
      ap (λ t. is_unused (get_or t 1 (blank 0 0 0)).state)
        (same_pages h0 live (created-IsHeap h live v seg segs created ne low) seg head
          (segment_of h0 seg).prev seg)
      ∙ created.unopened 1 (omega arith) (omega arith)

  h1-next : (segment_of h1 seg).next ≡ head
  h1-next = ap (λ t. t.next) (segment_of-put_self h0 seg _)

  h1-IsLinked : IsLinked h1
  h1-IsLinked = record {
    valid = h1-IsHeap;
    extended = h1-IsExtended;
    arenas = refl;
    classes = refl;
    next = h1-next;
    registered = new_registered h live v seg segs created ne low;
    unused = h1-IsUnused;
  }

  h2-IsLinked : IsLinked h2
  h2-IsLinked = record {
    valid = relinked-IsHeap h1 live h1-IsHeap head (segment_of h1 head).next seg;
    extended =
        relinked-IsExtended h1 live h1-IsHeap head (segment_of h1 head).next seg h h1-IsExtended
          (λ b e some_b c. ap (λ t. (segment_of h1 t).next) e);
    arenas = refl;
    classes = refl;
    next = elim (ℕ_discrete head seg) [
      | yes e ↦
          subst (λ t. (segment_of h2 t).next ≡ head) e
            (ap (λ t. t.next) (segment_of-put_self h1 head _)
              ∙ ap (λ t. (segment_of h1 t).next) e
              ∙ h1-next)
      | no other ↦ ap (λ t. t.next) (segment_of-put_ne h1 head seg _ other) ∙ h1-next
    ];
    registered = new_registered h live v seg segs created ne low;
    unused =
        ap (λ t. is_unused (get_or t 1 (blank 0 0 0)).state)
          (same_pages h1 live h1-IsHeap head (segment_of h1 head).next seg seg)
        ∙ h1-IsUnused;
  }

  -- The arena's record written.
  abbrev listed : Heap → Heap
  listed g =
      put_arena a
        (record (g.arena a) { segments = seg; segment_count = u32 ((g.arena a).segment_count + 1) })
        g

  link_segment-cases : (b : Bool) → not_null head ≡ b → IsLinked (if b then h2 else h1)
  link_segment-cases true e = h2-IsLinked
  link_segment-cases false e = h1-IsLinked

  link_segment-IsLinked : (g : Heap) × (link_segment a seg h0 ≡ listed g) × IsLinked g
  unfolding link_segment
  link_segment-IsLinked =
      (if not_null head then h2 else h1, refl, link_segment-cases (not_null head) refl)

  listed-IsArena :
      (g : Heap)
      → IsLinked g
      → (pages : ℕ → List ℕ) (more : List ℕ) → IsArena h a pages more
      → IsArena (listed g) a pages (seg ∷ more)
  listed-IsArena g l pages more w =
      let x =
        extended-IsArena h g a pages more l.extended (ap (λ t. (t a).bins) l.arenas)
          (ap (λ t. (t a).segments) l.arenas) w in
      record {
        sized = rw ((==_iff a a).1 refl) x.sized;
        bins = λ b lt. rw ((==_iff a a).1 refl) (x.bins b lt);
        open_pages = λ b p lt m. put_arena-IsOpen g a _ p (x.open_pages b p lt m);
        fits = x.fits;
        segments = rw ((==_iff a a).1 refl) (
          refl,
          ne,
          subst (λ q. Chain (next_segment g) q more)
              (ap (λ t. (t a).segments) l.arenas ∙ sym l.next) x.segments,
        );
        registered = λ s m. elim (ℕ_discrete s seg) [
          | yes e ↦ subst (Contains g.segs.registry) (sym e) l.registered
          | no other ↦ x.registered s (ground arith)
        ];
      }

  -- The first page of the new segment is unused, so there is one to open.
  page-IsOpened :
      (g : Heap)
      → IsUnused (segment_of g seg) 1
      → {r : Option (ℕ × Segment)}
      → Opening seg bin (bin_to_size g.classes bin) g.mem (segment_of g seg) r
      → (i : ℕ) × (t : Segment) × (r ≡ some (i, t))
        × IsOpened seg bin (bin_to_size g.classes bin) g.mem i (segment_of g seg) t
  page-IsOpened g unused (opens i t o) = (i, t, refl, o)
  page-IsOpened g unused (exhausted all) =
      absurd (ground (arith, unused, all 1 (omega arith) (omega arith)))

  pub linked-IsGrown :
      0 < bin_to_size h.classes bin
      → bin_to_size h.classes bin ≤ 0x1_0000
      → let h' = link_segment a seg h0 in
        (i : ℕ) × (t : Segment) × (segment_alloc_page h'.classes seg bin (segment_of h' seg)
          ≡ some (i, t))
        × IsGrown h live a bin (bin_to_size h.classes bin) (page_ref seg i) (put_segment seg t h')
  linked-IsGrown pos small =
      let (g, e, l) = link_segment-IsLinked in
      let w : IsHeap (listed g) live = put_arena-IsHeap g live a _ l.valid in
      let (i, t, ran, o) = page-IsOpened (listed g) l.unused (
        segment_alloc_page-Opening (listed g).classes seg bin (listed g).mem
          (segment_of (listed g) seg) (w.segment seg ne l.registered) (rw l.classes pos)
          (rw l.classes small) (omega (arith, ne)) low) in
      (
        i,
        t,
        rw e ran,
        rw e (record {
          seg = seg;
          linked = listed g;
          valid = w;
          extended = count_alloc-IsExtended h g a _ l.extended;
          classes = l.classes;
          others = λ b other. rw (ne→== a b other) (ap (λ f. f b) l.arenas);
          arena = listed-IsArena g l;
          page =
              subst
                (λ c.
                  IsPageOpened (listed g) live bin (bin_to_size c bin) (page_ref seg i)
                    (put_segment seg t (listed g)))
                l.classes
                (opened-IsPageOpened (listed g) live w seg bin (bin_to_size (listed g).classes bin)
                  i t ne l.registered o);
        }),
      )
