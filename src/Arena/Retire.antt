-- ===== src/Arena/Retire.antt =====
-- arena_free of src/arena.c on a page of one of the arena's bins.
use malloc.Common.{
  ℕ, ◌<◌, ◌≡◌, ◌≢◌, sym, ap, ◌∙◌, subst, List, ◌∷◌, Bool-cases, inl, inr, true, false, arith, ne→==,
  get_or, if◌then◌else◌, ◌==◌, length,
}
use malloc.Memory.{null}
use malloc.Memory.Chain.{count, erase}
use malloc.Page.Kept.{Chain-agree}
use malloc.Os.{madvise}
use malloc.Page.{Page, page_start, page_is_empty}
use malloc.Page.Free.{page_is_empty_iff}
use malloc.Heap.{Heap, page_of}
use malloc.Heap.Valid.{IsOpen, IsHeap, Live, hold}
use malloc.Registry.Probe.{Contains}
use malloc.Arena.{bin_head, bin_remove_page, arena_free}
use malloc.Arena.Scan.{IsArena, next_segment}
use malloc.Arena.Remove.{IsRemoved, bin_remove_page-IsRemoved}
use malloc.Arena.Close.{IsClosed, segment_free_page-IsClosed}
use malloc.Arena.Lists.{
  IsListed, Linked-Chain, links_of, next_listed, prev_listed, left-member, left-IsListed,
}

-- The page is out of its bin and closed, its memory advised to be free; all other pages have kept what
-- they hold, and the lists of the arena their other pages.
pub record IsRetired (h : Heap) (live : Live) (a p : ℕ) (pages : ℕ → List ℕ) (segs : List ℕ)
    (g : Heap) : Type 0 where
  pub valid : IsHeap g live
  pub closed : ¬ (IsOpen g p)
  pub opened : (q : ℕ) → q ≢ p → IsOpen h q → IsOpen g q
  pub kept :
      (q : ℕ)
      → q ≢ null
      → q ≢ p
      → page_of g q ≡ record (page_of h q) { next = (page_of g q).next; prev = (page_of g q).prev }
  pub arena :
      IsArena g a (hold pages (page_of h p).bin_idx (erase p (pages (page_of h p).bin_idx))) segs
  pub listed :
      IsListed g a (hold pages (page_of h p).bin_idx (erase p (pages (page_of h p).bin_idx)))
  pub others : (b : ℕ) → a ≢ b → g.arena b ≡ h.arena b
  pub advised : g.segs.os.calls ≡ madvise (page_start (page_of h p)) 0x1_0000 ∷ h.segs.os.calls

-- The heap as it was, for a page with a slot held or none carved, or the page retired.
pub data FreeResult (h : Heap) (live : Live) (a p : ℕ) (pages : ℕ → List ℕ) (segs : List ℕ)
    : Heap → Type 0 where
  untouched : page_is_empty (page_of h p) ≡ false → FreeResult h live a p pages segs h
  retired :
      (g : Heap)
      → page_is_empty (page_of h p) ≡ true
      → IsRetired h live a p pages segs g
      → FreeResult h live a p pages segs g

module _ (h : Heap) (live : Live) (a p : ℕ) (pages : ℕ → List ℕ) (segs : List ℕ) (v : IsHeap h live)
    (w : IsArena h a pages segs) (listed : IsListed h a pages)
    (in_range : (page_of h p).bin_idx < 75)
    (member : count p (pages (page_of h p).bin_idx) ≢ 0) where
  abbrev bin : ℕ
  bin = (page_of h p).bin_idx

  open_listed : (q : ℕ) → count q (pages bin) ≢ 0 → IsOpen h q
  open_listed q m = w.open_pages bin q in_range m

  removed : IsRemoved h live a bin p (bin_remove_page a p h)
  removed =
      bin_remove_page-IsRemoved h live v a p (open_listed p member) some_page
        (λ ne.
          open_listed _
            (prev_listed (links_of h) p _ (pages bin) (listed.linked bin in_range) member ne))
        (λ ne.
          open_listed _
            (next_listed (links_of h) p _ (pages bin) (listed.linked bin in_range) member ne))
    where
      some_page : p ≢ null
      some_page e = absurd (omega (arith, e, (open_listed p member).lo))

  module _ (r g : Heap) (out : IsRemoved h live a bin p r) (c : IsClosed r live p g) where
    after :
        (q : ℕ)
        → q ≢ null
        → q ≢ p
        → page_of g q ≡ record (page_of h q) {
          next = if q == (page_of h p).prev then (page_of h p).next else (page_of h q).next;
          prev = if q == (page_of h p).next then (page_of h p).prev else (page_of h q).prev;
        }
    after q some_q differ = c.pages q differ ∙ (rw (ne→== q p differ) at (out.links.page q some_q))

    head :
        bin_head g a bin ≡ (if bin_head h a bin == p then (page_of h p).next else bin_head h a bin)
    head =
        ap (λ f. get_or (f a).bins bin null) c.arenas ∙ out.head (omega (arith, w.sized, in_range))

    heads : (b : ℕ) → bin ≢ b → bin_head g a b ≡ bin_head h a b
    heads b ne = ap (λ f. get_or (f a).bins b null) c.arenas ∙ out.heads b ne

    abbrev rest : ℕ → List ℕ
    rest = hold pages bin (erase p (pages bin))

    rest-IsListed : IsListed g a rest
    rest-IsListed = left-IsListed h g a pages listed bin p in_range member after head heads

    rest-member : (b q : ℕ) → b < 75 → count q (rest b) ≢ 0 → (q ≢ p) × (count q (pages b) ≢ 0)
    rest-member = left-member h g a pages listed bin p in_range member after head heads

    same_page :
        (b q : ℕ)
        → b < 75
        → count q (rest b) ≢ 0
        → (page_of g q).slot_size ≡ (page_of h q).slot_size
    same_page b q lt m =
        let (differ, more) = rest-member b q lt m in
        ap (λ (t : Page). t.slot_size)
          (after q (omega (arith, (w.open_pages b q lt more).lo)) differ)

    rest-IsArena : IsArena g a rest segs
    rest-IsArena = record {
      sized = ap (λ f. length (f a).bins) c.arenas ∙ out.sized ∙ w.sized;
      bins = λ b lt. Linked-Chain g null _ (rest b) (rest-IsListed.linked b lt);
      open_pages = λ b q lt m.
          let (differ, more) = rest-member b q lt m in
          c.opened q differ (out.links.opened q (w.open_pages b q lt more));
      fits = λ b q lt m.
          rw (c.classes, out.links.classes, same_page b q lt m)
            (w.fits b q lt (rest-member b q lt m).1);
      segments =
          rw (ap (λ f. (f a).segments) c.arenas, out.segments)
            (Chain-agree (next_segment h) (next_segment g) _ segs
              (λ s m. sym (c.next_seg s ∙ out.links.segment s)) w.segments);
      registered = λ s m.
          subst (λ t. Contains t s) (sym (c.registry ∙ out.links.registry)) (w.registered s m);
    }

    retires : IsRetired h live a p pages segs g
    retires = record {
      valid = c.valid;
      closed = c.closed;
      opened = λ q differ o. c.opened q differ (out.links.opened q o);
      kept = λ q some_q differ.
          let e = after q some_q differ in
          rw (ap (λ (t : Page). t.next) e, ap (λ (t : Page). t.prev) e) e;
      arena = rest-IsArena;
      listed = rest-IsListed;
      others = λ b ne. ap (λ f. f b) c.arenas ∙ out.others b ne;
      advised =
          c.advised
          ∙ ap (λ t. madvise t 0x1_0000 ∷ r.segs.os.calls) same_start
          ∙ ap (λ os. madvise (page_start (page_of h p)) 0x1_0000 ∷ os.calls) out.links.os;
    }
      where
        same_start : page_start (page_of r p) ≡ page_start (page_of h p)
        same_start = ap page_start (out.links.page p (omega (arith, (open_listed p member).lo)))

  -- In a valid heap, where the bins of the arena are doubly linked lists of distinct pages, arena_free
  -- of a page of its bin does nothing unless a slot of the page has been carved and none is held. If
  -- so, the page is taken out of its bin and closed and the kernel is told that its 64 KB are free;
  -- every list stays doubly linked with all its other pages, which keep what they hold, and the heap
  -- and the arena stay valid.
  pub arena_free-FreeResult : FreeResult h live a p pages segs (arena_free a p h)
  unfolding arena_free
  arena_free-FreeResult = elim (Bool-cases (page_is_empty (page_of h p))) [
    | inl empty ↦
        let o = open_listed p member in
        let none_held = ((page_is_empty_iff (v.page p o).page).0 empty).0 in
        let c =
          segment_free_page-IsClosed (bin_remove_page a p h) live removed.links.valid p
            (removed.links.opened p o) none_held in
        rw empty (retired _ empty (retires (bin_remove_page a p h) _ removed c))
    | inr used ↦ rw used (untouched used)
  ]
