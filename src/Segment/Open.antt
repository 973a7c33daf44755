-- ===== src/Segment/Open.antt =====
-- What segment_alloc_page of src/segment.c does to the page table.
use malloc.Common.{
  ℕ, ◌+◌, ◌^◌, ◌<◌, ◌≤◌, ◌≡◌, ◌≢◌, refl, sym, ap, ◌∙◌, false, Option, none, some, [], set,
  get_or-set_self, get_or-set_ne, arith, u16, u32,
}
use malloc.Memory.{Mem}
use malloc.Page.{Page, page_init, no_owner}
use malloc.Page.Invariant.{IsPage}
use malloc.Page.Init.{page_init-IsPage, page_init_room}
use malloc.SizeClass.{SizeClasses, bin_to_size}
use malloc.Segment.{Segment, blank, page_at, is_unused, open_page, segment_alloc_page}
use malloc.Segment.Pages.{
  in_use, IsUnused, IsInUse, IsSegment, in_use-set, in_use-le, replaced-IsSegment, Search, hit,
  miss, unused_loop-Search,
}

-- Page `i` has been free, is the first such data page, and is now a page with no slot carved whose slots
-- hold `slot_size` bytes; all other pages are as they were.
pub record IsOpened (base bin_idx slot_size : ℕ) (m : Mem) (i : ℕ) (seg r : Segment) : Type 0 where
  pub data_page : 1 ≤ i
  pub in_range : i < 64
  pub was_free : IsUnused seg i
  pub first : (j : ℕ) → 1 ≤ j → j < i → IsInUse seg j
  pub valid : IsSegment base r
  pub opened : IsPage (page_at r i) m 0 [] [] []
  pub fits : slot_size ≤ (page_at r i).slot_size
  pub others : (j : ℕ) → j ≢ i → page_at r j ≡ page_at seg j
  pub in_use : IsInUse r i
  pub virgin : (page_at r i).bump_offset < (page_at r i).bump_end
  pub owner : (page_at r i).owner_tid ≡ no_owner
  pub bin : (page_at r i).bin_idx ≡ bin_idx
  pub next : r.next ≡ seg.next

-- What segment_alloc_page returns: a page opened, or NULL from a segment with no page left.
pub data Opening (base bin_idx slot_size : ℕ) (m : Mem) (seg : Segment)
    : Option (ℕ × Segment) → Type 0 where
  opens :
      (i : ℕ) (r : Segment)
      → IsOpened base bin_idx slot_size m i seg r
      → Opening base bin_idx slot_size m seg (some (i, r))
  exhausted : ((j : ℕ) → 1 ≤ j → j < 64 → IsInUse seg j) → Opening base bin_idx slot_size m seg none

init_in_use :
    (p : Page) (base arena i bin size : ℕ)
    → is_unused (page_init p base arena i bin size).state ≡ false
unfolding page_init
init_in_use p base arena i bin size = refl

init_segment :
    (p : Page) (base arena i bin size : ℕ) → (page_init p base arena i bin size).segment ≡ base
unfolding page_init
init_segment p base arena i bin size = refl

init_index :
    (p : Page) (base arena i bin size : ℕ) → (page_init p base arena i bin size).page_index ≡ i
unfolding page_init
init_index p base arena i bin size = refl

init_owner :
    (p : Page) (base arena i bin size : ℕ)
    → (page_init p base arena i bin size).owner_tid ≡ no_owner
unfolding page_init
init_owner p base arena i bin size = refl

init_bin :
    (p : Page) (base arena i bin size : ℕ) → (page_init p base arena i bin size).bin_idx ≡ bin
unfolding page_init
init_bin p base arena i bin size = refl

module _ (t : SizeClasses) (base bin : ℕ) (m : Mem) (seg : Segment) (v : IsSegment base seg)
    (some_bytes : 0 < bin_to_size t bin) (small : bin_to_size t bin ≤ 0x1_0000) (pos : 0 < base)
    (low : base + 0x40_0000 ≤ 2 ^ 48) where
  pub opens_page :
      (i : ℕ)
      → 1 ≤ i
      → i < 64
      → IsUnused seg i
      → ((j : ℕ) → 1 ≤ j → j < i → IsInUse seg j)
      → IsOpened base bin (bin_to_size t bin) m i seg (open_page t base bin i seg)
  unfolding open_page
  opens_page i lo hi free first =
      let new =
        page_init-IsPage (page_at seg i) m base seg.arena (u16 i) bin (u32 (bin_to_size t bin))
          (omega arith) (omega arith) (omega arith) pos low in
      record {
        data_page = lo;
        in_range = hi;
        was_free = free;
        first = first;
        valid =
            replaced-IsSegment base seg (open_page t base bin i seg) i fresh v hi refl
              (init_segment _ base _ _ _ _) (init_index _ _ _ (u16 i) _ _ ∙ omega arith)
              (λ e. taken) count;
        opened = rw here new.0;
        fits = rw here (omega (arith, new.1));
        others = λ j ne. get_or-set_ne seg.pages i j _ _ (λ e. ne (sym e));
        in_use = ap (λ q. is_unused q.state) here ∙ taken;
        virgin = rw here (
            rw exact (
              page_init_room (page_at seg i) base seg.arena (u16 i) bin (bin_to_size t bin)
                some_bytes small));
        owner = ap (λ q. q.owner_tid) here ∙ init_owner _ base _ _ _ _;
        bin = ap (λ q. q.bin_idx) here ∙ init_bin _ base _ _ bin _;
        next = refl;
      }
    where
      fresh : Page
      fresh = page_init (page_at seg i) base seg.arena (u16 i) bin (u32 (bin_to_size t bin))

      exact : u32 (bin_to_size t bin) ≡ bin_to_size t bin
      exact = omega (arith, small)

      taken : is_unused fresh.state ≡ false
      taken = init_in_use _ base _ _ _ _

      here : page_at (open_page t base bin i seg) i ≡ fresh
      here = get_or-set_self seg.pages i fresh (blank 0 0 0) (omega (arith, v.sized))

      count : u16 (seg.pages_used + 1) + 1 ≡ in_use (set seg.pages i fresh)
      count = ground (
        arith,
        in_use-set seg.pages i fresh (blank 0 0 0) (omega (arith, v.sized)),
        in_use-le seg.pages,
        v.sized,
        v.counted,
        free,
        taken,
      )

-- In a valid segment below 2^48 and for a bin of 1 to 65536 bytes, segment_alloc_page opens the
-- first unused data page for slots that hold the bin's size, and leaves the segment valid and
-- the other pages alone; it returns NULL exactly if no data page is unused.
pub segment_alloc_page-Opening :
    (t : SizeClasses) (base bin : ℕ) (m : Mem) (seg : Segment)
    → IsSegment base seg
    → 0 < bin_to_size t bin
    → bin_to_size t bin ≤ 0x1_0000
    → 0 < base
    → base + 0x40_0000 ≤ 2 ^ 48
    → Opening base bin (bin_to_size t bin) m seg (segment_alloc_page t base bin seg)
unfolding segment_alloc_page
segment_alloc_page-Opening t base bin m seg v some_bytes small pos low =
    finish (unused_loop-Search 63 1 seg.pages)
  where
    finish :
        {o : Option ℕ}
        → Search seg.pages 1 63 o
        → Opening base bin
            (bin_to_size t bin)
            m
            seg
            (elim o [ none ↦ none | some i ↦ some (i, open_page t base bin i seg) ])
    finish (hit i lo hi free before) =
        opens i _
          (opens_page t base bin m seg v some_bytes small pos low i lo (omega arith) free before)
    finish (miss all) = exhausted all
