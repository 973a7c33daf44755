-- ===== src/Arena/Emptied.antt =====
-- A heap to try arena_free on: its one page is in its bin, and the slot carved from it is free again.
use malloc.Common.{
  ℕ, ◌+◌, ◌≡◌, ◌≢◌, ◌≤◌, refl, ◌∙◌, ap, List, [], ◌∷◌, get_or-replicate, arith, true,
}
use malloc.Common.Mask.{align_up}
use malloc.Memory.{Mem}
use malloc.Memory.Chain.{count, erase}
use malloc.Os.{os_mmap_aligned}
use malloc.Page.{Page, page_init, round_slot, bump, page_free_slot_local, page_is_empty}
use malloc.Page.Kept.{IsKept}
use malloc.Page.Free.{page_free_slot_local-Holds, page_free_slot_local-IsKept}
use malloc.Segment.{new_segment, blank_pages, open_page, segment_create}
use malloc.SizeClass.{bin_to_size}
use malloc.SizeClass.Table.{tables}
use malloc.Heap.{Heap, page_of, put_arena}
use malloc.Heap.Valid.{IsOpen, IsHeap, Live, hold, put_arena-was_open}
use malloc.Heap.Frame.{kept-IsHeap, same-IsRewrite}
use malloc.Heap.Update.{rewritten, stays_open, here}
use malloc.Arena.{arena_init, carve, bin_insert_page}
use malloc.Arena.Scan.{IsExtended, IsExtended-trans, IsArena}
use malloc.Arena.Take.{rewritten-IsExtended}
use malloc.Arena.Insert.{IsInserted, bin_insert_page-IsInserted}
use malloc.Arena.Lists.{IsListed}
use malloc.Arena.Listed.{bin_insert_page-IsListed}
use malloc.Arena.Example.{base, with_segment, with_page, page_opened, first, first-IsTaken, held}

-- A slot of an open page given back, seen from a heap that differs in the arenas and in the page.
module _ (before h : Heap) (live : Live) (v : IsHeap h live) (p ptr : ℕ) (o : IsOpen h p)
    (held : count ptr (live p) ≢ 0) (x : IsExtended before h) where
  abbrev freed : Page × Mem
  freed = page_free_slot_local (page_of h p) h.mem ptr

  abbrev given_back : Heap
  given_back = rewritten h p freed.0 freed.1

  k : IsKept (page_of h p) h.mem freed.0 freed.1
  k = page_free_slot_local-IsKept ptr (v.page p o) held

  given_back-IsHeap : IsHeap given_back (hold live p (erase ptr (live p)))
  given_back-IsHeap =
      kept-IsHeap h live p freed.0 freed.1 _ v o k
        (page_free_slot_local-Holds ptr (v.page p o) held)

  given_back-IsOpen : IsOpen given_back p
  given_back-IsOpen = stays_open h p freed.0 freed.1 live v o (same-IsRewrite o.in_use k.same) p o

  given_back_page : page_of given_back p ≡ freed.0
  given_back_page = here h p freed.0 freed.1 live v o (same-IsRewrite o.in_use k.same)

  given_back-IsExtended : IsExtended before given_back
  given_back-IsExtended =
      rewritten-IsExtended h p freed.0 freed.1 live v o before x (same-IsRewrite o.in_use k.same)
        k.same.slot_size (λ _. k.same.next)

abbrev pub page : ℕ
page = base + 1

-- the heap before the page was opened, with the counts of the arena after its slot was carved
abbrev closed : Heap
closed = put_arena 1 (first.1.arena 1) with_segment

closed-IsExtended : IsExtended closed first.1
closed-IsExtended =
    let x =
      IsExtended-trans with_segment with_page first.1 page_opened.extended first-IsTaken.extended in
    record {
      opened = λ p o. x.opened p (put_arena-was_open with_segment 1 _ p o);
      size = λ p o. x.size p (put_arena-was_open with_segment 1 _ p o);
      next = λ p o. x.next p (put_arena-was_open with_segment 1 _ p o);
      registered = x.registered;
      next_seg = x.next_seg;
      classes = x.classes;
    }

closed-IsArena : IsArena closed 1 (λ b. []) []
unfolding carve arena_init
closed-IsArena = record {
  sized = refl;
  bins = λ b lt. get_or-replicate 75 b 0;
  open_pages = λ b p lt m. absurd (m refl);
  fits = λ b p lt m. absurd (m refl);
  segments = refl;
  registered = λ s m. absurd (m refl);
}

first_open : IsOpen first.1 page
first_open = first-IsTaken.extended.opened page page_opened.open_page

held_first : count first.0 (held page) ≢ 0
held_first = ground arith

abbrev idle : Heap
idle =
    let freed = page_free_slot_local (page_of first.1 page) first.1.mem first.0 in
    rewritten first.1 page freed.0 freed.1

abbrev pub none_held : Live
none_held = hold held page (erase first.0 (held page))

idle-IsHeap : IsHeap idle none_held
idle-IsHeap =
    given_back-IsHeap closed first.1 held first-IsTaken.valid page first.0 first_open held_first
      closed-IsExtended

idle-IsOpen : IsOpen idle page
idle-IsOpen =
    given_back-IsOpen closed first.1 held first-IsTaken.valid page first.0 first_open held_first
      closed-IsExtended

idle_page : page_of idle page ≡ (page_free_slot_local (page_of first.1 page) first.1.mem first.0).0
idle_page =
    given_back_page closed first.1 held first-IsTaken.valid page first.0 first_open held_first
      closed-IsExtended

idle_bin : (page_of idle page).bin_idx ≡ 3
unfolding carve segment_create os_mmap_aligned align_up open_page page_init round_slot new_segment
    blank_pages bump bin_to_size page_free_slot_local
idle_bin = ap (λ (t : Page). t.bin_idx) idle_page ∙ refl

idle-IsExtended : IsExtended closed idle
idle-IsExtended =
    given_back-IsExtended closed first.1 held first-IsTaken.valid page first.0 first_open held_first
      closed-IsExtended

idle-IsListed : IsListed idle 1 (λ b. [])
unfolding carve arena_init
idle-IsListed = record {
  linked = λ b lt. get_or-replicate 75 b 0;
  distinct = λ b lt. refl;
  binned = λ b p lt m. absurd (m refl);
}

idle_fits : bin_to_size tables 3 ≤ (page_of idle page).slot_size
idle_fits = omega (
  arith,
  page_opened.fits,
  first-IsTaken.extended.size page page_opened.open_page,
  ap (λ (t : Page). t.slot_size) idle_page
      ∙ (page_free_slot_local-IsKept first.0 (first-IsTaken.valid.page page first_open)
          held_first).same.slot_size,
)

-- the page in its bin
abbrev pub listed : Heap
listed = bin_insert_page 1 page idle

abbrev pub bins : ℕ → List ℕ
bins = hold (λ b. []) 3 (page ∷ [])

inserted : IsInserted closed idle none_held 1 3 page listed
unfolding carve arena_init
inserted =
    bin_insert_page-IsInserted closed idle none_held idle-IsHeap 1 3 page idle-IsOpen (omega arith)
      idle-IsExtended (λ o. page_opened.was_closed (put_arena-was_open with_segment 1 _ page o))
      refl (omega arith) idle_fits idle_bin (λ ne. absurd (ne refl))

pub listed-IsHeap : IsHeap listed none_held
listed-IsHeap = inserted.valid

pub listed-IsArena : IsArena listed 1 bins []
listed-IsArena = inserted.arena (λ b. []) [] closed-IsArena

pub listed-IsListed : IsListed listed 1 bins
unfolding carve arena_init
listed-IsListed =
    bin_insert_page-IsListed idle none_held 1 3 page (λ b. []) idle-IsHeap idle-IsOpen (omega arith)
      refl (λ b q lt m. absurd (m refl)) idle-IsListed (omega arith) (λ b lt. refl) idle_bin

pub listed_bin : (page_of listed page).bin_idx ≡ 3
listed_bin = ap (λ (t : Page). t.bin_idx) inserted.page ∙ idle_bin

listed_empty : page_is_empty (page_of listed page) ≡ true
unfolding carve segment_create os_mmap_aligned align_up open_page page_init round_slot new_segment
    blank_pages bump bin_to_size page_free_slot_local page_is_empty
listed_empty = ap page_is_empty inserted.page ∙ ap page_is_empty idle_page ∙ refl
