-- ===== src/Slab/Ready.antt =====
-- What slab_alloc_inner finds and leaves: a valid heap, valid arenas, and a thread's cache of open pages.
use malloc.Common.{ℕ, ◌<◌, ◌≤◌, ◌≡◌, ◌≢◌, refl, List, length, get_or}
use malloc.Memory.{null}
use malloc.SizeClass.{bin_to_size}
use malloc.Stats.{Tld}
use malloc.Heap.{Arena, Heap, page_of}
use malloc.Heap.Valid.{IsOpen, IsHeap, Live}
use malloc.Arena.Scan.{IsExtended, IsArena, extended-IsArena}

-- Each page of a thread's cache is open, with slots large enough for its bin.
pub record IsCache (h : Heap) (t : Tld) : Type 0 where
  pub sized : length t.bin_page ≡ 75
  pub open_pages :
      (b : ℕ) → b < 75 → get_or t.bin_page b null ≢ null → IsOpen h (get_or t.bin_page b null)
  pub fits :
      (b : ℕ)
      → b < 75
      → get_or t.bin_page b null ≢ null
      → bin_to_size h.classes b ≤ (page_of h (get_or t.bin_page b null)).slot_size

pub record IsReady (h : Heap) (live : Live) (t : Tld) (pages : ℕ → ℕ → List ℕ) (segs : ℕ → List ℕ)
    : Type 0 where
  pub valid : IsHeap h live
  pub arenas : (a : ℕ) → a ≢ null → IsArena h a (pages a) (segs a)
  pub cache : IsCache h t

pub extended-IsCache :
    (h g : Heap) (t u : Tld) → IsExtended h g → u.bin_page ≡ t.bin_page → IsCache h t → IsCache g u
extended-IsCache h g t u x same c = record {
  sized = rw same c.sized;
  open_pages = λ b lt ne. rw same (x.opened _ (c.open_pages b lt (rw same at ne)));
  fits = λ b lt ne.
      rw (same, x.classes, x.size _ (c.open_pages b lt (rw same at ne)))
        (c.fits b lt (rw same at ne));
}

pub extended-IsReady :
    (h g : Heap) (live live' : Live) (t u : Tld) (pages : ℕ → ℕ → List ℕ) (segs : ℕ → List ℕ)
    → IsExtended h g
    → IsHeap g live'
    → ((a : ℕ) → (g.arena a).bins ≡ (h.arena a).bins)
    → ((a : ℕ) → (g.arena a).segments ≡ (h.arena a).segments)
    → u.bin_page ≡ t.bin_page
    → IsReady h live t pages segs
    → IsReady g live' u pages segs
extended-IsReady h g live live' t u pages segs x v bins segments same r = record {
  valid = v;
  arenas =
      λ a ne. extended-IsArena h g a (pages a) (segs a) x (bins a) (segments a) (r.arenas a ne);
  cache = extended-IsCache h g t u x same r.cache;
}

-- The arenas' own records and the counter of the next one are no part of a heap's validity.
module _ (h : Heap) (f : ℕ → Arena) (n : ℕ) where
  abbrev pub with_arenas : Heap
  with_arenas = record h { arena = f; arena_next = n }

  with_arenas-IsOpen : (p : ℕ) → IsOpen h p → IsOpen with_arenas p
  with_arenas-IsOpen p o = record {
    some_segment = o.some_segment;
    registered = o.registered;
    lo = o.lo;
    hi = o.hi;
    in_use = o.in_use;
  }

  with_arenas-was_open : (p : ℕ) → IsOpen with_arenas p → IsOpen h p
  with_arenas-was_open p o = record {
    some_segment = o.some_segment;
    registered = o.registered;
    lo = o.lo;
    hi = o.hi;
    in_use = o.in_use;
  }

  pub with_arenas-IsHeap : (live : Live) → IsHeap h live → IsHeap with_arenas live
  with_arenas-IsHeap live v = record {
    registry = v.registry;
    segment = v.segment;
    on_boundary = v.on_boundary;
    below = v.below;
    backed = v.backed;
    page = λ p o. v.page p (with_arenas-was_open p o);
    idle = λ p shut. v.idle p (λ o. shut (with_arenas-IsOpen p o));
  }

  pub with_arenas-IsExtended : IsExtended h with_arenas
  with_arenas-IsExtended = record {
    opened = with_arenas-IsOpen;
    size = λ p o. refl;
    next = λ p o. refl;
    registered = λ b ne c. c;
    next_seg = λ b ne c. refl;
    classes = refl;
  }
