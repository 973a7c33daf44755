-- ===== src/Slab/Example.antt =====
-- A thread before its first allocation, one that has been given a slot, and heaps whose arenas list the
-- segment of the slot.
use malloc.Thread.{State}
use malloc.Common.{◌≡◌, ◌≢◌, ◌∙◌, ◌∷◌, subst, arith}
use malloc.Common.Mask.{align_up}
use malloc.Memory.{null}
use malloc.Memory.Chain.{count}
use malloc.Os.{os_mmap_aligned}
use malloc.Registry.Probe.{Contains}
use malloc.Segment.{open_page, segment_create, new_segment}
use malloc.Heap.{Heap}
use malloc.Heap.Valid.{IsHeap, Live}
use malloc.Arena.Scan.{IsExtended, IsArena, next_segment}
use malloc.Arena.{arena_init}
use malloc.Common.{ℕ, refl, none, [], get_or-replicate, some}
use malloc.Thread.{new_tld}
use malloc.Slab.Ready.{IsCache, with_arenas, with_arenas-IsHeap}
use malloc.Arena.Example.{base, base_registered, first-IsTaken, empty, first}

abbrev pub state : State
state = record {
  heap = first.1;
  large = record {
    large_list = 0;
    headers = λ a. record { base = 0; size = 0; user_size = 0; next = 0; prev = 0 };
    large_allocated = 0;
    large_alloc_count = 0;
    os = first.1.segs.os;
  };
  tld = none;
  thread_id_counter = 2;
  initialized = 2;
  bootstrap_buf = 0x10_0000;
  bootstrap_used = 0;
}

pub empty_arenas : (a : ℕ) → IsArena empty a (λ b. []) []
unfolding arena_init
empty_arenas a = record {
  sized = refl;
  bins = λ b lt. get_or-replicate 75 b 0;
  open_pages = λ b p lt m. absurd (m refl);
  fits = λ b p lt m. absurd (m refl);
  segments = refl;
  registered = λ s m. absurd (m refl);
}

abbrev pub started : State
started = record state {
  heap = empty;
  large = record state.large { os = empty.segs.os };
  tld = some (new_tld 0);
}

pub started-IsCache : IsCache empty (new_tld 0)
started-IsCache = record {
  sized = refl;
  open_pages = λ b lt ne. absurd (ne (get_or-replicate 75 b 0));
  fits = λ b lt ne. absurd (ne (get_or-replicate 75 b 0));
}

base_last : next_segment first.1 base ≡ null
unfolding open_page segment_create os_mmap_aligned align_up new_segment
base_last = first-IsTaken.extended.next_seg base (omega arith) base_registered ∙ refl

only_base : (s : ℕ) → count s (base ∷ []) ≢ 0 → base ≡ s
only_base s m = ground (arith, m)

-- A heap with the slot's page, every arena of which lists the slot's segment.
module _ (g : Heap) (x : IsExtended first.1 g) where
  abbrev pub listed : Heap
  listed = with_arenas g (λ a. record (arena_init 0) { segments = base }) 0

  pub listed-IsHeap : (live : Live) → IsHeap g live → IsHeap listed live
  listed-IsHeap live v =
      with_arenas-IsHeap g (λ a. record (arena_init 0) { segments = base }) 0 live v

  pub listed-IsArena : (a : ℕ) → a ≢ null → IsArena listed a (λ b. []) (base ∷ [])
  unfolding arena_init
  listed-IsArena a ne =
      let known = first-IsTaken.extended.registered base (omega arith) base_registered in
      record {
        sized = refl;
        bins = λ b lt. get_or-replicate 75 b 0;
        open_pages = λ b p lt m. absurd (m refl);
        fits = λ b p lt m. absurd (m refl);
        segments = (refl, omega arith, x.next_seg base (omega arith) known ∙ base_last);
        registered = λ s m.
            subst (Contains listed.segs.registry) (only_base s m)
              (x.registered base (omega arith) known);
      }
