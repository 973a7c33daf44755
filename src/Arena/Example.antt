-- ===== src/Arena/Example.antt =====
-- A small heap to try the operations on: empty, then with a segment, an open page and a slot held.
use malloc.Common.{
  ℕ, ◌+◌, ◌<◌, ◌≢◌, ◌∙◌, refl, sym, inr, [], ◌∷◌, replicate, get_or-replicate, arith, some,
}
use malloc.Common.Mask.{align_up}
use malloc.Os.{Kernel, os_mmap_aligned}
use malloc.Registry.{slot}
use malloc.Registry.Probe.{Contains}
use malloc.SizeClass.{bin_to_size}
use malloc.SizeClass.Table.{tables}
use malloc.Segment.{Segments, new_segment, blank_pages, open_page, segment_create}
use malloc.Segment.Open.{opens_page}
use malloc.Segment.Create.{IsCreated, segment_create-IsCreated}
use malloc.Page.{page_init, round_slot, bump}
use malloc.Heap.{Heap, put_segment, segment_of, page_of}
use malloc.Heap.Valid.{IsHeap, Live, hold}
use malloc.Arena.{arena_init, carve}
use malloc.Arena.Grow.{created-IsHeap, new_registered}
use malloc.Arena.Open.{IsPageOpened, opened-IsPageOpened}
use malloc.Arena.Take.{IsTaken, carve-IsTaken}
use malloc.Arena.Scan.{IsArena}
use malloc.Arena.Growth.{CanGrow}

abbrev pub kernel : Kernel
kernel = record { page_size = 4096; answer = λ size. some 0x30_0000 }

abbrev pub empty : Heap
empty = record {
  segs = record {
    segment = λ a. new_segment 0 0;
    registry = replicate 256 0;
    os = record { mmap_bytes = 0; calls = [] };
  };
  mem = λ a. 0;
  arena = λ a. arena_init 0;
  arena_count = 1;
  arena_next = 0;
  classes = tables;
}

abbrev pub nothing : Live
nothing p = []

pub none_registered : (b : ℕ) → b ≢ 0 → ¬ (Contains (replicate 256 0) b)
none_registered b ne c = absurd (ne (sym c.holds ∙ get_or-replicate {A = ℕ} 256 c.index 0))

pub empty-IsHeap : IsHeap empty nothing
empty-IsHeap = record {
  registry = record {
    size = refl;
    reached = λ base d pos h e. absurd (pos (sym e ∙ get_or-replicate 256 (slot base d) 0));
  };
  segment = λ b ne c. absurd (none_registered b ne c);
  on_boundary = λ b ne c. absurd (none_registered b ne c);
  below = λ b ne c. absurd (none_registered b ne c);
  backed = λ b ne c. absurd (none_registered b ne c);
  page = λ p o. absurd (none_registered _ o.some_segment o.registered);
  idle = λ p shut. refl;
}

pub empty-IsArena : IsArena empty 1 (λ b. []) []
unfolding arena_init
empty-IsArena = record {
  sized = refl;
  bins = λ b lt. get_or-replicate 75 b 0;
  open_pages = λ b p lt m. absurd (m refl);
  fits = λ b p lt m. absurd (m refl);
  segments = refl;
  registered = λ s m. absurd (m refl);
}

pub can_grow : CanGrow kernel empty.segs.registry empty.segs.os
unfolding segment_create os_mmap_aligned align_up
can_grow = record {
  j = 12;
  pages = refl;
  room = record { index = 0; index_lt = omega arith; holds = refl };
  answer = inr (
    0x30_0000,
    refl,
    record { some_address = omega arith; on_page = refl; ends = omega arith; fresh = λ a h. refl },
  );
  low = omega arith;
}

-- The heap with a segment at 4 MB, its page 1 open with slots for bin 3, and two of them held.
abbrev pub base : ℕ
base = 0x40_0000

abbrev pub made : Segments
made = (segment_create kernel 1 empty.segs).1

pub made-IsCreated : IsCreated empty.segs base made
unfolding segment_create os_mmap_aligned align_up
made-IsCreated =
    segment_create-IsCreated kernel 1 12 0x30_0000 empty.segs refl empty-IsHeap.registry
      (record { index = 0; index_lt = omega arith; holds = refl }) refl
      (record {
        some_address = omega arith;
        on_page = refl;
        ends = omega arith;
        fresh = λ a h. refl;
      })

abbrev pub with_segment : Heap
with_segment = record empty { segs = made }

pub with_segment-IsHeap : IsHeap with_segment nothing
with_segment-IsHeap =
    created-IsHeap empty nothing empty-IsHeap base made made-IsCreated (omega arith) (omega arith)

pub base_registered : Contains made.registry base
base_registered =
    new_registered empty nothing empty-IsHeap base made made-IsCreated (omega arith) (omega arith)

abbrev pub with_page : Heap
with_page = put_segment base (open_page tables base 3 1 (segment_of with_segment base)) with_segment

pub page_opened : IsPageOpened with_segment nothing 3 (bin_to_size tables 3) (base + 1) with_page
unfolding bin_to_size
page_opened =
    opened-IsPageOpened with_segment nothing with_segment-IsHeap base 3 (bin_to_size tables 3) 1 _
      (omega arith) base_registered
      (opens_page tables base 3 with_segment.mem (segment_of with_segment base) made-IsCreated.valid
        (omega arith) (omega arith) (omega arith) (omega arith) 1 (omega arith) (omega arith)
        (made-IsCreated.unopened 1 (omega arith) (omega arith)) (λ j lo hi. absurd (omega arith)))

abbrev pub first : ℕ × Heap
first = carve 1 (base + 1) with_page

pub first-IsTaken : IsTaken with_page nothing (base + 1) first
first-IsTaken =
    carve-IsTaken 1 (base + 1) with_page nothing page_opened.valid page_opened.open_page
      page_opened.virgin

pub first_room : (page_of first.1 (base + 1)).bump_offset < (page_of first.1 (base + 1)).bump_end
unfolding carve segment_create os_mmap_aligned align_up open_page page_init round_slot new_segment
    blank_pages bump bin_to_size
first_room = omega arith

abbrev pub held : Live
held = hold nothing (base + 1) (first.0 ∷ [])
