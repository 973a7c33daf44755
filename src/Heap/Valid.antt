-- ===== src/Heap/Valid.antt =====
-- What a heap promises: registered segments are valid, and every page that is open is a valid page.
use malloc.Common.{ℕ, ◌+◌, ◌%◌, ◌^◌, ◌<◌, ◌≤◌, ◌≡◌, ◌≢◌, List, [], if◌then◌else◌, ◌==◌, true}
use malloc.Os.Aligned.{mapped}
use malloc.Page.Invariant.{Holds}
use malloc.Registry.Probe.{IsRegistry, Contains}
use malloc.Segment.Pages.{IsSegment, IsInUse}
use malloc.Heap.{Arena, put_arena, Heap, index_of, seg_of, segment_of, page_of}

-- `p` is a data page, in use, of a registered segment.
pub record IsOpen (h : Heap) (p : ℕ) : Type 0 where
  pub some_segment : seg_of p ≢ 0
  pub registered : Contains h.segs.registry (seg_of p)
  pub lo : 1 ≤ index_of p
  pub hi : index_of p < 64
  pub in_use : IsInUse (segment_of h (seg_of p)) (index_of p)

-- The abstract view of the heap: for each page the slots that callers hold.
abbrev pub Live : Type 0
Live = ℕ → List ℕ

abbrev pub hold : Live → ℕ → List ℕ → Live
hold live p slots q = if p == q then slots else live q

pub record IsHeap (h : Heap) (live : Live) : Type 0 where
  pub registry : IsRegistry h.segs.registry
  pub segment : (b : ℕ) → b ≢ 0 → Contains h.segs.registry b → IsSegment b (segment_of h b)
  pub on_boundary : (b : ℕ) → b ≢ 0 → Contains h.segs.registry b → b % 2 ^ 22 ≡ 0
  pub below : (b : ℕ) → b ≢ 0 → Contains h.segs.registry b → b + 2 ^ 22 ≤ 2 ^ 48
  pub backed : (b : ℕ) → b ≢ 0 → Contains h.segs.registry b → mapped h.segs.os.calls b ≡ true
  pub page : (p : ℕ) → IsOpen h p → Holds (page_of h p) h.mem (live p)
  pub idle : (p : ℕ) → ¬ (IsOpen h p) → live p ≡ []

-- The arenas are no part of it.
pub put_arena-IsOpen :
    (h : Heap) (a : ℕ) (arena : Arena) (p : ℕ) → IsOpen h p → IsOpen (put_arena a arena h) p
put_arena-IsOpen h a arena p o = record {
  some_segment = o.some_segment;
  registered = o.registered;
  lo = o.lo;
  hi = o.hi;
  in_use = o.in_use;
}

pub put_arena-was_open :
    (h : Heap) (a : ℕ) (arena : Arena) (p : ℕ) → IsOpen (put_arena a arena h) p → IsOpen h p
put_arena-was_open h a arena p o = record {
  some_segment = o.some_segment;
  registered = o.registered;
  lo = o.lo;
  hi = o.hi;
  in_use = o.in_use;
}

pub put_arena-IsHeap :
    (h : Heap) (live : Live) (a : ℕ) (arena : Arena)
    → IsHeap h live
    → IsHeap (put_arena a arena h) live
put_arena-IsHeap h live a arena v = record {
  registry = v.registry;
  segment = v.segment;
  on_boundary = v.on_boundary;
  below = v.below;
  backed = v.backed;
  page = λ p o. v.page p (put_arena-was_open h a arena p o);
  idle = λ p closed. v.idle p (λ o. closed (put_arena-IsOpen h a arena p o));
}
