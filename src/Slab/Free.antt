-- ===== src/Slab/Free.antt =====
-- slab_free of src/slab.c.
use malloc.Common.{
  ℕ, ◌≡◌, ◌≢◌, ◌⊎◌, refl, sym, ap, ◌∙◌, subst, inl, inr, List, Bool-cases, Option, none, some,
  if◌then◌else◌, ◌==◌, ne→==, arith,
}
use malloc.Memory.{Mem, null, not_null}
use malloc.Memory.Chain.{count, erase}
use malloc.Os.{Kernel}
use malloc.Page.{Page}
use malloc.Page.Invariant.{Holds}
use malloc.Page.Kept.{IsKept, slots_inside}
use malloc.Page.Free.{
  page_free_slot_local-Holds, page_free_slot_remote-Holds, page_free_slot_local-IsKept,
  page_free_slot_remote-IsKept,
}
use malloc.Segment.{ptr_to_segment, ptr_to_page}
use malloc.Stats.{Tld, Totals}
use malloc.Heap.{Heap, page_ref, index_of, seg_of, page_of, put_arena}
use malloc.Heap.Valid.{IsOpen, IsHeap, Live, hold, put_arena-IsHeap}
use malloc.Heap.Update.{rewritten}
use malloc.Heap.Frame.{same-IsRewrite, kept-IsHeap, ptr_to_page-held}
use malloc.Arena.Scan.{IsExtended, with_system-IsExtended}
use malloc.Arena.Take.{rewritten-IsExtended, count_alloc-IsExtended, kept}
use malloc.Thread.{State, tld_get}
use malloc.Slab.{count_in, credit, free_local, free_remote, free_in, slab_free}
use malloc.Thread.Same.{IsSameState, tld_get-IsSameState, same-IsHeap, same-IsOpen}

-- Of the page `p`, `slots` are held now; the other pages, and the lists of the arenas, are as they were.
pub record IsChanged (h : Heap) (live : Live) (p : ℕ) (slots : List ℕ) (g : Heap) : Type 0 where
  pub valid : IsHeap g (hold live p slots)
  pub extended : IsExtended h g
  pub bins : (a : ℕ) → (g.arena a).bins ≡ (h.arena a).bins
  pub segments : (a : ℕ) → (g.arena a).segments ≡ (h.arena a).segments

-- The totals of an arena change.
pub totals-IsChanged :
    (h : Heap) (live : Live) (p : ℕ) (slots : List ℕ) (g : Heap) (a : ℕ) (t : Totals)
    → IsChanged h live p slots g
    → IsChanged h live p slots (put_arena a (record (g.arena a) { totals = t }) g)
totals-IsChanged h live p slots g a t c = record {
  valid = put_arena-IsHeap g _ a _ c.valid;
  extended = count_alloc-IsExtended h g a _ c.extended;
  bins = λ b. kept (λ x. x.bins) g a _ refl b ∙ c.bins b;
  segments = λ b. kept (λ x. x.segments) g a _ refl b ∙ c.segments b;
}

pub same-IsExtended : {s r : State} → IsSameState s r → IsExtended s.heap r.heap
same-IsExtended {s} {r} e =
    subst (IsExtended s.heap) (sym e.heap) (with_system-IsExtended s.heap r.heap.segs.os)

-- An operation on the page `p`, after tld_get.
pub kept-IsChanged :
    (s r : State) (live : Live) (p : ℕ) (page : Page) (m : Mem) (slots : List ℕ)
    → IsSameState s r
    → IsHeap s.heap live
    → IsOpen s.heap p
    → IsKept (page_of r.heap p) r.heap.mem page m
    → Holds page m slots
    → IsChanged s.heap live p slots (rewritten r.heap p page m)
kept-IsChanged s r live p page m slots e v o k holds =
    let w = same-IsHeap e v in
    let o' = same-IsOpen e p o in
    record {
      valid = kept-IsHeap r.heap live p page m slots w o' k holds;
      extended =
          rewritten-IsExtended r.heap p page m live w o' s.heap (same-IsExtended e)
            (same-IsRewrite o'.in_use k.same) k.same.slot_size (λ _. k.same.next);
      bins = λ a. ap (λ h. (h.arena a).bins) e.heap;
      segments = λ a. ap (λ h. (h.arena a).segments) e.heap;
    }

-- A state in which the slot is free again.
pub record IsFreed (s : State) (live : Live) (p ptr : ℕ) (r : State) : Type 0 where
  pub heap : IsChanged s.heap live p (erase ptr (live p)) r.heap
  pub large_list : r.large.large_list ≡ s.large.large_list
  pub headers : r.large.headers ≡ s.large.headers

module _ (k : Kernel) (s : State) (live : Live) (p ptr : ℕ) (v : IsHeap s.heap live)
    (o : IsOpen s.heap p) (held : count ptr (live p) ≢ 0) where
  module _ (r : State) (e : IsSameState s r) where
    page-Holds : Holds (page_of r.heap p) r.heap.mem (live p)
    page-Holds = (same-IsHeap e v).page p (same-IsOpen e p o)

    free_local-IsFreed : (t : Tld) → IsFreed s live p ptr (free_local p ptr t r)
    unfolding free_local count_in
    free_local-IsFreed t = record {
      heap = totals-IsChanged s.heap live p _ _ t.arena _ (
          kept-IsChanged s r live p _ _ _ e v o (page_free_slot_local-IsKept ptr page-Holds held)
            (page_free_slot_local-Holds ptr page-Holds held));
      large_list = e.large_list;
      headers = e.headers;
    }

    free_remote-IsFreed : IsFreed s live p ptr (free_remote p ptr r)
    unfolding free_remote credit
    free_remote-IsFreed = record {
      heap = credited _ _ _ (
          kept-IsChanged s r live p _ _ _ e v o (page_free_slot_remote-IsKept ptr page-Holds held)
            (page_free_slot_remote-Holds ptr page-Holds held));
      large_list = e.large_list;
      headers = e.headers;
    }
      where
        credited :
            (a n : ℕ) (g : Heap)
            → IsChanged s.heap live p (erase ptr (live p)) g
            → IsChanged s.heap live p (erase ptr (live p)) (credit a n g)
        credited a n g c = elim (Bool-cases (not_null a)) [
          | inl some_arena ↦ rw some_arena (totals-IsChanged s.heap live p _ g a _ c)
          | inr none_given ↦ rw none_given c
        ]

  free_in-IsFreed : IsFreed s live p ptr (free_in k p ptr s)
  unfolding free_in
  free_in-IsFreed = given (tld_get k s).0
    where
      given :
          (o : Option Tld)
          → IsFreed s live p ptr (elim o [
            | none ↦ free_remote p ptr (tld_get k s).1
            | some t ↦
                if (page_of (tld_get k s).1.heap p).owner_tid == t.thread_id
                then free_local p ptr t (tld_get k s).1
                else free_remote p ptr (tld_get k s).1
          ])
      given none = free_remote-IsFreed (tld_get k s).1 (tld_get-IsSameState k s)
      given (some t) =
          elim (Bool-cases ((page_of (tld_get k s).1.heap p).owner_tid == t.thread_id)) [
            | inl own ↦ rw own (free_local-IsFreed (tld_get k s).1 (tld_get-IsSameState k s) t)
            | inr other ↦ rw other (free_remote-IsFreed (tld_get k s).1 (tld_get-IsSameState k s))
          ]

  pub segment_known : ptr_to_segment s.heap.segs.registry ptr ≢ null
  unfolding ptr_to_page
  segment_known e = absurd (ground (arith, e, ptr_to_page-held p ptr v o held))

  pub some_slot : ptr ≢ null
  some_slot e =
      let h = v.page p o in
      absurd (
        omega
          (arith, e, h.page.shaped.start_pos, (slots_inside h.page ptr (omega (arith, held))).0))

  -- In a valid heap, slab_free of a slot that callers hold takes it out of the slots held, once: the heap
  -- is valid with the slots left, the pages stay open with their sizes and their next links, and neither
  -- the lists of the arenas nor that of the large allocations change.
  pub slab_free-IsFreed : IsFreed s live p ptr (slab_free k ptr s)
  unfolding slab_free
  slab_free-IsFreed =
      let same : page_ref (seg_of p) (index_of p) ≡ p = omega arith in
      rw
        (
          ne→== ptr null some_slot,
          ne→== _ null segment_known,
          ptr_to_page-held p ptr v o held,
          same,
          o.in_use,
        )
        free_in-IsFreed

-- slab_free of NULL, or of a pointer whose segment is not registered, does nothing.
pub slab_free_foreign :
    (k : Kernel) (ptr : ℕ) (s : State)
    → (ptr ≡ null) ⊎ (ptr_to_segment s.heap.segs.registry ptr ≡ null)
    → slab_free k ptr s ≡ s
unfolding slab_free
slab_free_foreign k ptr s h = ground (arith, h)
