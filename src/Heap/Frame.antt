-- ===== src/Heap/Frame.antt =====
-- A heap after an operation on one page or a call of the kernel, and from a held slot back to its page.
use malloc.Common.{
  Bool-cases, ◌⊎◌, inl, inr, ℕ, ◌-◌, ◌<◌, ◌≤◌, ◌≡◌, ◌≢◌, sym, ap, ◌∙◌, subst, List, arith, true,
  false, some,
}
use malloc.Memory.{Mem}
use malloc.Registry.{segment_is_registered}
use malloc.Registry.Lookup.{segment_is_registered_iff}
use malloc.Memory.Chain.{count}
use malloc.Os.{Os}
use malloc.Os.Aligned.{mapped}
use malloc.Page.{Page, page_start}
use malloc.Page.Invariant.{Holds}
use malloc.Page.Kept.{IsKept, IsSamePage, Holds-agree, slots_inside}
use malloc.Segment.{is_unused, page_at, ptr_to_page}
use malloc.Segment.Lookup.{ptr_to_page-inside}
use malloc.Registry.Probe.{Contains}
use malloc.Heap.{Heap, page_ref, index_of, seg_of, segment_of, page_of}
use malloc.Heap.Refs.{seg_of-page_ref, index_of-page_ref}
use malloc.Heap.Valid.{IsOpen, IsHeap, Live, hold}
use malloc.Heap.Update.{IsRewrite, rewritten, rewritten-IsHeap}
use malloc.Heap.Apart.{page_start-IsOpen, pages-apart}

pub same-IsRewrite : {p q : Page} → is_unused p.state ≡ false → IsSamePage p q → IsRewrite p q
same-IsRewrite used s = record {
  segment = s.segment;
  page_index = s.page_index;
  in_use = ap is_unused s.state ∙ used;
}

-- An operation on the page `p` that keeps the rest leaves the heap valid if it leaves the page valid.
pub kept-IsHeap :
    (h : Heap) (live : Live) (p : ℕ) (page : Page) (m : Mem) (slots : List ℕ)
    → IsHeap h live
    → IsOpen h p
    → IsKept (page_of h p) h.mem page m
    → Holds page m slots
    → IsHeap (rewritten h p page m) (hold live p slots)
kept-IsHeap h live p page m slots v o k holds =
    rewritten-IsHeap h p page m live v o (same-IsRewrite o.in_use k.same) slots holds (λ q ne o'.
      Holds-agree m (v.page q o')
        (λ a lo hi. sym (k.outside a (ground (arith, lo, hi, pages-apart v p q o o' ne)))))

-- The kernel's record changes.
abbrev pub with_system : Heap → Os → Heap
with_system h os = record h { segs = record h.segs { os = os } }

module _ (h : Heap) (os : Os) where
  pub with_system-IsOpen : (p : ℕ) → IsOpen h p → IsOpen (with_system h os) p
  with_system-IsOpen p o = record {
    some_segment = o.some_segment;
    registered = o.registered;
    lo = o.lo;
    hi = o.hi;
    in_use = o.in_use;
  }

  pub with_system-was_open : (p : ℕ) → IsOpen (with_system h os) p → IsOpen h p
  with_system-was_open p o = record {
    some_segment = o.some_segment;
    registered = o.registered;
    lo = o.lo;
    hi = o.hi;
    in_use = o.in_use;
  }

  pub with_system-IsHeap :
      (live : Live)
      → IsHeap h live
      → ((b : ℕ) → mapped h.segs.os.calls b ≡ true → mapped os.calls b ≡ true)
      → IsHeap (with_system h os) live
  with_system-IsHeap live v more = record {
    registry = v.registry;
    segment = v.segment;
    on_boundary = v.on_boundary;
    below = v.below;
    backed = λ b ne c. more b (v.backed b ne c);
    page = λ p o. v.page p (with_system-was_open p o);
    idle = λ p shut. v.idle p (λ o. shut (with_system-IsOpen p o));
  }

-- In a valid heap, ptr_to_page leads from a slot that callers hold to its page.
pub ptr_to_page-held :
    {h : Heap} {live : Live} (p a : ℕ)
    → IsHeap h live
    → IsOpen h p
    → count a (live p) ≢ 0
    → ptr_to_page h.segs.registry a ≡ some (seg_of p, index_of p)
ptr_to_page-held {h} {live} p a v o held =
    let i = slots_inside (v.page p o).page a (omega (arith, held)) in
    let start = page_start-IsOpen v p o in
    let low = v.below (seg_of p) o.some_segment o.registered in
    subst (λ t. ptr_to_page h.segs.registry t ≡ some (seg_of p, index_of p))
      (omega (arith, i.0, start))
      (ptr_to_page-inside h.segs.registry (seg_of p) (index_of p) (a - page_start (page_of h p))
        v.registry o.registered (v.on_boundary (seg_of p) o.some_segment o.registered)
        (omega (arith, o.some_segment)) (omega (arith, low)) o.hi (omega (arith, i.1)))

-- A data page in use, by its index in a registered segment.
module _ {h : Heap} {live : Live} (v : IsHeap h live) (seg i : ℕ) (some_seg : seg ≢ 0)
    (c : Contains h.segs.registry seg) (hi : i < 64) where
  pub page_of-page_ref : page_of h (page_ref seg i) ≡ page_at (segment_of h seg) i
  page_of-page_ref =
      let on = v.on_boundary seg some_seg c in
      ap (λ s. page_at (segment_of h s) (index_of (page_ref seg i))) (seg_of-page_ref seg i on hi)
      ∙ ap (page_at (segment_of h seg)) (index_of-page_ref seg i on hi)

  pub page_ref-IsOpen :
      1 ≤ i → is_unused (page_at (segment_of h seg) i).state ≡ false → IsOpen h (page_ref seg i)
  page_ref-IsOpen lo used =
      let on = v.on_boundary seg some_seg c in
      let same = sym (seg_of-page_ref seg i on hi) in
      let index = sym (index_of-page_ref seg i on hi) in
      record {
        some_segment = subst (λ s. s ≢ 0) same some_seg;
        registered = subst (Contains h.segs.registry) same c;
        lo = subst (λ j. 1 ≤ j) index lo;
        hi = subst (λ j. j < 64) index hi;
        in_use = ap (λ p. is_unused p.state) page_of-page_ref ∙ used;
      }

-- A slot that callers hold is one of an open page.
module _ {h : Heap} {live : Live} (v : IsHeap h live) (p a : ℕ) (held : count a (live p) ≢ 0) where
  closed-no : ¬ (IsOpen h p) → ⊥
  closed-no shut = held (ap (count a) (v.idle p shut))

  pub held-IsOpen : IsOpen h p
  held-IsOpen = record {
    some_segment = nonzero;
    registered = known (Bool-cases (segment_is_registered h.segs.registry (seg_of p)));
    lo = at_least (index_of p) (λ lt. closed-no (λ o. omega (arith, o.lo, lt)));
    hi = below (index_of p) (λ ge. closed-no (λ o. omega (arith, o.hi, ge)));
    in_use = used (Bool-cases (is_unused (page_of h p).state));
  }
    where
      nonzero : seg_of p ≢ 0
      nonzero e = closed-no (λ o. o.some_segment e)

      at_least : (i : ℕ) → ¬ (i < 1) → 1 ≤ i
      at_least i n = omega (arith, n)

      below : (i : ℕ) → ¬ (64 ≤ i) → i < 64
      below i n = omega (arith, n)

      known :
          (segment_is_registered h.segs.registry (seg_of p) ≡ true)
            ⊎ (segment_is_registered h.segs.registry (seg_of p) ≡ false)
          → Contains h.segs.registry (seg_of p)
      known (inl yes_known) = (segment_is_registered_iff (seg_of p) v.registry nonzero).0 yes_known
      known (inr unknown) = absurd (
          closed-no (λ o. cc (
            sym unknown
            ∙ (segment_is_registered_iff (seg_of p) v.registry nonzero).1 o.registered)))

      used :
          (is_unused (page_of h p).state ≡ true) ⊎ (is_unused (page_of h p).state ≡ false)
          → is_unused (page_of h p).state ≡ false
      used (inl e) = absurd (closed-no (λ o. cc (sym e ∙ o.in_use)))
      used (inr e) = e
