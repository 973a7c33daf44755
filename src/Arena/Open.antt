-- ===== src/Arena/Open.antt =====
-- Opening a page of a segment, in src/arena.c.
use malloc.Common.{
  ℕ, zero, suc, ◌<◌, ◌≤◌, ◌≡◌, ◌≢◌, refl, sym, ap, ◌∙◌, subst, List, [], ◌∷◌, length, arith, false,
  ℕ_discrete, Option, none, some, ne→==, Returns,
}
use malloc.Memory.{null}
use malloc.Memory.Chain.{Chain, count}
use malloc.Page.Invariant.{Holds}
use malloc.Registry.Probe.{Contains}
use malloc.SizeClass.{bin_to_size}
use malloc.Segment.{Segment, is_unused, page_at}
use malloc.Segment.Pages.{IsSegment, IsInUse}
use malloc.Segment.Open.{IsOpened, Opening, opens, exhausted, segment_alloc_page-Opening}
use malloc.Heap.{Heap, page_ref, index_of, seg_of, segment_of, page_of, put_segment}
use malloc.Heap.Refs.{seg_of-page_ref, index_of-page_ref, segment_of-put_self, segment_of-put_ne}
use malloc.Heap.Valid.{IsOpen, IsHeap, Live}
use malloc.Arena.{open_loop}
use malloc.Arena.Scan.{IsExtended, next_segment}

-- A page that was closed is open, with no slot carved and slots of `size` bytes or more.
pub record IsPageOpened (h : Heap) (live : Live) (bin size p : ℕ) (g : Heap) : Type 0 where
  pub some_page : p ≢ null
  pub was_closed : ¬ (IsOpen h p)
  pub open_page : IsOpen g p
  pub fits : size ≤ (page_of g p).slot_size
  pub virgin : (page_of g p).bump_offset < (page_of g p).bump_end
  pub bin_idx : (page_of g p).bin_idx ≡ bin
  pub owner : (page_of g p).owner_tid ≡ 0xffff_ffff
  pub valid : IsHeap g live
  pub extended : IsExtended h g
  pub arenas : g.arena ≡ h.arena

module _ (h : Heap) (live : Live) (v : IsHeap h live) (seg bin size i : ℕ) (s : Segment)
    (ne : seg ≢ 0) (c : Contains h.segs.registry seg)
    (o : IsOpened seg bin size h.mem i (segment_of h seg) s) where
  abbrev g : Heap
  g = put_segment seg s h

  abbrev p : ℕ
  p = page_ref seg i

  same_seg : seg_of p ≡ seg
  same_seg = seg_of-page_ref seg i (v.on_boundary seg ne c) o.in_range

  same_index : index_of p ≡ i
  same_index = index_of-page_ref seg i (v.on_boundary seg ne c) o.in_range

  stored : segment_of g seg ≡ s
  stored = segment_of-put_self h seg s

  -- Any other page is as it was.
  other_page : (q : ℕ) → q ≢ p → page_of g q ≡ page_of h q
  other_page q differ = elim (ℕ_discrete seg (seg_of q)) [
    | no elsewhere ↦
        ap (λ t. page_at t (index_of q)) (segment_of-put_ne h seg (seg_of q) s elsewhere)
    | yes e ↦
        subst (λ b. page_at (segment_of g b) (index_of q) ≡ page_at (segment_of h b) (index_of q)) e
          (ap (λ t. page_at t (index_of q)) stored
            ∙ o.others (index_of q) (λ same. differ (omega (arith, e, same))))
  ]

  new_page : page_of g p ≡ page_at s i
  new_page = rw (same_seg, same_index, stored) refl

  still_open : (q : ℕ) → IsOpen h q → IsOpen g q
  still_open q o' = record {
    some_segment = o'.some_segment;
    registered = o'.registered;
    lo = o'.lo;
    hi = o'.hi;
    in_use = elim (ℕ_discrete q p) [
      | yes e ↦
          subst (λ t. is_unused (page_of g t).state ≡ false) (sym e)
            (ap (λ t. is_unused t.state) new_page ∙ o.in_use)
      | no differ ↦ ap (λ t. is_unused t.state) (other_page q differ) ∙ o'.in_use
    ];
  }

  was_open_or_new : (q : ℕ) → q ≢ p → IsOpen g q → IsOpen h q
  was_open_or_new q differ o' = record {
    some_segment = o'.some_segment;
    registered = o'.registered;
    lo = o'.lo;
    hi = o'.hi;
    in_use = sym (ap (λ t. is_unused t.state) (other_page q differ)) ∙ o'.in_use;
  }

  opens_new : IsOpen g p
  opens_new = record {
    some_segment = rw same_seg ne;
    registered = rw same_seg c;
    lo = rw same_index o.data_page;
    hi = rw same_index o.in_range;
    in_use = ap (λ t. is_unused t.state) new_page ∙ o.in_use;
  }

  closed : ¬ (IsOpen h p)
  closed o' =
      let used : IsInUse (segment_of h seg) i = rw (same_seg, same_index) at o'.in_use in
      absurd (ground (arith, o.was_free, used))

  opened-IsHeap : IsHeap g live
  opened-IsHeap = record {
    registry = v.registry;
    segment = λ b some_b d. elim (ℕ_discrete seg b) [
      | yes e ↦
          subst (λ t. IsSegment t (segment_of g t)) e (subst (IsSegment seg) (sym stored) o.valid)
      | no elsewhere ↦
          subst (IsSegment b) (sym (segment_of-put_ne h seg b s elsewhere)) (v.segment b some_b d)
    ];
    on_boundary = v.on_boundary;
    below = v.below;
    backed = v.backed;
    page = λ q o'. elim (ℕ_discrete q p) [
      | yes e ↦
          subst (λ t. Holds (page_of g t) h.mem (live t)) (sym e)
            (subst (λ t. Holds t h.mem (live p)) (sym new_page)
              (subst (λ xs. Holds (page_at s i) h.mem xs) (sym (v.idle p closed))
                (record { carved = 0; local = []; remote = []; page = o.opened })))
      | no differ ↦
          subst (λ t. Holds t h.mem (live q)) (sym (other_page q differ))
            (v.page q (was_open_or_new q differ o'))
    ];
    idle = λ q shut. v.idle q (λ o'. shut (still_open q o'));
  }

  opened-IsExtended : IsExtended h g
  opened-IsExtended = record {
    opened = still_open;
    size = λ q o'. ap (λ t. t.slot_size) (other_page q (λ e. closed (subst (IsOpen h) e o')));
    next = λ q o'. ap (λ t. t.next) (other_page q (λ e. closed (subst (IsOpen h) e o')));
    registered = λ b some_b d. d;
    next_seg = λ b some_b d. elim (ℕ_discrete seg b) [
      | yes e ↦
          subst (λ t. (segment_of g t).next ≡ (segment_of h t).next) e
            (ap (λ t. t.next) stored ∙ o.next)
      | no elsewhere ↦ ap (λ t. t.next) (segment_of-put_ne h seg b s elsewhere)
    ];
    classes = refl;
  }

  pub opened-IsPageOpened : IsPageOpened h live bin size p g
  opened-IsPageOpened = record {
    some_page = omega (arith, o.data_page);
    was_closed = closed;
    open_page = opens_new;
    fits = rw new_page o.fits;
    virgin = rw new_page o.virgin;
    bin_idx = ap (λ t. t.bin_idx) new_page ∙ o.bin;
    owner = ap (λ t. t.owner_tid) new_page ∙ o.owner;
    valid = opened-IsHeap;
    extended = opened-IsExtended;
    arenas = refl;
  }

-- NULL and the heap as it was, or a page opened.
pub data OpenResult (h : Heap) (live : Live) (bin size : ℕ) : ℕ × Heap → Type 0 where
  none_left : OpenResult h live bin size (null, h)
  opened : (p : ℕ) (g : Heap) → IsPageOpened h live bin size p g → OpenResult h live bin size (p, g)

pub open_loop-OpenResult :
    (fuel bin seg : ℕ) (h : Heap) (live : Live) (segs : List ℕ)
    → IsHeap h live
    → 0 < bin_to_size h.classes bin
    → bin_to_size h.classes bin ≤ 0x1_0000
    → length segs ≤ fuel
    → Chain (next_segment h) seg segs
    → ((s : ℕ) → count s segs ≢ 0 → Contains h.segs.registry s)
    → Returns (open_loop fuel bin seg h) (OpenResult h live bin (bin_to_size h.classes bin))
unfolding open_loop
open_loop-OpenResult zero bin seg h live [] v pos small le c reg = ((null, h), rw c refl, none_left)
open_loop-OpenResult (suc fuel) bin seg h live [] v pos small le c reg =
    ((null, h), rw c refl, none_left)
open_loop-OpenResult zero bin seg h live (x ∷ segs) v pos small le c reg = absurd (omega arith)
open_loop-OpenResult (suc fuel) bin seg h live (x ∷ segs) v pos small le c reg =
    let rest =
      open_loop-OpenResult fuel bin (next_segment h x) h live segs v pos small (omega arith) c.2
        (λ s m. reg s (ground arith)) in
    let here =
      segment_alloc_page-Opening h.classes x bin h.mem (segment_of h x)
        (v.segment x c.1 (reg x (ground arith))) pos small (ground (arith, c.1))
        (v.below x c.1 (reg x (ground arith))) in
    subst
      (λ q.
        Returns (open_loop (suc fuel) bin q h) (OpenResult h live bin (bin_to_size h.classes bin)))
      (sym c.0) (rw (ne→== x null c.1) (step rest here))
  where
    step :
        {r : Option (ℕ × Segment)}
        → Returns
            (open_loop fuel bin (next_segment h x) h)
            (OpenResult h live bin (bin_to_size h.classes bin))
        → Opening x bin (bin_to_size h.classes bin) h.mem (segment_of h x) r
        → Returns
            (elim r [
              | none ↦ open_loop fuel bin (next_segment h x) h
              | some (i, s) ↦ some (page_ref x i, put_segment x s h)
            ])
            (OpenResult h live bin (bin_to_size h.classes bin))
    step rest (opens i s o) = (
      (page_ref x i, put_segment x s h),
      refl,
      opened _ _ (
          opened-IsPageOpened h live v x bin (bin_to_size h.classes bin) i s c.1
            (reg x (ground arith)) o),
    )
    step rest (exhausted all) = rest
