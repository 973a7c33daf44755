-- ===== src/Arena/Grow.antt =====
-- A new segment for an arena, in src/arena.c.
use malloc.Common.{
  ℕ, get_or, ◌+◌, ◌%◌, ◌^◌, ◌≤◌, ◌≡◌, ◌≢◌, inl, inr, refl, sym, ap, ◌∙◌, subst, arith, true,
  ℕ_discrete, ne→==, ==_iff,
}
use malloc.Os.Aligned.{mapped}
use malloc.Page.Invariant.{Holds}
use malloc.Registry.Probe.{Contains}
use malloc.Segment.{Segment, Segments, blank, is_unused, page_at}
use malloc.Segment.Pages.{IsSegment}
use malloc.Segment.Create.{IsCreated}
use malloc.Heap.{Heap, index_of, seg_of, segment_of, page_of, put_segment}
use malloc.Heap.Refs.{segment_of-put_self, segment_of-put_ne}
use malloc.Heap.Valid.{IsOpen, IsHeap, Live}
use malloc.Arena.Scan.{IsExtended}

links-IsSegment :
    (b n q : ℕ) (s : Segment) → IsSegment b s → IsSegment b (record s { next = n; prev = q })
links-IsSegment b n q s w = record {
  sized = w.sized;
  placed = w.placed;
  header = w.header;
  counted = w.counted;
}

-- A registered segment with only its links changed.
module _ (h : Heap) (live : Live) (v : IsHeap h live) (seg n q : ℕ) where
  abbrev pub relinked : Heap
  relinked = put_segment seg (record (segment_of h seg) { next = n; prev = q }) h

  pub same_pages : (b : ℕ) → (segment_of relinked b).pages ≡ (segment_of h b).pages
  same_pages b = elim (ℕ_discrete seg b) [
    | yes e ↦ rw ((==_iff seg b).1 e) (ap (λ t. (segment_of h t).pages) e)
    | no ne ↦ rw (ne→== seg b ne) refl
  ]

  same_page : (p : ℕ) → page_of relinked p ≡ page_of h p
  same_page p = ap (λ t. get_or t (index_of p) (blank 0 0 0)) (same_pages (seg_of p))

  still : (p : ℕ) → IsOpen h p → IsOpen relinked p
  still p o = record {
    some_segment = o.some_segment;
    registered = o.registered;
    lo = o.lo;
    hi = o.hi;
    in_use = ap (λ t. is_unused t.state) (same_page p) ∙ o.in_use;
  }

  was : (p : ℕ) → IsOpen relinked p → IsOpen h p
  was p o = record {
    some_segment = o.some_segment;
    registered = o.registered;
    lo = o.lo;
    hi = o.hi;
    in_use = sym (ap (λ t. is_unused t.state) (same_page p)) ∙ o.in_use;
  }

  pub relinked-IsHeap : IsHeap relinked live
  relinked-IsHeap = record {
    registry = v.registry;
    segment = λ b ne c. elim (ℕ_discrete seg b) [
      | yes e ↦
          subst (λ t. IsSegment t (segment_of relinked t)) e
            (subst (IsSegment seg) (sym (segment_of-put_self h seg _)) (
              links-IsSegment seg n q (segment_of h seg)
                (subst (λ t. IsSegment t (segment_of h t)) (sym e) (v.segment b ne c))))
      | no other ↦ subst (IsSegment b) (sym (segment_of-put_ne h seg b _ other)) (v.segment b ne c)
    ];
    on_boundary = v.on_boundary;
    below = v.below;
    backed = v.backed;
    page = λ p o. subst (λ t. Holds t h.mem (live p)) (sym (same_page p)) (v.page p (was p o));
    idle = λ p shut. v.idle p (λ o. shut (still p o));
  }

  -- Seen from a heap before, no link to a next segment has changed but perhaps that of a later one.
  pub relinked-IsExtended :
      (before : Heap)
      → IsExtended before h
      → ((b : ℕ) → seg ≡ b → b ≢ 0 → Contains before.segs.registry b → n ≡ (segment_of h b).next)
      → IsExtended before relinked
  relinked-IsExtended before x same_next = record {
    opened = λ p o. still p (x.opened p o);
    size = λ p o. ap (λ t. t.slot_size) (same_page p) ∙ x.size p o;
    next = λ p o. ap (λ t. t.next) (same_page p) ∙ x.next p o;
    registered = x.registered;
    next_seg = λ b ne c. next_here b ne c (ℕ_discrete seg b) ∙ x.next_seg b ne c;
    classes = x.classes;
  }
    where
      next_here :
          (b : ℕ)
          → b ≢ 0
          → Contains before.segs.registry b
          → Dec (seg ≡ b)
          → (segment_of relinked b).next ≡ (segment_of h b).next
      next_here b ne c (yes e) =
          subst (λ t. (segment_of relinked t).next ≡ (segment_of h b).next) e
            (ap (λ t. t.next) (segment_of-put_self h seg _) ∙ same_next b e ne c)
      next_here b ne c (no other) = ap (λ t. t.next) (segment_of-put_ne h seg b _ other)

-- The heap with a segment that has just been created.
module _ (h : Heap) (live : Live) (v : IsHeap h live) (seg : ℕ) (segs : Segments)
    (created : IsCreated h.segs seg segs) (ne : seg ≢ 0) (low : seg + 2 ^ 22 ≤ 2 ^ 48) where
  abbrev with_new : Heap
  with_new = record h { segs = segs }

  pub not_before : (b : ℕ) → b ≢ 0 → Contains h.segs.registry b → b ≢ seg
  not_before b some_b c e = absurd (ground (arith, v.backed b some_b c, created.maps.unused b, e))

  old_segment :
      (b : ℕ) → b ≢ 0 → Contains h.segs.registry b → segment_of with_new b ≡ segment_of h b
  old_segment b some_b c = created.others b (not_before b some_b c)

  old_registered : (b : ℕ) → b ≢ 0 → Contains h.segs.registry b → Contains segs.registry b
  old_registered b some_b c = (created.registered.members b some_b).1 (inr c)

  pub new_registered : Contains segs.registry seg
  new_registered = (created.registered.members seg ne).1 (inl refl)

  -- What a registered segment satisfies, given what the new one and the old ones satisfy.
  each {ℓ} :
      {P : ℕ → Type ℓ}
      → P seg
      → ((b : ℕ) → b ≢ 0 → Contains h.segs.registry b → P b)
      → (b : ℕ) → b ≢ 0
      → Contains segs.registry b
      → P b
  each {P} new old b some_b c = elim ((created.registered.members b some_b).0 c) [
    | inl e ↦ subst P (sym e) new
    | inr before ↦ old b some_b before
  ]

  was_open : (p : ℕ) → IsOpen with_new p → IsOpen h p
  was_open p o = elim ((created.registered.members (seg_of p) o.some_segment).0 o.registered) [
    | inl e ↦ absurd (
        ground (
          arith,
          o.in_use,
          ap (λ t. is_unused (page_at (segment_of with_new t) (index_of p)).state) e,
          created.unopened (index_of p) o.lo o.hi,
        ))
    | inr before ↦ record {
      some_segment = o.some_segment;
      registered = before;
      lo = o.lo;
      hi = o.hi;
      in_use =
          sym (
            ap (λ t. is_unused (page_at t (index_of p)).state)
              (old_segment (seg_of p) o.some_segment before))
          ∙ o.in_use;
    }
  ]

  old_page : (p : ℕ) → IsOpen h p → page_of with_new p ≡ page_of h p
  old_page p o =
      ap (λ t. page_at t (index_of p)) (old_segment (seg_of p) o.some_segment o.registered)

  still_open : (p : ℕ) → IsOpen h p → IsOpen with_new p
  still_open p o = record {
    some_segment = o.some_segment;
    registered = old_registered (seg_of p) o.some_segment o.registered;
    lo = o.lo;
    hi = o.hi;
    in_use = ap (λ t. is_unused t.state) (old_page p o) ∙ o.in_use;
  }

  pub created-IsHeap : IsHeap with_new live
  created-IsHeap = record {
    registry = created.registered.valid;
    segment =
        each {P = λ b. IsSegment b (segment_of with_new b)} created.valid
          (λ b some_b c. subst (IsSegment b) (sym (old_segment b some_b c)) (v.segment b some_b c));
    on_boundary = each {P = λ b. b % 2 ^ 22 ≡ 0} created.aligned v.on_boundary;
    below = each {P = λ b. b + 2 ^ 22 ≤ 2 ^ 48} low v.below;
    backed =
        each {P = λ b. mapped segs.os.calls b ≡ true} (ground (arith, created.maps.exactly seg))
          (λ b some_b c. ground (arith, created.maps.exactly b, v.backed b some_b c));
    page = λ p o.
        subst (λ t. Holds t h.mem (live p)) (sym (old_page p (was_open p o)))
          (v.page p (was_open p o));
    idle = λ p shut. v.idle p (λ o. shut (still_open p o));
  }

  pub created-IsExtended : IsExtended h with_new
  created-IsExtended = record {
    opened = still_open;
    size = λ p o. ap (λ t. t.slot_size) (old_page p o);
    next = λ p o. ap (λ t. t.next) (old_page p o);
    registered = old_registered;
    next_seg = λ b some_b c. ap (λ t. t.next) (old_segment b some_b c);
    classes = refl;
  }
