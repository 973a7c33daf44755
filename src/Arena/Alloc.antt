-- ===== src/Arena/Alloc.antt =====
-- arena_alloc of src/arena.c.
use malloc.Common.{
  ℕ, suc, u8, get_or, ◌<◌, ◌≤◌, ◌≡◌, ◌≢◌, refl, sym, ap, ◌∙◌, subst, List, [], ◌∷◌, length, arith,
  true, ℕ_discrete, if◌then◌else◌, ◌==◌, some, ne→==, ==_iff, Returns,
}
use malloc.Memory.{null, not_null}
use malloc.Memory.Chain.{Chain, count}
use malloc.Os.{Kernel}
use malloc.Page.{Page}
use malloc.SizeClass.{bin_to_size}
use malloc.Heap.{Heap, page_of}
use malloc.Heap.Valid.{IsOpen, IsHeap, Live, hold}
use malloc.Arena.{has_virgin, carve, grow, bin_head, bin_insert_page, alloc_from_bin, arena_alloc}
use malloc.Arena.Scan.{
  IsExtended, IsExtended-refl, IsExtended-trans, IsArena, extended-IsArena, scan_bin-IsScanned,
}
use malloc.Arena.Take.{carve-IsTaken}
use malloc.Arena.Open.{IsPageOpened, OpenResult, none_left, opened, open_loop-OpenResult}
use malloc.Arena.Growth.{CanGrow, GrowResult, no_memory, grown, grow-GrowResult}
use malloc.Arena.Insert.{bin_insert_page-IsInserted}

-- A slot of `p` that nobody held has been given out, from a page large enough for the bin.
pub record IsServed (h : Heap) (live : Live) (a bin : ℕ) (pages : ℕ → List ℕ) (segs : List ℕ)
    (p : ℕ) (r : ℕ × Heap) : Type 0 where
  pub some_slot : r.0 ≢ null
  pub new : count r.0 (live p) ≡ 0
  pub open_page : IsOpen r.1 p
  pub fits : bin_to_size h.classes bin ≤ (page_of r.1 p).slot_size
  pub valid : IsHeap r.1 (hold live p (r.0 ∷ live p))
  pub extended : IsExtended h r.1
  pub pages_after : ℕ → List ℕ
  pub segs_after : List ℕ
  pub arena : IsArena r.1 a pages_after segs_after
  pub more_pages : (b : ℕ) → length (pages_after b) ≤ suc (length (pages b))
  pub more_segs : length segs_after ≤ suc (length segs)
  pub other_bins : (b : ℕ) → a ≢ b → (r.1.arena b).bins ≡ (h.arena b).bins
  pub other_segs : (b : ℕ) → a ≢ b → (r.1.arena b).segments ≡ (h.arena b).segments

-- NULL with the arenas as they were, or a slot.
pub data AllocResult (h : Heap) (live : Live) (a bin : ℕ) (pages : ℕ → List ℕ) (segs : List ℕ)
    : ℕ × Heap → Type 0 where
  failed :
      (g : Heap)
      → IsHeap g live
      → IsExtended h g
      → g.arena ≡ h.arena
      → AllocResult h live a bin pages segs (null, g)
  served :
      (p : ℕ) (r : ℕ × Heap)
      → IsServed h live a bin pages segs p r
      → AllocResult h live a bin pages segs r

-- Carving from a page of the arena, in the heap `mid` that the search has reached.
module _ (h mid : Heap) (live : Live) (a bin : ℕ) (pages after : ℕ → List ℕ)
    (segs segs_after : List ℕ) (p : ℕ) (v : IsHeap mid live) (x : IsExtended h mid)
    (w : IsArena mid a after segs_after) (o : IsOpen mid p) where
  carve-IsServed :
      bin_to_size h.classes bin ≤ (page_of mid p).slot_size
      → (page_of mid p).bump_offset < (page_of mid p).bump_end
      → ((b : ℕ) → length (after b) ≤ suc (length (pages b)))
      → length segs_after ≤ suc (length segs)
      → ((b : ℕ) → a ≢ b → mid.arena b ≡ h.arena b)
      → IsServed h live a bin pages segs p (carve a p mid)
  carve-IsServed fits virgin more_pages more_segs others =
      let t = carve-IsTaken a p mid live v o virgin in
      record {
        some_slot = t.some_slot;
        new = t.new;
        open_page = t.extended.opened p o;
        fits = omega (arith, fits, t.extended.size p o);
        valid = t.valid;
        extended = IsExtended-trans h mid (carve a p mid).1 x t.extended;
        pages_after = after;
        segs_after = segs_after;
        arena =
            extended-IsArena mid (carve a p mid).1 a after segs_after t.extended (t.bins a)
              (t.segments a) w;
        more_pages = more_pages;
        more_segs = more_segs;
        other_bins = λ b ne. t.bins b ∙ ap (λ s. s.bins) (others b ne);
        other_segs = λ b ne. t.segments b ∙ ap (λ s. s.segments) (others b ne);
      }

virgin_room : (p : Page) → has_virgin p ≡ true → p.bump_offset < p.bump_end
virgin_room p e = ground (arith, e)

length-hold :
    (pages : ℕ → List ℕ) (bin p b : ℕ)
    → length (hold pages bin (p ∷ pages bin) b) ≤ suc (length (pages b))
length-hold pages bin p b = elim (ℕ_discrete bin b) [
  | yes e ↦
      subst (λ t. length (hold pages bin (p ∷ pages bin) t) ≤ suc (length (pages t))) e
        (rw ((==_iff bin bin).1 refl) (omega arith))
  | no ne ↦ rw (ne→== bin b ne) (omega arith)
]

Chain-head : (m : ℕ → ℕ) (q : ℕ) (xs : List ℕ) → Chain m q xs → q ≢ null → count q xs ≢ 0
Chain-head m q [] c ne = absurd (ne c)
Chain-head m q (x ∷ xs) c ne = rw c.0 (ground arith)

-- The page opened in the heap `before`, put into its bin, and carved.
module _ (h before g : Heap) (live : Live) (a bin p : ℕ) (pages : ℕ → List ℕ)
    (segs segs_after : List ℕ) (x : IsExtended h before) (w : IsArena before a pages segs_after)
    (lt : bin < 75) (more_segs : length segs_after ≤ suc (length segs))
    (others : (b : ℕ) → a ≢ b → before.arena b ≡ h.arena b) where
  opened-IsServed :
      IsPageOpened before live bin (bin_to_size h.classes bin) p g
      → IsServed h live a bin pages segs p (carve a p (bin_insert_page a p g))
  opened-IsServed o =
      let i =
        bin_insert_page-IsInserted before g live o.valid a bin p o.open_page o.some_page o.extended
          o.was_closed o.arenas lt (rw x.classes o.fits) o.bin_idx head_open in
      carve-IsServed h (bin_insert_page a p g) live a bin pages (hold pages bin (p ∷ pages bin))
        segs segs_after p i.valid (IsExtended-trans h before _ x i.extended)
        (i.arena pages segs_after w) i.open_page (rw i.page o.fits) (rw i.page o.virgin)
        (length-hold pages bin p) more_segs
        (λ b ne. i.others b ne ∙ ap (λ f. f b) o.arenas ∙ others b ne)
    where
      head_open : bin_head g a bin ≢ null → IsOpen before (bin_head g a bin)
      head_open ne =
          let same : bin_head g a bin ≡ bin_head before a bin =
            ap (λ f. get_or (f a).bins bin null) o.arenas in
          subst (IsOpen before) (sym same) (
            w.open_pages bin (bin_head before a bin) lt
              (Chain-head _ _ (pages bin) (w.bins bin lt) (λ z. ne (same ∙ z))))

module _ (k : Kernel) (a bin : ℕ) (h : Heap) (live : Live) (pages : ℕ → List ℕ) (segs : List ℕ)
    (v : IsHeap h live) (w : IsArena h a pages segs) (c : CanGrow k h.segs.registry h.segs.os)
    (lt : bin < 75) (pos : 0 < bin_to_size h.classes bin)
    (small : bin_to_size h.classes bin ≤ 0x1_0000) where
  grown-AllocResult :
      {r : ℕ × Heap}
      → GrowResult h live a bin (bin_to_size h.classes bin) r
      → Returns
          (if r.0 == null then some (null, r.1) else some (carve a r.0 (bin_insert_page a r.0 r.1)))
          (AllocResult h live a bin pages segs)
  grown-AllocResult (no_memory g v' x same) = ((null, g), refl, failed g v' x same)
  grown-AllocResult (grown p g w') = (
    carve a p (bin_insert_page a p g),
    rw (ne→== p null w'.page.some_page) refl,
    served p _ (
        opened-IsServed h w'.linked g live a bin p pages segs (w'.seg ∷ segs) w'.extended
          (w'.arena pages segs w) lt (omega arith) (λ b ne. w'.others b ne) w'.page),
  )

  opened-AllocResult :
      {r : ℕ × Heap}
      → OpenResult h live bin (bin_to_size h.classes bin) r
      → let t = if not_null r.0 then (r.0, r.1) else grow k a bin r.1 in
        Returns
          (if t.0 == null then some (null, t.1) else some (carve a t.0 (bin_insert_page a t.0 t.1)))
          (AllocResult h live a bin pages segs)
  opened-AllocResult none_left = grown-AllocResult (grow-GrowResult k a bin h live v c pos small)
  opened-AllocResult (opened p g o) = (
    carve a p (bin_insert_page a p g),
    rw (ne→== p null o.some_page) (rw (ne→== p null o.some_page) refl),
    served p _ (
        opened-IsServed h h g live a bin p pages segs segs (IsExtended-refl h) w lt (omega arith)
          (λ b ne. refl) o),
  )

  alloc_from_bin-AllocResult :
      (fuel : ℕ)
      → length (pages bin) ≤ fuel
      → length segs ≤ fuel
      → Returns (alloc_from_bin k fuel a bin h) (AllocResult h live a bin pages segs)
  unfolding alloc_from_bin
  alloc_from_bin-AllocResult fuel enough_pages enough_segs =
      let (r, e, s) =
        scan_bin-IsScanned fuel h (bin_head h a bin) (pages bin) enough_pages (w.bins bin lt) in
      let (t, e', o) =
        open_loop-OpenResult fuel bin (h.arena a).segments h live segs v pos small enough_segs
          w.segments w.registered in
      rw (alloc_from_bin, e)
        (elim (ℕ_discrete r null) [
          | yes z ↦ rw (z, e') (opened-AllocResult o)
          | no ne ↦ rw (ne→== r null ne) (
            carve a r h,
            refl,
            served r _ (
                carve-IsServed h h live a bin pages pages segs segs r v (IsExtended-refl h) w
                  (w.open_pages bin r lt (s.found ne).0) (w.fits bin r lt (s.found ne).0)
                  (virgin_room (page_of h r) (s.found ne).1) (λ b. omega arith) (omega arith)
                  (λ b ne. refl)),
          )
        ])

  -- In a valid heap, for a valid arena and one of the 75 bins with slots of 1 to 65536 bytes, and where the
  -- registry has an empty slot and mmap fails or answers as documented and below 2^48 (`CanGrow`): with as
  -- much fuel as a list has entries, arena_alloc returns. If it gives a slot, the slot is one that nobody
  -- held, of an open page whose slots are large enough for the bin; the heap with that slot held is valid,
  -- and so are the arena, which has at most one page more in a bin and one segment more, and the lists of
  -- the other arenas are as they were. If it gives NULL, the heap is valid with the slots held before and no
  -- arena has changed.
  pub arena_alloc-AllocResult :
      (fuel : ℕ)
      → length (pages bin) ≤ fuel
      → length segs ≤ fuel
      → Returns (arena_alloc k fuel a bin h) (AllocResult h live a bin pages segs)
  unfolding arena_alloc
  arena_alloc-AllocResult fuel enough_pages enough_segs =
      subst (λ b. Returns (alloc_from_bin k fuel a b h) (AllocResult h live a bin pages segs))
        (sym same) (alloc_from_bin-AllocResult fuel enough_pages enough_segs)
    where
      same : u8 bin ≡ bin
      same = omega (arith, lt)
