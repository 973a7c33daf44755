-- ===== src/Slab/Alloc.antt =====
-- slab_alloc_inner of src/slab.c, for a size that a bin serves.
use malloc.Common.{
  ℕ, ◌^◌, ◌<◌, ◌≡◌, ◌≢◌, refl, ◌∙◌, subst, inl, inr, List, get_or, set, length-set, get_or-set_self,
  get_or-set_ne, ◌&&◌, Bool-cases, some, ne→==, arith, Returns, ℕ_discrete,
}
use malloc.Memory.{null, not_null}
use malloc.Os.{Kernel}
use malloc.SizeClass.{bin_to_size}
use malloc.Stats.{Tld}
use malloc.Heap.{Heap, page_of}
use malloc.Heap.Valid.{IsHeap, Live}
use malloc.Arena.Moved.{hold_same}
use malloc.Thread.{State}
use malloc.Slab.{Answer, is_active, slow_path, or_slow, with_cache, with_tld, slab_bin}
use malloc.Slab.Fast.{FastResult, hit, missed, use_cached-FastResult}
use malloc.Slab.Ready.{IsCache, IsReady, extended-IsReady}
use malloc.Slab.Slow.{SlabResult, given}
use malloc.Slab.Turn.{CanServe, tld_get_known, slow_path-SlabResult}

-- The cache with a page taken out.
cleared-IsCache :
    (h : Heap) (t : Tld) (bin : ℕ)
    → IsCache h t
    → IsCache h (record t { bin_page = set t.bin_page bin null })
cleared-IsCache h t bin c = record {
  sized = length-set _ _ _ ∙ c.sized;
  open_pages = λ b lt ne. let e = left b lt ne in rw e (c.open_pages b lt (rw e at ne));
  fits = λ b lt ne. let e = left b lt ne in rw e (c.fits b lt (rw e at ne));
}
  where
    left :
        (b : ℕ)
        → b < 75
        → get_or (set t.bin_page bin null) b null ≢ null
        → get_or (set t.bin_page bin null) b null ≡ get_or t.bin_page b null
    left b lt ne = elim (ℕ_discrete bin b) [
      | yes e ↦ absurd (
          ne (
            subst (λ j. get_or (set t.bin_page bin null) j null ≡ null) e
              (get_or-set_self t.bin_page bin null null (omega (arith, lt, c.sized, e)))))
      | no other ↦ get_or-set_ne t.bin_page bin b null null other
    ]

module _ (k : Kernel) (fuel bin : ℕ) (live : Live) (t : Tld) (pages : ℕ → ℕ → List ℕ)
    (segs : ℕ → List ℕ) (lt : bin < 75) (s : State) (ready : IsReady s.heap live t pages segs)
    (has_tld : s.tld ≡ some t) (c : CanServe k fuel bin s.heap pages segs)
    (in_turn : s.heap.arena_next < 2 ^ 31) where
  abbrev p : ℕ
  p = get_or t.bin_page bin null

  or_slow-SlabResult :
      p ≢ null
      → {r : Answer × State} → FastResult s live bin p t r
      → Returns (or_slow k fuel bin r) (SlabResult live (bin_to_size s.heap.classes bin) pages segs)
  unfolding or_slow
  or_slow-SlabResult some_page (hit answer r u some_slot new ch has same) =
      rw (ne→== answer.slot null some_slot) (
        (answer, r),
        refl,
        given p answer r (record {
          thread = u;
          tld = has;
          some_slot = some_slot;
          new = new;
          open_page = ch.extended.opened p (ready.cache.open_pages bin lt some_page);
          fits =
              rw (ch.extended.size p (ready.cache.open_pages bin lt some_page))
                (ready.cache.fits bin lt some_page);
          pages = pages;
          segs = segs;
          ready =
              extended-IsReady s.heap r.heap live _ t u pages segs ch.extended ch.valid ch.bins
                ch.segments same ready;
        }),
      )
  or_slow-SlabResult some_page (missed answer r none_left ch has registry os next) = rw none_left (
      subst (λ l. Returns (slow_path k fuel bin r) (SlabResult live (bin_to_size l bin) pages segs))
        ch.extended.classes
        (slow_path-SlabResult k fuel bin live cleared pages segs lt r
          (extended-IsReady s.heap r.heap live live cleared cleared pages segs ch.extended
            (subst (IsHeap r.heap) (hold_same live p) ch.valid) ch.bins ch.segments refl
            (record {
              valid = ready.valid;
              arenas = ready.arenas;
              cache = cleared-IsCache s.heap t bin ready.cache;
            }))
          has
          (record {
            grows = rw (registry, os) c.grows;
            some_size = rw ch.extended.classes c.some_size;
            small = rw ch.extended.classes c.small;
            enough_pages = c.enough_pages;
            enough_segs = c.enough_segs;
          })
          (rw next in_turn)))
    where
      cleared : Tld
      cleared = record t { bin_page = set t.bin_page bin null }

  with_cache-SlabResult :
      Returns
        (with_cache k fuel bin t s)
        (SlabResult live (bin_to_size s.heap.classes bin) pages segs)
  unfolding with_cache
  with_cache-SlabResult = elim (Bool-cases (not_null p && is_active (page_of s.heap p).state)) [
    | inl usable ↦
        let some_page : p ≢ null = λ e. absurd (ground (arith, usable, e)) in
        let (r, ran, f) =
          use_cached-FastResult s live bin p t ready.valid
            (ready.cache.open_pages bin lt some_page) in
        rw (usable, ran) (or_slow-SlabResult some_page f)
    | inr unusable ↦
        rw unusable (slow_path-SlabResult k fuel bin live t pages segs lt s ready has_tld c in_turn)
  ]

  -- A request for a slot of a bin, of a thread that has its data, returns. If it gives a slot, nobody held
  -- the slot, and it is one of an open page whose slots hold the bin's size; the heap with that slot held is
  -- valid, the arenas are valid, and so is the thread's cache. If it gives NULL, the heap is valid with the
  -- slots held before, and so are the arenas, with the same pages and segments, and the thread's cache.
  pub slab_bin-SlabResult :
      Returns (slab_bin k fuel bin s) (SlabResult live (bin_to_size s.heap.classes bin) pages segs)
  unfolding slab_bin with_tld
  slab_bin-SlabResult = rw (tld_get_known k s t has_tld) with_cache-SlabResult
