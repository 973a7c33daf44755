-- ===== src/Slab/Slow.antt =====
-- The slow path of slab_alloc_inner: arena_get, arena_alloc and the claim of the page.
use malloc.Common.{
  ℕ, ◌<◌, ◌≤◌, ◌≡◌, ◌≢◌, refl, sym, ap, ◌∙◌, subst, inl, inr, List, ◌∷◌, length, get_or, set,
  length-set, get_or-set_self, get_or-set_ne, Bool-cases, some, if◌then◌else◌, ◌==◌, ne→==, ==_iff,
  arith, Returns, ℕ_discrete,
}
use mathlib.Core.Option
use mathlib.Core.Option.{some-injective}
use malloc.Memory.{null}
use malloc.Memory.Chain.{count}
use malloc.Os.{Kernel}
use malloc.Page.{no_owner}
use malloc.SizeClass.{bin_to_size}
use malloc.Stats.{Tld}
use malloc.Heap.{Heap, page_ref, index_of, seg_of, page_of}
use malloc.Heap.Valid.{IsOpen, Live, hold}
use malloc.Heap.Update.{rewritten}
use malloc.Heap.Frame.{ptr_to_page-held}
use malloc.Arena.{arena_alloc}
use malloc.Arena.Scan.{IsExtended, IsExtended-refl, IsArena, extended-IsArena}
use malloc.Arena.Moved.{moved-IsHeap, moved-IsExtended}
use malloc.Arena.Growth.{CanGrow}
use malloc.Arena.Alloc.{AllocResult, failed, served, IsServed, arena_alloc-AllocResult}
use malloc.Thread.{State, with_heap}
use malloc.Slab.{Answer, claim_page, claim, after_arena}
use malloc.Slab.Ready.{IsCache, IsReady, extended-IsReady, extended-IsCache}

-- A page put into the cache.
cached-IsCache :
    (h : Heap) (t : Tld) (bin p : ℕ)
    → bin < 75
    → IsOpen h p
    → bin_to_size h.classes bin ≤ (page_of h p).slot_size
    → IsCache h t
    → IsCache h (record t { bin_page = set t.bin_page bin p })
cached-IsCache h t bin p lt o fits c = record {
  sized = length-set _ _ _ ∙ c.sized;
  open_pages = λ b lt' ne. open_at b lt' (ℕ_discrete bin b) ne;
  fits = λ b lt' ne. fits_at b lt' (ℕ_discrete bin b) ne;
}
  where
    cell : ℕ → ℕ
    cell b = get_or (set t.bin_page bin p) b null

    here : cell bin ≡ p
    here = get_or-set_self t.bin_page bin p null (omega (arith, c.sized, lt))

    there : (b : ℕ) → bin ≢ b → cell b ≡ get_or t.bin_page b null
    there b other = get_or-set_ne t.bin_page bin b p null other

    open_at : (b : ℕ) → b < 75 → Dec (bin ≡ b) → cell b ≢ null → IsOpen h (cell b)
    open_at b lt' (yes e) ne = subst (λ t. IsOpen h (cell t)) e (rw here o)
    open_at b lt' (no other) ne = rw (there b other) (c.open_pages b lt' (rw (there b other) at ne))

    fits_at :
        (b : ℕ)
        → b < 75
        → Dec (bin ≡ b)
        → cell b ≢ null
        → bin_to_size h.classes b ≤ (page_of h (cell b)).slot_size
    fits_at b lt' (yes e) ne =
        subst (λ t. bin_to_size h.classes t ≤ (page_of h (cell t)).slot_size) e (rw here fits)
    fits_at b lt' (no other) ne = rw (there b other) (c.fits b lt' (rw (there b other) at ne))

-- A slot that nobody held is held, of an open page `p` with slots that hold the bin's size, and the thread
-- is ready again.
pub record IsGiven (live : Live) (size p slot : ℕ) (r : State) : Type 0 where
  pub thread : Tld
  pub tld : r.tld ≡ some thread
  pub some_slot : slot ≢ null
  pub new : count slot (live p) ≡ 0
  pub open_page : IsOpen r.heap p
  pub fits : size ≤ (page_of r.heap p).slot_size
  pub pages : ℕ → ℕ → List ℕ
  pub segs : ℕ → List ℕ
  pub ready : IsReady r.heap (hold live p (slot ∷ live p)) thread pages segs

-- The claim of the page of a slot that has just been given out.
module _ (live : Live) (size bin p slot : ℕ) (s : State) (lt : bin < 75)
    (same : bin_to_size s.heap.classes bin ≡ size) (g : IsGiven live size p slot s) where
  abbrev cached : Tld
  cached = record g.thread { bin_page = set g.thread.bin_page bin p }

  cached_lem : IsCache s.heap cached
  cached_lem = cached-IsCache s.heap g.thread bin p lt g.open_page (rw same g.fits) g.ready.cache

  -- This thread's page already.
  own-IsGiven : IsGiven live size p slot (record s { tld = some cached })
  own-IsGiven = record {
    thread = cached;
    tld = refl;
    some_slot = g.some_slot;
    new = g.new;
    open_page = g.open_page;
    fits = g.fits;
    pages = g.pages;
    segs = g.segs;
    ready = record { valid = g.ready.valid; arenas = g.ready.arenas; cache = cached_lem };
  }

  -- The owner written.
  abbrev owned : Heap
  owned =
      rewritten s.heap p (record (page_of s.heap p) { owner_tid = g.thread.thread_id }) s.heap.mem

  owned-IsExtended : IsExtended s.heap owned
  owned-IsExtended =
      moved-IsExtended s.heap p _ g.ready.valid g.open_page (page_of s.heap p).next
        (page_of s.heap p).prev g.thread.thread_id s.heap (IsExtended-refl s.heap) (λ _. refl)

  claimed-IsGiven : IsGiven live size p slot (record (with_heap owned s) { tld = some cached })
  claimed-IsGiven = record {
    thread = cached;
    tld = refl;
    some_slot = g.some_slot;
    new = g.new;
    open_page = owned-IsExtended.opened p g.open_page;
    fits = rw (owned-IsExtended.size p g.open_page) g.fits;
    pages = g.pages;
    segs = g.segs;
    ready =
        extended-IsReady s.heap owned _ _ cached cached g.pages g.segs owned-IsExtended
          (moved-IsHeap s.heap p _ g.ready.valid g.open_page (page_of s.heap p).next
            (page_of s.heap p).prev g.thread.thread_id)
          (λ a. refl) (λ a. refl) refl
          (record { valid = g.ready.valid; arenas = g.ready.arenas; cache = cached_lem });
  }

  claim_page-IsGiven : IsGiven live size p slot (claim_page bin p g.thread s)
  unfolding claim_page
  claim_page-IsGiven = elim (Bool-cases ((page_of s.heap p).owner_tid == no_owner)) [
    | inl free ↦ rw free claimed-IsGiven
    | inr owned_page ↦ elim (Bool-cases ((page_of s.heap p).owner_tid == g.thread.thread_id)) [
      | inl own ↦ rw (owned_page, own) own-IsGiven
      | inr other ↦ rw (owned_page, other) g
    ]
  ]

  claim-IsGiven : IsGiven live size p slot (claim bin slot g.thread s)
  unfolding claim
  claim-IsGiven =
      let held : count slot (hold live p (slot ∷ live p) p) ≢ 0 =
        rw ((==_iff p p).1 refl) (ground arith) in
      let back : page_ref (seg_of p) (index_of p) ≡ p = omega arith in
      rw (claim, ptr_to_page-held p slot g.ready.valid g.open_page held, back) claim_page-IsGiven

-- What a request for a slot of a bin leaves, of a thread that was ready.
pub data SlabResult (live : Live) (size : ℕ) (pages : ℕ → ℕ → List ℕ) (segs : ℕ → List ℕ)
    : Answer × State → Type 0 where
  refused :
      (answer : Answer) (r : State) (t : Tld)
      → answer.slot ≡ null
      → r.tld ≡ some t
      → IsReady r.heap live t pages segs
      → SlabResult live size pages segs (answer, r)
  given :
      (p : ℕ) (answer : Answer) (r : State)
      → IsGiven live size p answer.slot r
      → SlabResult live size pages segs (answer, r)

-- The slow path from the heap `s.heap`, of the arena `a`.
module _ (k : Kernel) (fuel a bin : ℕ) (live : Live) (t : Tld) (s : State) (pages : ℕ → ℕ → List ℕ)
    (segs : ℕ → List ℕ) (ready : IsReady s.heap live t pages segs) (has_tld : s.tld ≡ some t)
    (some_arena : a ≢ null) (lt : bin < 75) where
  served-IsGiven :
      (p : ℕ) (r : ℕ × Heap)
      → IsServed s.heap live a bin (pages a) (segs a) p r
      → IsGiven live (bin_to_size s.heap.classes bin) p r.0 (with_heap r.1 s)
  served-IsGiven p r w = record {
    thread = t;
    tld = has_tld;
    some_slot = w.some_slot;
    new = w.new;
    open_page = w.open_page;
    fits = w.fits;
    pages = λ b. if a == b then w.pages_after else pages b;
    segs = λ b. if a == b then w.segs_after else segs b;
    ready = record {
      valid = w.valid;
      arenas = λ b ne. each b ne (ℕ_discrete a b);
      cache = extended-IsCache s.heap r.1 t t w.extended refl ready.cache;
    };
  }
    where
      each :
          (b : ℕ)
          → b ≢ null
          → Dec (a ≡ b)
          → IsArena r.1 b
              (if a == b then w.pages_after else pages b)
              (if a == b then w.segs_after else segs b)
      each b ne (yes e) =
          subst
            (λ c.
              IsArena r.1 c (if a == c then w.pages_after else pages c)
                (if a == c then w.segs_after else segs c))
            e (rw ((==_iff a a).1 refl) w.arena)
      each b ne (no other) = rw (ne→== a b other) (
          extended-IsArena s.heap r.1 b (pages b) (segs b) w.extended (w.other_bins b other)
            (w.other_segs b other) (ready.arenas b ne))

  after_arena-SlabResult :
      {r : ℕ × Heap}
      → AllocResult s.heap live a bin (pages a) (segs a) r
      → SlabResult live (bin_to_size s.heap.classes bin) pages segs (after_arena bin s r)
  unfolding after_arena
  after_arena-SlabResult (failed g v x same) = refused _ _ t refl has_tld (
      extended-IsReady s.heap g live live t t pages segs x v (λ b. ap (λ f. (f b).bins) same)
        (λ b. ap (λ f. (f b).segments) same) refl ready)
  after_arena-SlabResult (served p r w) =
      rw (ne→== r.0 null w.some_slot, has_tld)
        (given p _ _ (
          subst
            (λ u.
              IsGiven live (bin_to_size s.heap.classes bin) p r.0
                (claim bin r.0 u (with_heap r.1 s)))
            (some-injective _ _ (sym (served-IsGiven p r w).tld ∙ has_tld))
            (claim-IsGiven live (bin_to_size s.heap.classes bin) bin p r.0 (with_heap r.1 s) lt
              (ap (λ c. bin_to_size c bin) w.extended.classes) (served-IsGiven p r w))))

  pub arena-SlabResult :
      CanGrow k s.heap.segs.registry s.heap.segs.os
      → 0 < bin_to_size s.heap.classes bin
      → bin_to_size s.heap.classes bin ≤ 0x1_0000
      → length (pages a bin) ≤ fuel
      → length (segs a) ≤ fuel
      → Returns
          (Option.map (after_arena bin s) (arena_alloc k fuel a bin s.heap))
          (SlabResult live (bin_to_size s.heap.classes bin) pages segs)
  arena-SlabResult c pos small enough_pages enough_segs =
      let (r, ran, w) =
        arena_alloc-AllocResult k a bin s.heap live (pages a) (segs a) ready.valid
          (ready.arenas a some_arena) c lt pos small fuel enough_pages enough_segs in
      (after_arena bin s r, rw ran refl, after_arena-SlabResult w)
