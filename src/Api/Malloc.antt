-- ===== src/Api/Malloc.antt =====
-- my_malloc of src/malloc.c, of a size that a bin serves.
use malloc.Common.{
  sym, ℕ, ◌/◌, ◌^◌, ◌<◌, ◌≤◌, ◌≡◌, ◌≢◌, refl, subst, List, length, some, arith, ==_iff, ne→==,
  ge→ltb, Bool, Returns,
}
use malloc.Config.{medium_max, page_size_alloc}
use malloc.Memory.{null}
use malloc.Os.{Kernel}
use malloc.SizeClass.{size_to_bin, bin_to_size}
use malloc.SizeClass.Table.{tables}
use malloc.Stats.{Tld}
use malloc.Heap.Valid.{Live}
use malloc.Arena.Growth.{CanGrow}
use malloc.Thread.{State}
use malloc.Slab.{slab_alloc, slab_alloc_inner}
use malloc.Slab.Ready.{IsReady}
use malloc.Slab.Request.{served_size, slab_alloc_inner-SlabResult}
use malloc.Slab.Slow.{SlabResult}
use malloc.Slab.Buffer.{Stays, slab_alloc_inner-Stays}
use malloc.Api.{malloc_ensure_init, my_malloc}

-- What a call of the slab layer needs: an initialised allocator with its size class tables, a thread that
-- has its data and finds the heap, the arenas and its cache valid, where a new segment can be asked for and
-- arena_next has not reached 2^31; a size, not 0, that a bin serves with slots of at most half a page, and as
-- much fuel as the lists have entries.
pub record CanServe (k : Kernel) (fuel size : ℕ) (live : Live) (t : Tld) (pages : ℕ → ℕ → List ℕ)
    (segs : ℕ → List ℕ) (s : State) : Type 0 where
  pub up : s.initialized ≡ 2
  pub set_up : s.heap.classes ≡ tables
  pub pos : 0 < size
  pub medium : size ≤ medium_max
  pub half : bin_to_size s.heap.classes (size_to_bin s.heap.classes size) ≤ page_size_alloc / 2
  pub ready : IsReady s.heap live t pages segs
  pub has_tld : s.tld ≡ some t
  pub grows : CanGrow k s.heap.segs.registry s.heap.segs.os
  pub in_turn : s.heap.arena_next < 2 ^ 31
  pub enough_pages : (a : ℕ) → a ≢ null → length (pages a (size_to_bin s.heap.classes size)) ≤ fuel
  pub enough_segs : (a : ℕ) → a ≢ null → length (segs a) ≤ fuel

-- What my_malloc leaves: a slot or NULL, and the bootstrap buffer where it was.
pub record IsMalloced (s : State) (live : Live) (size : ℕ) (pages : ℕ → ℕ → List ℕ)
    (segs : ℕ → List ℕ) (r : ℕ × State) : Type 0 where
  pub zeroed : Bool
  pub result : SlabResult live size pages segs (record { slot = r.0; zeroed = zeroed }, r.1)
  pub buffer : r.1.bootstrap_buf ≡ s.bootstrap_buf

pub served-same : {size : ℕ} → 0 < size → size ≡ served_size size
served-same pos = ground (arith, pos)

module _ {k : Kernel} {fuel size : ℕ} {live : Live} {t : Tld} {pages : ℕ → ℕ → List ℕ}
    {segs : ℕ → List ℕ} {s : State} (c : CanServe k fuel size live t pages segs s) where
  pub inner-SlabResult : Returns (slab_alloc_inner k fuel size s) (SlabResult live size pages segs)
  inner-SlabResult =
      let same : size ≡ served_size size = served-same c.pos in
      let (r, ran, w) =
        slab_alloc_inner-SlabResult k fuel size live t pages segs s c.set_up
          (subst (λ n. n ≤ medium_max) same c.medium)
          (subst
            (λ n. bin_to_size s.heap.classes (size_to_bin s.heap.classes n) ≤ page_size_alloc / 2)
            same c.half)
          c.ready c.has_tld c.grows c.in_turn
          (subst (λ n. (a : ℕ) → a ≢ null → length (pages a (size_to_bin s.heap.classes n)) ≤ fuel)
            same c.enough_pages)
          c.enough_segs in
      (r, ran, subst (λ n. SlabResult live n pages segs r) (sym same) w)

  pub my_malloc-IsMalloced : Returns (my_malloc k fuel size s) (IsMalloced s live size pages segs)
  unfolding my_malloc malloc_ensure_init slab_alloc
  my_malloc-IsMalloced =
      let (r, ran, w) = inner-SlabResult in
      rw
        (
          (==_iff s.initialized 2).1 c.up,
          ne→== size 0 (λ z. absurd (omega (arith, z, c.pos))),
          ge→ltb medium_max size c.medium,
        )
        (
          (r.0.slot, r.1),
          rw ran refl,
          record {
            zeroed = r.0.zeroed;
            result = w;
            buffer = subst (Stays s.bootstrap_buf) ran (slab_alloc_inner-Stays k fuel size s);
          },
        )
