-- ===== src/Slab/Request.antt =====
-- slab_alloc_inner of src/slab.c, from the requested size.
use malloc.Common.{
  ℕ, ◌/◌, ◌^◌, ◌<◌, ◌≤◌, ◌≡◌, ◌≢◌, refl, sym, subst, List, length, if◌then◌else◌, ◌==◌, some, arith,
  Returns, ge→ltb,
}
use native.Mathlib.Nat.{le_trans}
use malloc.Config.{medium_max, page_size_alloc}
use malloc.Memory.{null}
use malloc.Os.{Kernel}
use malloc.SizeClass.{size_to_bin, bin_to_size}
use malloc.SizeClass.Table.{tables, size_class_init-tables}
use malloc.SizeClass.Search.{IsBest, size_to_bin-IsBest}
use malloc.Stats.{Tld}
use malloc.Heap.Valid.{Live}
use malloc.Arena.Growth.{CanGrow}
use malloc.Thread.{State}
use malloc.Slab.{Answer, slab_alloc_inner}
use malloc.Slab.Ready.{IsReady}
use malloc.Slab.Slow.{IsGiven, SlabResult, refused, given}
use malloc.Slab.Alloc.{slab_bin-SlabResult}

-- The size that is served: 1 for 0.
abbrev pub served_size : ℕ → ℕ
served_size size = if size == 0 then 1 else size

served_size-pos : (size : ℕ) → 0 < served_size size
served_size-pos size = ground arith

-- A larger slot does.
smaller-IsGiven :
    {live : Live} {n size p slot : ℕ} {r : State}
    → n ≤ size
    → IsGiven live size p slot r
    → IsGiven live n p slot r
smaller-IsGiven le g = record {
  thread = g.thread;
  tld = g.tld;
  some_slot = g.some_slot;
  new = g.new;
  open_page = g.open_page;
  fits = le_trans le g.fits;
  pages = g.pages;
  segs = g.segs;
  ready = g.ready;
}

smaller-SlabResult :
    {live : Live} {n size : ℕ} {pages : ℕ → ℕ → List ℕ} {segs : ℕ → List ℕ} {r : Answer × State}
    → n ≤ size
    → SlabResult live size pages segs r
    → SlabResult live n pages segs r
smaller-SlabResult le (refused answer r t e has ready) = refused answer r t e has ready
smaller-SlabResult le (given p answer r g) = given p answer r (smaller-IsGiven le g)

tables-IsBest : (size : ℕ) → size ≤ medium_max → IsBest tables size (size_to_bin tables size)
tables-IsBest size h =
    subst (λ c. IsBest c size (size_to_bin c size)) (size_class_init-tables tables refl refl)
      (size_to_bin-IsBest tables size refl refl h)

-- With the size class tables set up, for a thread that has its data and finds the heap, the arenas and its
-- cache valid (`IsReady`), where a new segment can be asked for (`CanGrow`) and arena_next has not reached
-- 2^31: a request of a size that a bin serves, whose slots are at most half a page, returns, if the fuel is
-- as much as the lists have entries. If it gives a slot, nobody held the slot, and it is one of an open page
-- whose slots hold the size; the heap with that slot held is valid, and so are the arenas and the thread's
-- cache. If it gives NULL, the heap is valid with the slots held before, and so are the arenas, with the
-- same pages and segments, and the thread's cache.
pub slab_alloc_inner-SlabResult :
    (k : Kernel) (fuel size : ℕ) (live : Live) (t : Tld) (pages : ℕ → ℕ → List ℕ)
    (segs : ℕ → List ℕ) (s : State)
    → s.heap.classes ≡ tables
    → served_size size ≤ medium_max
    → bin_to_size s.heap.classes (size_to_bin s.heap.classes (served_size size))
      ≤ page_size_alloc / 2
    → IsReady s.heap live t pages segs
    → s.tld ≡ some t
    → CanGrow k s.heap.segs.registry s.heap.segs.os
    → s.heap.arena_next < 2 ^ 31
    → ((a : ℕ) → a ≢ null → length (pages a (size_to_bin s.heap.classes (served_size size))) ≤ fuel)
    → ((a : ℕ) → a ≢ null → length (segs a) ≤ fuel)
    → Returns (slab_alloc_inner k fuel size s) (SlabResult live (served_size size) pages segs)
unfolding slab_alloc_inner
slab_alloc_inner-SlabResult k fuel size live t pages segs s set_up medium half ready has_tld grows
      in_turn enough_pages enough_segs =
    let bin = size_to_bin s.heap.classes (served_size size) in
    let best : IsBest s.heap.classes (served_size size) bin =
      subst (λ c. IsBest c (served_size size) (size_to_bin c (served_size size))) (sym set_up)
        (tables-IsBest (served_size size) medium) in
    let (r, ran, w) =
      slab_bin-SlabResult k fuel bin live t pages segs best.range s ready has_tld
        (record {
          grows = grows;
          some_size = le_trans (served_size-pos size) best.fits;
          small = le_trans half (omega arith);
          enough_pages = enough_pages;
          enough_segs = enough_segs;
        })
        in_turn in
    rw (ge→ltb medium_max (served_size size) medium, ge→ltb (page_size_alloc / 2) _ half)
      (r, ran, smaller-SlabResult best.fits w)
