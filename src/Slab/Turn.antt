-- ===== src/Slab/Turn.antt =====
-- The slow path of slab_alloc_inner with arena_get: an arena is attached in turn.
use malloc.Common.{
  ℕ, ◌^◌, ◌<◌, ◌≤◌, ◌≡◌, ◌≢◌, refl, inl, inr, List, length, false, Bool-cases, some, ◌==◌, ne→==,
  arith, Returns, ℕ_discrete,
}
use malloc.Memory.{null}
use malloc.Os.{Kernel}
use malloc.SizeClass.{bin_to_size}
use malloc.Stats.{Tld}
use malloc.Heap.{Heap}
use malloc.Heap.Valid.{Live}
use malloc.Arena.Take.{kept}
use malloc.Arena.Growth.{CanGrow}
use malloc.Thread.{State, with_heap, arena_at, next_arena, tld_get, attach, arena_get}
use malloc.Slab.{from_arena, slow_path}
use malloc.Slab.Ready.{IsReady, extended-IsReady, with_arenas-IsHeap, with_arenas-IsExtended}
use malloc.Slab.Slow.{SlabResult, refused, arena-SlabResult}

-- What a request for a slot of a bin needs: of the kernel and the registry, slots of at most a page, and
-- as much fuel as the lists have entries.
pub record CanServe (k : Kernel) (fuel bin : ℕ) (h : Heap) (pages : ℕ → ℕ → List ℕ)
    (segs : ℕ → List ℕ) : Type 0 where
  pub grows : CanGrow k h.segs.registry h.segs.os
  pub some_size : 0 < bin_to_size h.classes bin
  pub small : bin_to_size h.classes bin ≤ 0x1_0000
  pub enough_pages : (a : ℕ) → a ≢ null → length (pages a bin) ≤ fuel
  pub enough_segs : (a : ℕ) → a ≢ null → length (segs a) ≤ fuel

pub tld_get_known : (k : Kernel) (s : State) (t : Tld) → s.tld ≡ some t → tld_get k s ≡ (some t, s)
unfolding tld_get
tld_get_known k s t e = rw e refl

module _ (k : Kernel) (fuel bin : ℕ) (live : Live) (t : Tld) (pages : ℕ → ℕ → List ℕ)
    (segs : ℕ → List ℕ) (lt : bin < 75) where
  from_arena-SlabResult :
      (a : ℕ) (s : State) (u : Tld)
      → a ≢ null
      → IsReady s.heap live u pages segs
      → s.tld ≡ some u
      → CanServe k fuel bin s.heap pages segs
      → Returns
          (from_arena k fuel bin (a, s))
          (SlabResult live (bin_to_size s.heap.classes bin) pages segs)
  unfolding from_arena
  from_arena-SlabResult a s u ne ready has_tld c = rw (ne→== a null ne) (
      arena-SlabResult k fuel a bin live u s pages segs ready has_tld ne lt c.grows c.some_size
        c.small (c.enough_pages a ne) (c.enough_segs a ne))

  attach-SlabResult :
      (s : State)
      → IsReady s.heap live t pages segs
      → s.tld ≡ some t
      → CanServe k fuel bin s.heap pages segs
      → s.heap.arena_next < 2 ^ 31
      → Returns
          (from_arena k fuel bin (attach (some t) s))
          (SlabResult live (bin_to_size s.heap.classes bin) pages segs)
  unfolding attach next_arena arena_at from_arena
  attach-SlabResult s ready has_tld c in_turn = elim (ℕ_discrete t.arena null) [
    | no attached ↦
        rw (ne→== t.arena null attached)
          (from_arena-SlabResult t.arena s t attached ready has_tld c)
    | yes detached ↦ elim (Bool-cases (s.heap.arena_count == 0)) [
      | inl none_there ↦
          rw (detached, none_there)
            ((record { slot = null; zeroed = false }, s), refl, refused _ _ t refl has_tld ready)
      | inr some_there ↦
          rw (detached, some_there)
            (from_arena-SlabResult turn (record (with_heap turned s) { tld = some attached_tld })
              attached_tld turn_lem turned-IsReady refl
              (record {
                grows = c.grows;
                some_size = c.some_size;
                small = c.small;
                enough_pages = c.enough_pages;
                enough_segs = c.enough_segs;
              }))
    ]
  ]
    where
      turn : ℕ
      turn = (next_arena s.heap).0

      turned : Heap
      turned = (next_arena s.heap).1

      attached_tld : Tld
      attached_tld = record t { arena = turn }

      turn_lem : turn ≢ null
      turn_lem e = absurd (ground (arith, e, in_turn))

      turned-IsReady : IsReady turned live attached_tld pages segs
      turned-IsReady =
          extended-IsReady s.heap turned live live t attached_tld pages segs
            (with_arenas-IsExtended s.heap turned.arena turned.arena_next)
            (with_arenas-IsHeap s.heap turned.arena turned.arena_next live ready.valid)
            (λ b. kept (λ x. x.bins) s.heap turn _ refl b)
            (λ b. kept (λ x. x.segments) s.heap turn _ refl b) refl ready

  pub slow_path-SlabResult :
      (s : State)
      → IsReady s.heap live t pages segs
      → s.tld ≡ some t
      → CanServe k fuel bin s.heap pages segs
      → s.heap.arena_next < 2 ^ 31
      → Returns
          (slow_path k fuel bin s)
          (SlabResult live (bin_to_size s.heap.classes bin) pages segs)
  unfolding slow_path arena_get
  slow_path-SlabResult s ready has_tld c in_turn =
      rw (tld_get_known k s t has_tld) (attach-SlabResult s ready has_tld c in_turn)
