-- ===== src/Api/Free.antt =====
-- my_free of src/malloc.c, alone and after my_malloc.
use malloc.Common.{
  ℕ, ◌/◌, ◌^◌, ◌<◌, ◌≤◌, ◌≡◌, ◌≢◌, ◌⊎◌, inl, inr, Bool-cases, refl, ap, subst, fun_ext, List, ◌∷◌,
  false, true, some, length, arith, ne→==, ==_iff, ℕ_discrete, Returns,
}
use malloc.Memory.{null, not_null}
use malloc.Memory.Chain.{count, erase}
use malloc.Os.{Kernel}
use malloc.Segment.{ptr_to_segment, ptr_to_page}
use malloc.Heap.Valid.{IsOpen, IsHeap, Live, hold}
use malloc.Heap.Frame.{ptr_to_page-held}
use malloc.Page.Kept.{slots_inside}
use malloc.Thread.{State}
use malloc.Slab.{slab_free}
use malloc.Slab.Free.{IsFreed, slab_free-IsFreed}
use malloc.Stats.{Tld}
use malloc.Config.{medium_max, page_size_alloc}
use malloc.SizeClass.{size_to_bin, bin_to_size}
use malloc.SizeClass.Table.{tables}
use malloc.Arena.Growth.{CanGrow}
use malloc.Slab.{Answer}
use malloc.Slab.Ready.{IsReady}
use malloc.Slab.Slow.{IsGiven, SlabResult, refused, given}
use malloc.Api.Malloc.{my_malloc-IsMalloced}
use malloc.Api.{my_malloc, my_free, in_bootstrap}

module _ (k : Kernel) (s : State) (live : Live) (p ptr : ℕ) (v : IsHeap s.heap live)
    (o : IsOpen s.heap p) (held : count ptr (live p) ≢ 0)
    (outside : in_bootstrap s ptr ≡ false) where
  pub segment_known : not_null (ptr_to_segment s.heap.segs.registry ptr) ≡ true
  unfolding ptr_to_page
  segment_known = ground (arith, ptr_to_page-held p ptr v o held)

  -- my_free of a slot that callers hold, outside of the bootstrap buffer, returns, and takes the slot out of
  -- the slots held, once: the heap is valid with the slots left, the pages stay open with their sizes and
  -- their next links, and neither the lists of the arenas nor that of the large allocations change.
  pub my_free-IsFreed : Returns (my_free k ptr s) (IsFreed s live p ptr)
  unfolding my_free
  my_free-IsFreed =
      rw (ne→== ptr null some_slot, outside, segment_known)
        (slab_free k ptr s, refl, slab_free-IsFreed k s live p ptr v o held)
    where
      some_slot : ptr ≢ null
      some_slot e =
          let h = v.page p o in
          absurd (
            omega (
              arith,
              e,
              h.page.shaped.start_pos,
              (slots_inside h.page ptr (omega (arith, held))).0,
            ))

erase-first : (a : ℕ) (xs : List ℕ) → erase a (a ∷ xs) ≡ xs
erase-first a xs = rw ((==_iff a a).1 refl) refl

-- The slot just given, freed.
hold-erase :
    (live : Live) (p slot : ℕ)
    → let held = hold live p (slot ∷ live p) in hold held p (erase slot (held p)) ≡ live
hold-erase live p slot = fun_ext (λ q. elim (ℕ_discrete p q) [
  | yes e ↦ rw ((==_iff p q).1 e, (==_iff p p).1 refl, erase-first slot (live p)) (ap live e)
  | no ne ↦ rw (ne→== p q ne) refl
])

-- A slot that has been given can be freed.
my_free-given :
    (k : Kernel) (live : Live) (size p slot : ℕ) (r : State)
    → IsGiven live size p slot r
    → in_bootstrap r slot ≡ false
    → Returns (my_free k slot r) (λ u. IsHeap u.heap live)
my_free-given k live size p slot r g outside =
    let held : count slot (hold live p (slot ∷ live p) p) ≢ 0 =
      rw ((==_iff p p).1 refl) (ground arith) in
    let (u, ran, f) = my_free-IsFreed k r _ p slot g.ready.valid g.open_page held outside in
    (u, ran, subst (IsHeap u.heap) (hold-erase live p slot) f.heap.valid)

-- What my_malloc returns is NULL, or lies in the bootstrap buffer, or can be freed.
abbrev pub IsUndone : Kernel → Live → ℕ × State → Type 0
IsUndone k live r =
    (r.0 ≡ null)
    ⊎ ((in_bootstrap r.1 r.0 ≡ true) ⊎ Returns (my_free k r.0 r.1) (λ u. IsHeap u.heap live))

undone :
    (k : Kernel) (live : Live) (n : ℕ) (pages : ℕ → ℕ → List ℕ) (segs : ℕ → List ℕ)
    {r : Answer × State}
    → SlabResult live n pages segs r
    → IsUndone k live (r.0.slot, r.1)
undone k live n pages segs (refused answer r t e has ready) = inl e
undone k live n pages segs (given p answer r g) = elim (Bool-cases (in_bootstrap r answer.slot)) [
  | inl inside ↦ inr (inl inside)
  | inr outside ↦ inr (inr (my_free-given k live n p answer.slot r g outside))
]

-- In an initialised allocator with its size class tables, for a thread that has its data and finds the
-- heap, the arenas and its cache valid (`IsReady`), where a new segment can be asked for (`CanGrow`) and
-- arena_next has not reached 2^31: my_malloc of a size, not 0, that a bin serves with slots of at most half
-- a page returns, if the fuel is as much as the lists have entries. It returns NULL, or a pointer into the
-- bootstrap buffer, or a pointer that my_free takes back: my_free returns then, and the heap is valid with
-- exactly the slots held that were held before.
pub my_malloc-my_free :
    (k : Kernel) (fuel size : ℕ) (live : Live) (t : Tld) (pages : ℕ → ℕ → List ℕ)
    (segs : ℕ → List ℕ) (s : State)
    → s.initialized ≡ 2
    → s.heap.classes ≡ tables
    → 0 < size
    → size ≤ medium_max
    → bin_to_size s.heap.classes (size_to_bin s.heap.classes size) ≤ page_size_alloc / 2
    → IsReady s.heap live t pages segs
    → s.tld ≡ some t
    → CanGrow k s.heap.segs.registry s.heap.segs.os
    → s.heap.arena_next < 2 ^ 31
    → ((a : ℕ) → a ≢ null → length (pages a (size_to_bin s.heap.classes size)) ≤ fuel)
    → ((a : ℕ) → a ≢ null → length (segs a) ≤ fuel)
    → Returns (my_malloc k fuel size s) (IsUndone k live)
my_malloc-my_free k fuel size live t pages segs s up set_up pos medium half ready has_tld grows
      in_turn enough_pages enough_segs =
    let (r, ran, w) = my_malloc-IsMalloced (record {
      up = up;
      set_up = set_up;
      pos = pos;
      medium = medium;
      half = half;
      ready = ready;
      has_tld = has_tld;
      grows = grows;
      in_turn = in_turn;
      enough_pages = enough_pages;
      enough_segs = enough_segs;
    }) in
    (r, ran, undone k live size pages segs w.result)
