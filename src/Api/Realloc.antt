-- ===== src/Api/Realloc.antt =====
-- my_realloc of src/malloc.c, of a slot that callers hold.
use malloc.Common.{
  Option, none, ◌+◌, ◌%◌, ℕ, ◌^◌, ◌≤◌, ◌≡◌, ◌≢◌, refl, sym, ap, ◌∙◌, subst, inl, inr, Bool, false,
  Bool-cases, List, ◌∷◌, some, arith, ltb, leb, ◌&&◌, ◌==◌, if◌then◌else◌, ==_iff, ne→==, leb→le,
  ℕ_discrete, Returns,
}
use malloc.Memory.{null}
use malloc.Memory.Chain.{count, erase}
use malloc.Os.{Kernel}
use malloc.SizeClass.{size_to_bin}
use malloc.Stats.{Tld}
use malloc.Heap.{page_of}
use malloc.Heap.Valid.{IsOpen, IsHeap, Live, hold}
use malloc.Heap.Frame.{ptr_to_page-held, held-IsOpen}
use malloc.Thread.{State}
use malloc.Slab.{Answer}
use malloc.Slab.Slow.{IsGiven, SlabResult, refused, given}
use malloc.Slab.Free.{some_slot}
use malloc.Api.{
  Process, memcpy, with_state, wrote, in_bootstrap, known_page, my_realloc, realloc_known,
  reallocate, move_to,
}
use malloc.Api.Malloc.{CanServe, my_malloc-IsMalloced}
use malloc.Api.Known.{realloc_known-page, my_realloc-known}
use malloc.Api.Free.{segment_known, my_free-IsFreed}

abbrev pub smaller : ℕ → ℕ → ℕ
smaller a b = if ltb a b then a else b

-- The new size fits the slots of page `p` and belongs to its bin.
pub record IsSameClass (s : Process) (p new_size : ℕ) : Type 0 where
  pub room : new_size ≤ (page_of s.state.heap p).slot_size
  pub bin : size_to_bin s.state.heap.classes new_size ≡ (page_of s.state.heap p).bin_idx

-- What my_realloc of the held slot `ptr` of page `p` leaves. For a size of the same class: the same slot, with
-- nothing done. For another one: NULL, and the slot is still held; or another slot, of an open page whose slots
-- hold the new size, to which as many bytes as fit both have been copied, and which is held in place of the
-- old one.
pub data IsRealloc (s : Process) (live : Live) (p ptr new_size : ℕ) : ℕ × Process → Type 0 where
  in_place : IsSameClass s p new_size → IsRealloc s live p ptr new_size (ptr, s)
  no_memory :
      (t : State)
      → ¬ (IsSameClass s p new_size)
      → IsHeap t.heap live
      → IsRealloc s live p ptr new_size (null, with_state s t)
  moved :
      (q slot : ℕ) (t : State)
      → ¬ (IsSameClass s p new_size)
      → count slot (live q) ≡ 0
      → new_size ≤ (page_of t.heap q).slot_size
      → IsHeap t.heap
          (hold (hold live q (slot ∷ live q)) p (erase ptr (hold live q (slot ∷ live q) p)))
      → IsRealloc s live p ptr new_size (
        slot,
        wrote
            (memcpy slot ptr (smaller (page_of s.state.heap p).slot_size new_size))
            (with_state s t),
      )

hold-still :
    (live : Live) (q slot p ptr : ℕ)
    → count ptr (live p) ≢ 0
    → count ptr (hold live q (slot ∷ live q) p) ≢ 0
hold-still live q slot p ptr held = elim (ℕ_discrete q p) [
  | yes e ↦ rw ((==_iff q p).1 e, e) (λ z. held (omega (arith, z)))
  | no ne ↦ rw (ne→== q p ne) held
]

module _ {k : Kernel} {fuel new_size : ℕ} {live : Live} {t : Tld} {pages : ℕ → ℕ → List ℕ}
    {segs : ℕ → List ℕ} (s : Process) (p ptr : ℕ)
    (c : CanServe k fuel new_size live t pages segs s.state) (held : count ptr (live p) ≢ 0)
    (outside : in_bootstrap s.state ptr ≡ false) where
  open_page : IsOpen s.state.heap p
  open_page = held-IsOpen c.ready.valid p ptr held

  page_known : known_page s.state ptr ≡ some p
  unfolding known_page
  page_known =
      rw
        (
          segment_known k s.state live p ptr c.ready.valid open_page held outside,
          ptr_to_page-held p ptr c.ready.valid open_page held,
        )
        (ap some (omega arith))

  -- The old slot is freed after a new one has been given.
  free_old :
      ¬ (IsSameClass s p new_size)
      → (q slot : ℕ) (r : State) → IsGiven live new_size q slot r
      → r.bootstrap_buf ≡ s.state.bootstrap_buf
      → Returns
          (move_to k ptr (smaller (page_of s.state.heap p).slot_size new_size) s (slot, r))
          (IsRealloc s live p ptr new_size)
  unfolding move_to
  free_old other q slot r g same =
      let now = hold live q (slot ∷ live q) in
      let still : count ptr (now p) ≢ 0 = hold-still live q slot p ptr held in
      let out : in_bootstrap r ptr ≡ false =
        subst (λ b. (leb b ptr && ltb ptr ((b + 0x1_0000) % 2 ^ 64)) ≡ false) (sym same) outside in
      let (u, ran, f) =
        my_free-IsFreed k r now p ptr g.ready.valid (held-IsOpen g.ready.valid p ptr still) still
          out in
      rw (ne→== slot null g.some_slot, ran)
        (
          _,
          refl,
          moved q slot u other g.new (rw (f.heap.extended.size q g.open_page) g.fits) f.heap.valid,
        )

  after_malloc :
      ¬ (IsSameClass s p new_size)
      → (x : Answer × State) → SlabResult live new_size pages segs x
      → x.1.bootstrap_buf ≡ s.state.bootstrap_buf
      → Returns
          (move_to k ptr (smaller (page_of s.state.heap p).slot_size new_size) s (x.0.slot, x.1))
          (IsRealloc s live p ptr new_size)
  unfolding move_to
  after_malloc other x (refused answer r u e has ready) same =
      ((null, with_state s r), rw e refl, no_memory r other ready.valid)
  after_malloc other x (given q answer r g) same = free_old other q answer.slot r g same

  elsewhere :
      ¬ (IsSameClass s p new_size)
      → Returns
          (reallocate k fuel ptr (page_of s.state.heap p).slot_size new_size s)
          (IsRealloc s live p ptr new_size)
  unfolding reallocate
  elsewhere other =
      let (r, ran, w) = my_malloc-IsMalloced c in
      let (u, moved_to, z) =
        after_malloc other (record { slot = r.0; zeroed = w.zeroed }, r.1) w.result w.buffer in
      (
        u,
        ap
              (λ (o : Option (ℕ × State)). elim o as (λ x. Option (ℕ × Process)) [
                | none ↦ none
                | some r ↦ move_to k ptr (smaller (page_of s.state.heap p).slot_size new_size) s r
              ])
              ran
            ∙ moved_to,
        z,
      )

  stay_or_move : Bool
  stay_or_move =
      leb new_size (page_of s.state.heap p).slot_size
      && (size_to_bin s.state.heap.classes new_size == (page_of s.state.heap p).bin_idx)

  known : Returns (realloc_known k fuel ptr new_size s) (IsRealloc s live p ptr new_size)
  unfolding stay_or_move
  known = elim (Bool-cases stay_or_move) [
    | inl stay ↦ (
      (ptr, s),
      realloc_known-page k fuel ptr new_size s page_known ∙ rw stay refl,
      in_place (record {
        room = leb→le _ _ (ground (arith, stay));
        bin = (==_iff _ _).0 (ground (arith, stay));
      }),
    )
    | inr move ↦
        let (r, ran, w) = elsewhere (λ c. ground (arith, move, c.room, c.bin)) in
        (r, realloc_known-page k fuel ptr new_size s page_known ∙ rw move ran, w)
  ]

  -- In an initialised allocator whose thread can serve the new size (`CanServe`), my_realloc of a slot that
  -- callers hold, outside of the bootstrap buffer, returns. If the new size fits the slot and belongs to its
  -- bin, it returns the same pointer and has done nothing. If not, it returns NULL, and the heap is valid with
  -- the slots held before; or a slot that nobody held, of slots that hold the new size: the smaller of the old
  -- slot's size and the new size is the number of bytes copied, and the heap is valid with the new slot held
  -- and the old one not.
  pub my_realloc-IsRealloc :
      Returns (my_realloc k fuel ptr new_size s) (IsRealloc s live p ptr new_size)
  my_realloc-IsRealloc =
      let (r, ran, w) = known in
      (
        r,
        my_realloc-known k fuel ptr new_size s c.up
              (some_slot k s.state live p ptr c.ready.valid open_page held)
              (λ z. absurd (omega (arith, z, c.pos))) outside
            ∙ ran,
        w,
      )
