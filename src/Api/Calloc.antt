-- ===== src/Api/Calloc.antt =====
-- my_calloc of src/malloc.c, of a size that a bin serves.
use malloc.Common.{
  ◌⊎◌, ℕ, ◌*◌, ◌^◌, ◌≤◌, ◌≡◌, refl, ap, ◌∙◌, inl, inr, true, Bool-cases, List, some, arith, ==_iff,
  ne→==, gt→leb, ge→ltb, le→leb, Returns,
}
use malloc.Config.{medium_max}
use malloc.Memory.{null}
use malloc.Os.{Kernel}
use malloc.Stats.{Tld}
use malloc.Heap.Valid.{IsHeap, Live}
use malloc.Thread.{State}
use malloc.Slab.{Answer, slab_alloc_zeroed}
use malloc.Slab.Slow.{IsGiven, SlabResult, refused, given}
use malloc.Api.{Process, enomem, memset, with_state, wrote, malloc_ensure_init, my_calloc, cleared}
use malloc.Api.Malloc.{CanServe, inner-SlabResult}

-- What my_calloc of `total` bytes leaves: NULL, ENOMEM and nothing else done, if `total` does not fit 64 bits;
-- NULL, and the slots held before are held; or a new slot that holds
-- `total` bytes, which memset has set to zero, unless the slab layer has answered that it is zero.
pub data IsCalloc (k : Kernel) (fuel : ℕ) (s : Process) (live : Live) (total : ℕ)
    : ℕ × Process → Type 0 where
  overflow : 2 ^ 64 ≤ total → IsCalloc k fuel s live total (null, record s { errno = some enomem })
  no_memory : (t : State) → IsHeap t.heap live → IsCalloc k fuel s live total (null, with_state s t)
  virgin :
      (q slot : ℕ) (t : State)
      → slab_alloc_zeroed k fuel total s.state ≡ some (record { slot = slot; zeroed = true }, t)
      → IsGiven live total q slot t
      → IsCalloc k fuel s live total (slot, with_state s t)
  zeroed :
      (q slot : ℕ) (t : State)
      → IsGiven live total q slot t
      → IsCalloc k fuel s live total (slot, wrote (memset slot 0 total) (with_state s t))

cleared-IsCalloc :
    (k : Kernel) (fuel total : ℕ) (s : Process) (live : Live) (pages : ℕ → ℕ → List ℕ)
    (segs : ℕ → List ℕ) (r : Answer × State)
    → slab_alloc_zeroed k fuel total s.state ≡ some r
    → SlabResult live total pages segs r
    → IsCalloc k fuel s live total (cleared total s r)
unfolding cleared
cleared-IsCalloc k fuel total s live pages segs r ran (refused answer t u e has ready) =
    rw e (no_memory t ready.valid)
cleared-IsCalloc k fuel total s live pages segs r ran (given q answer t g) =
    elim (Bool-cases answer.zeroed) [
      | inl z ↦
          rw (ne→== answer.slot null g.some_slot, z)
            (virgin q answer.slot t
              (ran ∙ ap (λ b. some (record { slot = answer.slot; zeroed = b }, t)) z) g)
      | inr z ↦ rw (ne→== answer.slot null g.some_slot, z) (zeroed q answer.slot t g)
    ]

-- my_calloc of a product that overflows 64 bits returns NULL, sets errno to ENOMEM and does nothing else. Of
-- another one that the thread can be served (`CanServe`) it returns NULL, and the heap is valid with the slots
-- held before; or a new slot that holds the product, set to zero by memset, all of it, unless the slab
-- layer has answered that the slot is zero.
pub my_calloc-IsCalloc :
    (k : Kernel) (fuel count size : ℕ) (live : Live) (t : Tld) (pages : ℕ → ℕ → List ℕ)
    (segs : ℕ → List ℕ) (s : Process)
    → (2 ^ 64 ≤ count * size) ⊎ CanServe k fuel (count * size) live t pages segs s.state
    → Returns (my_calloc k fuel count size s) (IsCalloc k fuel s live (count * size))
unfolding my_calloc malloc_ensure_init slab_alloc_zeroed
my_calloc-IsCalloc k fuel count size live t pages segs s (inl wraps) =
    rw (le→leb (2 ^ 64) (count * size) wraps)
      ((null, record s { errno = some enomem }), refl, overflow wraps)
my_calloc-IsCalloc k fuel count size live t pages segs s (inr c) =
    let (r, ran, w) = inner-SlabResult c in
    rw
      (
        gt→leb (2 ^ 64) (count * size) (omega (arith, c.medium)),
        (==_iff s.state.initialized 2).1 c.up,
        ne→== (count * size) 0 (λ z. absurd (omega (arith, z, c.pos))),
        ge→ltb medium_max (count * size) c.medium,
      )
      (
        cleared (count * size) s r,
        rw ran refl,
        cleared-IsCalloc k fuel (count * size) s live pages segs r ran w,
      )
