-- ===== src/Zone/Claim.antt =====
-- zone_claimed_address of src/zone.c against my_free.
use malloc.Common.{
  ℕ, ◌≡◌, ◌≢◌, refl, inl, inr, Bool, true, false, Bool-cases, some, List, ne→==, ℕ_discrete,
  Returns,
}
use malloc.Memory.{null}
use malloc.Memory.Chain.{count}
use malloc.Os.{Kernel}
use malloc.Large.{covers, large_find, large_free}
use malloc.Large.Linked.{IsLarge}
use malloc.Large.Find.{large_find-IsFound}
use malloc.Segment.{ptr_to_segment}
use malloc.Heap.Valid.{IsOpen, IsHeap, Live}
use malloc.Thread.{State}
use malloc.Slab.Free.{segment_known, some_slot}
use malloc.Api.{my_free, free_large, in_bootstrap}
use malloc.Zone.{zone_claimed_address}

-- What is claimed of a pointer: what is not claimed my_free leaves alone, a slot that callers hold is
-- claimed, and so is a pointer into a large allocation.
pub record IsClaim (k : Kernel) (s : State) (live : Live) (larges : List ℕ) (ptr : ℕ)
    (claimed : Bool) : Type 0 where
  pub foreign : claimed ≡ false → my_free k ptr s ≡ some s
  pub slot : (p : ℕ) → IsOpen s.heap p → count ptr (live p) ≢ 0 → claimed ≡ true
  pub large :
      (la : ℕ)
      → ptr ≢ null
      → count la larges ≢ 0
      → covers (s.large.headers la) ptr ≡ true
      → claimed ≡ true

module _ (k : Kernel) (s : State) (live : Live) (larges : List ℕ) (ptr : ℕ) (v : IsHeap s.heap live)
    (l : IsLarge s.large larges) (one_os : s.large.os ≡ s.heap.segs.os) where
  claimed_yes : IsClaim k s live larges ptr true
  claimed_yes = record { foreign = λ e. cc; slot = λ p o h. refl; large = λ la ne m c. refl }

  not_slot :
      ptr_to_segment s.heap.segs.registry ptr ≡ null
      → (p : ℕ) → IsOpen s.heap p
      → count ptr (live p) ≢ 0
      → false ≡ true
  not_slot e p o h = absurd (segment_known k s live p ptr v o h e)

  by_large :
      ptr ≢ null
      → in_bootstrap s ptr ≡ false
      → ptr_to_segment s.heap.segs.registry ptr ≡ null
      → Returns (zone_claimed_address ptr s) (IsClaim k s live larges ptr)
  unfolding zone_claimed_address my_free free_large large_free large_find
  by_large ne out no_segment =
      let (r, ran, f) = large_find-IsFound s.large larges ptr l in
      elim (ℕ_discrete r null) [
        | no hit ↦
            (true, rw (ne→== ptr null ne, out, no_segment, ran, ne→== r null hit) refl, claimed_yes)
        | yes missed ↦ (
          false,
          rw (ne→== ptr null ne, out, no_segment, ran, missed) refl,
          record {
            foreign = λ _. rw (ne→== ptr null ne, out, no_segment, ran, missed, one_os) refl;
            slot = not_slot no_segment;
            large = λ la some_ptr m c. cc (f.missed missed la m);
          },
        )
      ]

  -- In a valid heap with a well-linked list of large allocations, zone_claimed_address returns, and claims
  -- every slot that callers hold and every pointer into a large allocation; what it does not claim,
  -- my_free leaves alone.
  pub zone_claimed_address-IsClaim :
      Returns (zone_claimed_address ptr s) (IsClaim k s live larges ptr)
  unfolding zone_claimed_address my_free free_large
  zone_claimed_address-IsClaim = elim (ℕ_discrete ptr null) [
    | yes e ↦ (
      false,
      rw e refl,
      record {
        foreign = λ _. rw e refl;
        slot = λ p o h. absurd (some_slot k s live p ptr v o h e);
        large = λ la ne m c. absurd (ne e);
      },
    )
    | no ne ↦ elim (Bool-cases (in_bootstrap s ptr)) [
      | inl boot ↦ (true, rw (ne→== ptr null ne, boot) refl, claimed_yes)
      | inr out ↦ elim (ℕ_discrete (ptr_to_segment s.heap.segs.registry ptr) null) [
        | no seg ↦ (true, rw (ne→== ptr null ne, out, ne→== _ null seg) refl, claimed_yes)
        | yes none_there ↦ by_large ne out none_there
      ]
    ]
  ]
