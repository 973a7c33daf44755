-- ===== src/Large/Free.antt =====
-- What large_free of src/large.c does.
use malloc.Common.{ℕ, ◌≡◌, ◌≢◌, List, arith, refl, some, ne→==, ℕ_discrete, sub64}
use malloc.Memory.{null}
use malloc.Memory.Chain.{count, erase, length-erase}
use malloc.Os.{os_munmap}
use malloc.Large.{Large, covers, unlink, drop, large_free}
use malloc.Large.Linked.{IsLarge, null-not, erase-Distinct}
use malloc.Large.Find.{find_loop-IsFound, IsFound}
use malloc.Large.Unlink.{Skips, Skips-Linked}

unlink-Skips : (la : ℕ) (s : Large) → Skips s.headers (unlink la s).headers la
unfolding unlink
unlink-Skips la s = record { nexts = λ y ne. ground arith; prevs = λ y ne. ground arith }

-- The header `r` is out of the list, all others are in it still, and its mapping is given back.
pub record IsFreed (s : Large) (xs : List ℕ) (r : ℕ) (t : Large) : Type 0 where
  pub listed : IsLarge t (erase r xs)
  pub others : (y : ℕ) (ptr : ℕ) → covers (t.headers y) ptr ≡ covers (s.headers y) ptr
  pub unmapped : t.os ≡ os_munmap (s.headers r).base (s.headers r).size s.os
  pub bytes : t.large_allocated ≡ sub64 s.large_allocated (s.headers r).user_size

drop-IsFreed :
    (s : Large) (xs : List ℕ) (r : ℕ) → IsLarge s xs → count r xs ≢ 0 → IsFreed s xs r (drop r s)
unfolding drop unlink
drop-IsFreed s xs r v m = record {
  listed = record {
    linked =
        Skips-Linked s.headers (unlink r s).headers r null s.large_list xs (unlink-Skips r s)
          (null-not s.headers null s.large_list xs v.linked) v.distinct v.linked m;
    distinct = erase-Distinct r xs v.distinct;
    counted = omega (arith, v.counted, v.bounded, length-erase r xs m);
    bounded = omega (arith, v.bounded, length-erase r xs m);
  };
  others = λ y ptr. ground arith;
  unmapped = refl;
  bytes = refl;
}

-- large_free of a pointer that is not NULL ends. If a header's mapping holds the pointer, such
-- a header is taken out of the list, which stays well linked with all the others in it, and its
-- mapping is unmapped; if none does, nothing changes.
pub large_free-IsFreed :
    (s : Large) (xs : List ℕ) (ptr : ℕ)
    → IsLarge s xs
    → ptr ≢ null
    → (t : Large) × (r : ℕ) × (large_free s ptr ≡ some t)
      × IsFound s.headers xs ptr r
      × ((r ≡ null → t ≡ s) × (r ≢ null → IsFreed s xs r t))
unfolding large_free
large_free-IsFreed s xs ptr v ne =
    let (r, e, f) = find_loop-IsFound s.headers ptr null s.large_list xs v.linked in
    elim (ℕ_discrete r null) [
      | yes missed ↦ (
        s,
        r,
        rw (ne→== ptr null ne, v.counted, e, missed) refl,
        f,
        ((λ _. refl), λ some_r. absurd (some_r missed)),
      )
      | no hit ↦ (
        drop r s,
        r,
        rw (ne→== ptr null ne, v.counted, e, ne→== r null hit) refl,
        f,
        ((λ missed. absurd (hit missed)), λ _. drop-IsFreed s xs r v (f.found hit).0),
      )
    ]
