-- ===== src/Api/Aligned.antt =====
-- The alignment of what my_memalign of src/malloc.c takes from the slab layer.
use malloc.Common.{ℕ, ltb, lt→ltb, dec_lt, refl, if◌then◌else◌, ◌+◌, ◌*◌, ◌%◌, ◌≤◌, ◌≡◌, ◌≢◌, arith}
use malloc.Common.Mask.{align_up}
use malloc.SizeClass.{size_to_bin, bin_to_size}
use malloc.SizeClass.Table.{tables}
use malloc.Api.{aligned_size}

-- For an alignment of 256 and a size up to 256, my_memalign asks the slab layer for slots of which, in a page
-- that starts on such a boundary, only every sixteenth lies on one.
pub aligned_size_off :
    (size start i : ℕ)
    → size ≤ 256
    → start % 256 ≡ 0
    → i % 16 ≢ 0
    → (start + i * bin_to_size tables (size_to_bin tables (aligned_size 256 size))) % 256 ≢ 0
unfolding aligned_size size_to_bin bin_to_size align_up
aligned_size_off size start i small on ne = rw size_is_256 (λ e. absurd (omega (arith, e, on, ne)))
  where
    size_is_256 : align_up (if ltb size 256 then 256 else size) 256 ≡ 256
    size_is_256 = elim (dec_lt size 256) [
      | yes below ↦ rw (lt→ltb size 256 below) refl
      | no above ↦ (let e : size ≡ 256 = omega (arith, small, above) in rw e refl)
    ]
