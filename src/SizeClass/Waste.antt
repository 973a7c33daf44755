-- ===== src/SizeClass/Waste.antt =====
-- How much larger than the request a slot is.
use malloc.Common.{
  ℕ, suc, ◌+◌, ◌-◌, ◌*◌, ◌≤◌, ◌<◌, ◌≡◌, ap, subst, arith, zero, refl, true, ◌||◌, ltb, leb,
  run_passes, run_passes-at, length,
}
use native.Mathlib.Numerals.{add-one}
use malloc.Common.Mask.{align_up}
use malloc.Config.{medium_max}
use malloc.SizeClass.{SizeClasses, size_class_init, size_to_bin, bin_to_size}
use malloc.SizeClass.Table.{tables, entry, entry_first, neighbours, size_class_init-tables}
use malloc.SizeClass.Search.{IsBest, size_to_bin-IsBest, bin_to_size-entry}

best_waste :
    (size bin : ℕ) → 8 < size → IsBest tables size bin → 8 * bin_to_size tables bin < 9 * size + 128
best_waste size zero lo best =
    absurd (omega (arith, bin_to_size-entry 0 (omega arith), first, best.fits))
  where
    first : entry 0 ≡ 8
    first = entry_first
best_waste size (suc j) lo best =
    step (entry j) (entry (j + 1)) (entry (suc j)) (bin_to_size tables (suc j))
      (neighbours j (omega (arith, best.range))).step (ap entry (add-one j))
      (bin_to_size-entry (suc j) best.range) below
  where
    below : entry j < size
    below =
        subst (λ e. e < size) (bin_to_size-entry j (omega (arith, best.range)))
          (best.least j (omega arith))

    step : (a b c d : ℕ) → 8 * b ≤ 9 * a + 128 → b ≡ c → d ≡ c → a < size → 8 * d < 9 * size + 128
    step a b c d p q r h = omega arith

-- After size_class_init, the slot of a size from 9 to MEDIUM_MAX exceeds the size by less than an
-- eighth of it and 16 bytes.
pub size_to_bin_waste :
    (g : SizeClasses) (size : ℕ)
    → length g.bin_size ≡ 75
    → length g.size_to_bin_small ≡ 17
    → 8 < size
    → size ≤ medium_max
    → let t = size_class_init g in 8 * bin_to_size t (size_to_bin t size) < 9 * size + 128
size_to_bin_waste g size m n lo hi = rw (size_class_init-tables g m n) (
    best_waste size (size_to_bin tables size) lo (
      subst (λ t. IsBest t size (size_to_bin t size)) (size_class_init-tables g m n)
        (size_to_bin-IsBest g size m n hi)))

-- by evaluation: the sizes from 145 to 153
slot_of : ℕ → ℕ
slot_of size = bin_to_size tables (size_to_bin tables size)

loose_table : run_passes (λ s. leb s 144 || ltb (slot_of s) (8 * (slot_of s - s))) 0 154 ≡ true
unfolding run_passes slot_of bin_to_size size_to_bin align_up
loose_table = refl

loose_slot : (size : ℕ) → 144 < size → size < 154 → slot_of size < 8 * (slot_of size - size)
loose_slot size lo hi = ground (
  arith,
  run_passes-at (λ s. leb s 144 || ltb (slot_of s) (8 * (slot_of s - s))) 0 154 size loose_table
      (omega arith) hi,
)

-- Sizes from 145 to 153 get slots of which more than an eighth is unused.
pub size_to_bin_loose :
    (g : SizeClasses) (size : ℕ)
    → length g.bin_size ≡ 75
    → length g.size_to_bin_small ≡ 17
    → 144 < size
    → size < 154
    → let t = size_class_init g in
      let slot = bin_to_size t (size_to_bin t size) in slot < 8 * (slot - size)
unfolding slot_of
size_to_bin_loose g size m n lo hi = rw (size_class_init-tables g m n) (loose_slot size lo hi)
