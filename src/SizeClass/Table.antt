-- ===== src/SizeClass/Table.antt =====
-- The tables that size_class_init leaves, and the facts about them that the lookups need.
use malloc.Common.{
  ℕ, zero, suc, ◌+◌, ◌*◌, ◌%◌, ◌≤◌, ◌<◌, ◌≡◌, refl, ap, sym, ◌∙◌, Bool, true, ◌&&◌, List, [], ◌∷◌,
  arith, ltb, leb, ◌==◌, ==_iff, length, get_or, run_passes, run_passes-at,
}
use mathlib.Core.Path.{ap₂}
use native.Mathlib.Nat.{add-zero}
use malloc.Common.Mask.{align_up}
use malloc.SizeClass.{SizeClasses, size_class_init}
use malloc.SizeClass.Float.{times_1_125, to_size_t, lt_ℕ}

abbrev pub bin_sizes : List ℕ
bin_sizes =
    8 ∷ 16 ∷ 24 ∷ 32 ∷ 40 ∷ 48 ∷ 56 ∷ 64 ∷ 72 ∷ 80 ∷ 88 ∷ 96 ∷ 104 ∷ 112 ∷ 120 ∷ 128 ∷ 144 ∷ 176
    ∷ 192 ∷ 208 ∷ 240 ∷ 272 ∷ 304 ∷ 336 ∷ 384 ∷ 416 ∷ 480 ∷ 528 ∷ 592 ∷ 672 ∷ 752 ∷ 848 ∷ 960 ∷ 1072
    ∷ 1200 ∷ 1360 ∷ 1520 ∷ 1712 ∷ 1936 ∷ 2176 ∷ 2432 ∷ 2736 ∷ 3088 ∷ 3472 ∷ 3904 ∷ 4384 ∷ 4944
    ∷ 5552 ∷ 6240 ∷ 7024 ∷ 7904 ∷ 8896 ∷ 10000 ∷ 11248 ∷ 12656 ∷ 14240 ∷ 16016 ∷ 18016 ∷ 20272
    ∷ 22800 ∷ 25664 ∷ 28864 ∷ 32464 ∷ 36528 ∷ 41088 ∷ 46224 ∷ 52000 ∷ 58512 ∷ 65824 ∷ 74048 ∷ 83296
    ∷ 93712 ∷ 105424 ∷ 118592 ∷ 131072 ∷ []

abbrev pub tables : SizeClasses
tables = record {
  bin_size = bin_sizes;
  size_to_bin_small = 0 ∷ 0 ∷ 1 ∷ 2 ∷ 3 ∷ 4 ∷ 5 ∷ 6 ∷ 7 ∷ 8 ∷ 9 ∷ 10 ∷ 11 ∷ 12 ∷ 13 ∷ 14 ∷ 15 ∷ [];
}

-- A list of known length, spelled out cell by cell.
after_first : List ℕ → List ℕ
after_first [] = []
after_first (x ∷ xs) = xs

cells : ℕ → List ℕ → List ℕ
unfolding after_first
cells zero xs = []
cells (suc n) xs = get_or xs 0 0 ∷ cells n (after_first xs)

cells_lem : (n : ℕ) (xs : List ℕ) → length xs ≡ n → cells n xs ≡ xs
unfolding cells
cells_lem zero [] h = refl
cells_lem zero (x ∷ xs) h = absurd (omega arith)
cells_lem (suc n) [] h = absurd (omega arith)
cells_lem (suc n) (x ∷ xs) h = ap (λ ys. x ∷ ys) (cells_lem n xs (omega arith))

-- the run of size_class_init over tables of unknown entries
run_over_cells :
    (xs ys : List ℕ)
    → size_class_init (record { bin_size = cells 75 xs; size_to_bin_small = cells 17 ys }) ≡ tables
unfolding size_class_init times_1_125 to_size_t lt_ℕ align_up cells
run_over_cells xs ys = refl

-- Whatever the two tables held before, size_class_init leaves exactly `tables`, provided that
-- they have their 75 and 17 cells.
pub size_class_init-tables :
    (g : SizeClasses)
    → length g.bin_size ≡ 75
    → length g.size_to_bin_small ≡ 17
    → size_class_init g ≡ tables
size_class_init-tables g m n =
    ap₂ (λ xs ys. size_class_init (record { bin_size = xs; size_to_bin_small = ys }))
      (sym (cells_lem 75 g.bin_size m)) (sym (cells_lem 17 g.size_to_bin_small n))
    ∙ run_over_cells g.bin_size g.size_to_bin_small

-- The entry of a bin, 0 past the end.
unfoldable pub entry : ℕ → ℕ
entry i = get_or bin_sizes i 0

pub entry_first : entry 0 ≡ 8
unfolding entry
entry_first = refl

-- Neighbours rise, by an eighth and 16 bytes at most.
neighbours_test : ℕ → Bool
neighbours_test i = ltb (entry i) (entry (i + 1)) && leb (8 * entry (i + 1)) (9 * entry i + 128)

neighbours_table : run_passes neighbours_test 0 74 ≡ true
unfolding run_passes neighbours_test entry
neighbours_table = refl

pub record Neighbours (i : ℕ) : Type 0 where
  pub rising : entry i < entry (i + 1)
  pub step : 8 * entry (i + 1) ≤ 9 * entry i + 128

pub neighbours : (i : ℕ) → i < 74 → Neighbours i
unfolding neighbours_test
neighbours i h = ground (arith, run_passes-at neighbours_test 0 74 i neighbours_table)

eights_table : run_passes (λ i. entry i % 8 == 0) 0 75 ≡ true
unfolding run_passes entry
eights_table = refl

pub entry_eights : (i : ℕ) → i < 75 → entry i % 8 ≡ 0
entry_eights i h =
    (==_iff _ 0).0 (run_passes-at (λ i. entry i % 8 == 0) 0 75 i eights_table (omega arith) h)

pub entry_mono : (i d : ℕ) → i + d < 75 → entry i + d ≤ entry (i + d)
entry_mono i zero h = omega (arith, ap entry (add-zero i))
entry_mono i (suc d) h = omega (
  arith,
  entry_mono i d (omega arith),
  (neighbours (i + d) (omega arith)).rising,
  ap entry (step i d),
)
  where
    step : (i d : ℕ) → i + suc d ≡ i + d + 1
    step i d = omega arith
