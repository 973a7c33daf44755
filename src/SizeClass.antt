-- ===== src/SizeClass.antt =====
-- src/size_class.c: the size-class tables of the global state and the lookups in them.
pub mod Float
pub mod Table
pub mod Search
pub mod Waste
mod Tests
use malloc.Common.{
  ℕ, zero, suc, ◌+◌, ◌-◌, ◌*◌, ◌/◌, true, false, ◌&&◌, List, ltb, leb, ◌==◌, if◌then◌else◌, get_or,
  set, u8, u32,
}
use malloc.Common.Mask.{align_up}
use malloc.Config.{small_max, medium_max, small_bin_count, bin_count}
use Float.{Double, small_max_double, times_1_125, to_size_t, lt_ℕ}

-- the two tables of `global_state_t`
pub record SizeClasses : Type 0 where
  pub bin_size : List ℕ  -- uint32_t[BIN_COUNT]
  pub size_to_bin_small : List ℕ  -- uint8_t[SMALL_MAX / 8 + 1]

-- `for (int i = lo; i < lo + n; i++) s = body(i, s)`
for_from : {S : Type 0} → ℕ → ℕ → (ℕ → S → S) → S → S
for_from zero i body s = s
for_from (suc n) i body s = for_from n (i + 1) body (body i s)

-- the three statements that adjust `rounded`
adjust_rounded : ℕ → List ℕ → ℕ → ℕ
adjust_rounded bin table rounded =
    let above = if leb rounded small_max then small_max + 16 else rounded in
    let last = get_or table (bin - 1) 0 in
    let rising = if ltb small_bin_count bin && leb above last then last + 16 else above in
    if ltb medium_max rising then medium_max else rising

-- The `while` over the medium bins. The first argument counts the bins left, BIN_COUNT - bin, so
-- it is zero exactly where the test `bin < BIN_COUNT` fails. Returns `bin` and the table.
medium_bins : ℕ → ℕ → Double → List ℕ → ℕ × List ℕ
unfolding adjust_rounded
medium_bins zero bin size table = (bin, table)
medium_bins (suc left) bin size table = elim (lt_ℕ size medium_max) [
  | false ↦ (bin, table)
  | true ↦
      let next = times_1_125 size in
      let rounded = adjust_rounded bin table (align_up (to_size_t next) 16) in
      let written = set table bin (u32 rounded) in
      let rest = medium_bins left (bin + 1) next written in
      if leb medium_max rounded then (bin + 1, written) else rest
]

unfoldable pub size_class_init : SizeClasses → SizeClasses
unfolding for_from medium_bins
size_class_init g =
    let small = for_from small_bin_count 0 (λ i t. set t i (u32 ((i + 1) * 8))) g.bin_size in
    let quick =
      for_from (small_max / 8 + 1) 0 (λ s t. set t s (u8 (if ltb 0 s then s - 1 else 0)))
        g.size_to_bin_small in
    let (bin, medium) =
      medium_bins (bin_count - small_bin_count) small_bin_count small_max_double small in
    record {
      bin_size = for_from (bin_count - bin) bin (λ i t. set t i (get_or t (bin - 1) 0)) medium;
      size_to_bin_small = quick;
    }

-- The binary search. The first argument bounds the rounds; `Search` shows that `hi - lo` suffice.
unfoldable pub search_bin : ℕ → List ℕ → ℕ → (lo hi : ℕ) → ℕ
search_bin zero table size lo hi = lo
search_bin (suc rounds) table size lo hi = elim (ltb lo hi) [
  | false ↦ lo
  | true ↦
      let mid = (lo + hi) / 2 in
      elim (ltb (get_or table mid 0) size) [
        | true ↦ search_bin rounds table size (mid + 1) hi
        | false ↦ search_bin rounds table size lo mid
      ]
]

unfoldable pub size_to_bin : SizeClasses → ℕ → ℕ
unfolding search_bin
size_to_bin g size =
    let aligned = align_up (if size == 0 then 1 else size) 8 in
    if leb aligned small_max
    then get_or g.size_to_bin_small (aligned / 8) 0
    else u8 (search_bin bin_count g.bin_size aligned small_bin_count (bin_count - 1))

unfoldable pub bin_to_size : SizeClasses → ℕ → ℕ
bin_to_size g bin = if leb bin_count bin then medium_max else get_or g.bin_size bin 0
