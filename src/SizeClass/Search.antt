-- ===== src/SizeClass/Search.antt =====
-- The lookups of size_class.c: the binary search, size_to_bin and bin_to_size.
use malloc.Common.{
  ℕ, zero, suc, ◌+◌, ◌-◌, ◌/◌, ◌%◌, ◌≤◌, ◌<◌, ◌≡◌, refl, ap, sym, subst, dec_lt, lt→ltb, ge→ltb,
  gt→leb, leb→le, ◌&&◌, Bool, true, false, inl, inr, List, arith, ltb, leb, ◌==◌, Bool-cases,
  ltb→lt, ltb→ge, length, get_or, run_passes, run_passes-at, u8,
}
use native.Mathlib.Nat.{le_trans, lt_of_le_of_lt, lt_of_lt_of_le}
use malloc.Common.Mask.{align_up, align_up-IsRoundUp, IsRoundUp}
use malloc.Config.{medium_max}
use malloc.SizeClass.{SizeClasses, search_bin, size_class_init, size_to_bin, bin_to_size}
use malloc.SizeClass.Table.{
  bin_sizes, tables, entry, entry_mono, entry_eights, size_class_init-tables,
}

-- What the search returns between `lo` and `hi`: the least index whose entry holds `size`.
record Found (xs : List ℕ) (size lo hi r : ℕ) : Type 0 where
  from : lo ≤ r
  upto : r ≤ hi
  fits : size ≤ get_or xs r 0
  least : (i : ℕ) → lo ≤ i → i < r → get_or xs i 0 < size

module _ (xs : List ℕ) (size top : ℕ)
    (sorted : (i j : ℕ) → i ≤ j → j ≤ top → get_or xs i 0 ≤ get_or xs j 0) where
  here : (lo hi : ℕ) → lo ≡ hi → size ≤ get_or xs hi 0 → Found xs size lo hi lo
  here lo hi e fits = record {
    from = omega arith;
    upto = omega arith;
    fits = subst (λ i. size ≤ get_or xs i 0) (sym e) fits;
    least = λ i p q. absurd (omega arith);
  }

  -- Where the middle entry is too small the answer lies above it.
  upper :
      (lo hi mid r : ℕ)
      → lo ≤ mid
      → mid ≤ top
      → get_or xs mid 0 < size
      → Found xs size (mid + 1) hi r
      → Found xs size lo hi r
  upper lo hi mid r p q small f = record {
    from = omega (arith, f.from);
    upto = f.upto;
    fits = f.fits;
    least = λ i a b. elim (dec_lt mid i) [
      | yes above ↦ f.least i (omega arith) b
      | no below ↦ omega (arith, sorted i mid (omega arith) q)
    ];
  }

  lower : (lo hi mid r : ℕ) → mid ≤ hi → Found xs size lo mid r → Found xs size lo hi r
  lower lo hi mid r p f = record {
    from = f.from;
    upto = omega (arith, f.upto);
    fits = f.fits;
    least = f.least;
  }

  abbrev Searches : ℕ → Type 0
  Searches rounds =
      (lo hi : ℕ)
      → lo ≤ hi
      → hi ≤ top
      → hi - lo ≤ rounds
      → size ≤ get_or xs hi 0
      → Found xs size lo hi (search_bin rounds xs size lo hi)

  search_bin-round :
      (rounds lo hi : ℕ)
      → lo < hi
      → hi ≤ top
      → hi - lo ≤ suc rounds
      → size ≤ get_or xs hi 0
      → Searches rounds
      → Found xs size lo hi (search_bin (suc rounds) xs size lo hi)
  unfolding search_bin
  search_bin-round rounds lo hi lt t f fits again =
      let mid = (lo + hi) / 2 in
      elim (Bool-cases (ltb (get_or xs mid 0) size)) [
        | inl small ↦
            rw (lt→ltb lo hi lt, search_bin, small)
              (upper lo hi mid _ (omega arith) (omega arith) (ltb→lt _ _ small)
                (again (mid + 1) hi (omega arith) t (omega arith) fits))
        | inr large ↦
            rw (lt→ltb lo hi lt, search_bin, large)
              (lower lo hi mid _ (omega arith)
                (again lo mid (omega arith) (omega arith) (omega arith) (ltb→ge _ _ large)))
      ]

  search_bin-Found : (rounds : ℕ) → Searches rounds
  unfolding search_bin
  search_bin-Found zero lo hi h t f fits = here lo hi (omega arith) fits
  search_bin-Found (suc rounds) lo hi h t f fits = elim (dec_lt lo hi) [
    | yes more ↦ search_bin-round rounds lo hi more t f fits (search_bin-Found rounds)
    | no done ↦ rw (ge→ltb lo hi (omega arith), search_bin) (here lo hi (omega arith) fits)
  ]

-- The bin that serves requests of `size` bytes: the least one whose slots are large enough.
pub record IsBest (g : SizeClasses) (size bin : ℕ) : Type 0 where
  pub range : bin < 75
  pub fits : size ≤ bin_to_size g bin
  pub least : (i : ℕ) → i < bin → bin_to_size g i < size

pub bin_to_size-entry : (i : ℕ) → i < 75 → bin_to_size tables i ≡ entry i
unfolding bin_to_size entry
bin_to_size-entry i h = rw (gt→leb 75 i h)

entry_sorted : (i j : ℕ) → i ≤ j → j ≤ 74 → entry i ≤ entry j
entry_sorted i j h k = omega (arith, entry_mono i (j - i) (omega arith), ap entry (rejoin i j h))
  where
    rejoin : (i j : ℕ) → i ≤ j → i + (j - i) ≡ j
    rejoin i j h = omega arith

-- small sizes, by evaluation
small_test : ℕ → Bool
small_test size =
    let bin = size_to_bin tables size in
    ltb bin 16 && leb size (entry bin) && run_passes (λ i. ltb (entry i) size) 0 bin

small_table : run_passes small_test 0 129 ≡ true
unfolding small_test size_to_bin align_up run_passes entry
small_table = refl

small-IsBest : (size : ℕ) → size ≤ 128 → IsBest tables size (size_to_bin tables size)
unfolding small_test
small-IsBest size h = record {
  range = omega (arith, below);
  fits = rw (bin_to_size-entry bin (omega (arith, below))) (leb→le _ _ t.0.1);
  least = λ i p. rw (bin_to_size-entry i (omega (arith, below))) (
      ltb→lt _ _
        (run_passes-at (λ i. ltb (entry i) size) 0 bin i t.1 (omega arith) (omega (arith, p))));
}
  where
    bin : ℕ
    bin = size_to_bin tables size

    t :
        ((ltb bin 16 ≡ true) × (leb size (entry bin) ≡ true))
        × (run_passes (λ i. ltb (entry i) size) 0 bin ≡ true)
    t = ground (arith, run_passes-at small_test 0 129 size small_table)

    below : bin < 16
    below = ltb→lt _ _ t.0.0

-- What the search finds for the rounded size is the best bin of the size itself, since all
-- entries are multiples of 8.
Found-IsBest :
    (size aligned r : ℕ)
    → 128 < size
    → IsRoundUp size 8 aligned
    → Found bin_sizes aligned 16 74 r
    → IsBest tables size r
unfolding entry
Found-IsBest size aligned r lo up f = record {
  range = omega (arith, f.upto);
  fits = rw (bin_to_size-entry r (omega (arith, f.upto))) (le_trans up.above f.fits);
  least = λ i p. rw (bin_to_size-entry i (omega (arith, f.upto))) (below i p);
}
  where
    below : (i : ℕ) → i < r → entry i < size
    below i p = elim (dec_lt i 16) [
      | yes small ↦ lt_of_le_of_lt (entry_sorted i 15 (omega arith) (omega arith)) lo
      | no medium ↦
          gap (entry i) (entry_eights i (omega (arith, f.upto))) (f.least i (omega arith) p)
    ]
      where
        gap : (e : ℕ) → e % 8 ≡ 0 → e < aligned → e < size
        gap e m l = omega (arith, up.aligned, up.near)

round_eight : (size : ℕ) → size ≤ medium_max → IsRoundUp size 8 (align_up size 8)
round_eight size hi = align_up-IsRoundUp 3 61 size refl (omega arith)

search-Found :
    (aligned : ℕ)
    → aligned ≤ 0x2_0000
    → Found bin_sizes aligned 16 74 (search_bin 75 bin_sizes aligned 16 74)
unfolding entry
search-Found aligned h =
    search_bin-Found bin_sizes aligned 74 entry_sorted 75 16 74 (omega arith) (omega arith)
      (omega arith) h

u8_small : (r : ℕ) → r ≤ 74 → u8 r ≡ r
u8_small r h = omega arith

not_zero : (n : ℕ) → 128 < n → (n == 0) ≡ false
not_zero n h = ground arith

large-IsBest :
    (size : ℕ) → 128 < size → size ≤ medium_max → IsBest tables size (size_to_bin tables size)
unfolding size_to_bin
large-IsBest size lo hi =
    let up = round_eight size hi in
    let found = search-Found (align_up size 8) (omega (arith, up.aligned, up.near)) in
    rw (not_zero size lo, gt→leb (align_up size 8) 128 (lt_of_lt_of_le lo up.above))
      (subst (IsBest tables size) (sym (u8_small _ found.upto))
        (Found-IsBest size (align_up size 8) _ lo up found))

-- After size_class_init, size_to_bin gives each size up to MEDIUM_MAX the least bin whose slots
-- hold it.
pub size_to_bin-IsBest :
    (g : SizeClasses) (size : ℕ)
    → length g.bin_size ≡ 75
    → length g.size_to_bin_small ≡ 17
    → size ≤ medium_max
    → let t = size_class_init g in IsBest t size (size_to_bin t size)
size_to_bin-IsBest g size m n h = rw (size_class_init-tables g m n) (elim (dec_lt 128 size) [
  | yes large ↦ large-IsBest size large h
  | no small ↦ small-IsBest size (omega arith)
])
