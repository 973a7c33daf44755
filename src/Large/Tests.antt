-- ===== src/Large/Tests.antt =====
-- Runs of src/large.c on a kernel with pages of 4096 bytes.
use malloc.Common.{ℕ, ◌-◌, ◌^◌, ◌≡◌, ◌≢◌, refl, arith, [], ◌∷◌, some, if◌then◌else◌, true, ltb}
use malloc.Common.Mask.{align_up}
use malloc.Memory.{null}
use malloc.Memory.Chain.{count}
use malloc.Os.{Kernel, mmap}
use malloc.Os.Aligned.{IsAnswer, mapped}
use malloc.Large.{
  LargeAlloc, Large, large_alloc, large_alloc_aligned, large_find, large_free, find_loop,
}
use malloc.Large.Linked.{IsLarge}
use malloc.Large.Find.{IsFound}
use malloc.Large.Free.{large_free-IsFreed, IsFreed}
use malloc.Large.Block.{large_alloc_aligned-IsBlock, IsBlock, large_alloc_wraps}

abbrev kernel : Kernel
kernel = record { page_size = 4096; answer = λ size. some 0x70_0000 }

-- two allocations of 200000 bytes, in mappings of 200704 bytes
abbrev header_at : (base next prev : ℕ) → LargeAlloc
header_at base next prev = record {
  base = base;
  size = 200704;
  user_size = 200000;
  next = next;
  prev = prev;
}

abbrev two : Large
two = record {
  large_list = 0x20_0000;
  headers = λ a.
      if ltb a 0x20_0000 then header_at 0x10_0000 0 0x20_0000 else header_at 0x20_0000 0x10_0000 0;
  large_allocated = 400000;
  large_alloc_count = 2;
  os = record { mmap_bytes = 401408; calls = mmap 200704 0x20_0000 ∷ mmap 200704 0x10_0000 ∷ [] };
}

two-IsLarge : IsLarge two (0x20_0000 ∷ 0x10_0000 ∷ [])
two-IsLarge = record {
  linked = (refl, omega arith, refl, (refl, omega arith, refl, refl));
  distinct = (refl, (refl, refl));
  counted = refl;
  bounded = omega arith;
}

fresh-IsAnswer : IsAnswer kernel.page_size two.os 200704 0x70_0000
fresh-IsAnswer = record {
  some_address = omega arith;
  on_page = refl;
  ends = omega arith;
  fresh = λ a h. ground arith;
}

two_backed : (y : ℕ) → count y (0x20_0000 ∷ 0x10_0000 ∷ []) ≢ 0 → mapped two.os.calls y ≡ true
two_backed y m = ground arith

found_second : large_find two 0x10_0040 ≡ some 0x10_0000
unfolding large_find find_loop
found_second = refl

large_free-IsFreed_example :
    (t : Large) × (r : ℕ) × (large_free two 0x10_0030 ≡ some t)
    × IsFound two.headers (0x20_0000 ∷ 0x10_0000 ∷ []) 0x10_0030 r
    × ((r ≡ null → t ≡ two) × (r ≢ null → IsFreed two (0x20_0000 ∷ 0x10_0000 ∷ []) r t))
large_free-IsFreed_example =
    large_free-IsFreed two (0x20_0000 ∷ 0x10_0000 ∷ []) 0x10_0030 two-IsLarge (omega arith)

large_alloc_aligned-IsBlock_example :
    let r = large_alloc_aligned kernel 200000 (2 ^ 4) two in
    (la : ℕ) × IsBlock two (0x20_0000 ∷ 0x10_0000 ∷ []) 200000 (2 ^ 4) r.0 la r.1
unfolding align_up
large_alloc_aligned-IsBlock_example =
    large_alloc_aligned-IsBlock kernel two (0x20_0000 ∷ 0x10_0000 ∷ []) 200000 4 60 12 52 0x70_0000
      refl refl refl (omega arith) (omega arith) two-IsLarge two_backed (omega arith) refl
      fresh-IsAnswer

large_alloc_wraps_example :
    let r = large_alloc kernel (2 ^ 64 - 1) two in
    (r.0 ≡ 0x70_0030)
    × (r.1.large_list ≡ 0x70_0000)
    × ((r.1.headers 0x70_0000).size ≡ 4096)
    × ((r.1.headers 0x70_0000).user_size ≡ 2 ^ 64 - 1)
large_alloc_wraps_example =
    large_alloc_wraps kernel two (2 ^ 64 - 1) 0x70_0000 (omega arith) (omega arith) refl refl
      (omega arith) (omega arith)
