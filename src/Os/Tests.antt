-- ===== src/Os/Tests.antt =====
-- A kernel with 4 KB pages that maps at one fixed address.
use malloc.Common.{◌-◌, ◌%◌, ◌^◌, ◌≡◌, refl, some, [], ◌∷◌, arith}
use malloc.Common.Mask.{align_up}
use malloc.Os.{
  Os, Kernel, mmap, munmap, madvise, os_mmap_aligned, os_munmap, os_madvise_free, trim_head,
  trim_tail,
}
use malloc.Os.Aligned.{Maps, IsAnswer, os_mmap_aligned-Maps}

abbrev kernel : Kernel
kernel = record { page_size = 4096; answer = λ size. some 0x1234_5000 }

abbrev start : Os
start = record { mmap_bytes = 0; calls = [] }

segment_is_cut : os_mmap_aligned kernel 0x40_0000 0x40_0000 start ≡ (
  0x1240_0000,
  record {
    mmap_bytes = 0x40_0000;
    calls =
        munmap 0x1280_0000 0x34_4fff
        ∷ munmap 0x1234_5000 0xb_b000
        ∷ mmap 0x7f_ffff 0x1234_5000
        ∷ [];
  },
)
unfolding os_mmap_aligned trim_head trim_tail align_up
segment_is_cut = refl

unmaps :
    os_munmap 0x1000 0x2000 start
    ≡ record { mmap_bytes = 2 ^ 64 - 0x2000; calls = munmap 0x1000 0x2000 ∷ [] }
unfolding os_munmap
unmaps = refl

advises :
    os_madvise_free 0x1000 0x2000 start
    ≡ record { mmap_bytes = 0; calls = madvise 0x1000 0x2000 ∷ [] }
unfolding os_madvise_free
advises = refl

fixed_address : IsAnswer 4096 start 0x7f_ffff 0x1234_5000
fixed_address = record {
  some_address = omega arith;
  on_page = refl;
  ends = omega arith;
  fresh = λ a h. refl;
}

os_mmap_aligned-Maps_example :
    let r = os_mmap_aligned kernel 0x40_0000 (2 ^ 22) start in
    (r.0 % 2 ^ 22 ≡ 0) × Maps start 0x40_0000 r.0 r.1
os_mmap_aligned-Maps_example =
    os_mmap_aligned-Maps kernel 0x40_0000 22 12 42 0x1234_5000 start refl refl (omega arith) refl
      fixed_address
