-- ===== src/Stats/Tests.antt =====
-- A thread that allocates twice and frees once.
use malloc.Common.{List, [], ◌∷◌, arith, refl, ◌≡◌}
use malloc.Os.{Os, Kernel}
use malloc.Common.{none}
use malloc.Stats.{Totals, Op, alloc, free, tld_cleanup, stat_ops}
use malloc.Stats.Conserved.{Added, fresh_tld, stat_ops-Added}

abbrev kernel : Kernel
kernel = record { page_size = 4096; answer = λ size. none }

abbrev totals : Totals
totals = record { allocated = 100; freed = 50; alloc_count = 2; free_count = 1; thread_count = 3 }

abbrev os : Os
os = record { mmap_bytes = 4096; calls = [] }

abbrev ops : List Op
ops = alloc 32 ∷ free 32 ∷ alloc 48 ∷ []

stat_ops-Added_example :
    let r = stat_ops ops (fresh_tld 0x1000 7) totals in
    Added totals ops (tld_cleanup kernel 0x9000 0x10_0000 r.0 r.1 os).0
stat_ops-Added_example =
    stat_ops-Added kernel 0x9000 0x10_0000 0x1000 7 ops totals os (omega arith) (omega arith)

counted_after :
    (let r = stat_ops ops (fresh_tld 0x1000 7) totals in
      (tld_cleanup kernel 0x9000 0x10_0000 r.0 r.1 os).0.allocated)
    ≡ 180
unfolding tld_cleanup stat_ops
counted_after = refl
