-- ===== src/Bootstrap/Tests.antt =====
-- Two blocks from a buffer 8 bytes after 1 MB.
use malloc.Common.{◌+◌, ◌%◌, ◌≤◌, ◌≡◌, ◌≢◌, refl, [], ◌∷◌, arith}
use malloc.Common.Mask.{align_up}
use malloc.Memory.{null}
use malloc.Bootstrap.{bootstrap_alloc, used_after}
use malloc.Bootstrap.Apart.{bootstrap_alloc-apart}

some_first : (bootstrap_alloc 0x10_0008 100 32).0 ≢ null
unfolding bootstrap_alloc align_up
some_first = omega arith

some_second :
    (bootstrap_alloc 0x10_0008 7
      (used_after 0x10_0008 (1 ∷ 200 ∷ []) (bootstrap_alloc 0x10_0008 100 32).1)).0
    ≢ null
unfolding bootstrap_alloc align_up
some_second = omega arith

bootstrap_alloc-apart_example :
    let first = bootstrap_alloc 0x10_0008 100 32 in
    let second = bootstrap_alloc 0x10_0008 7 (used_after 0x10_0008 (1 ∷ 200 ∷ []) first.1) in
    (first.0 % 16 ≡ 0x10_0008 % 16)
    × (second.0 % 16 ≡ 0x10_0008 % 16)
    × (0x10_0008 ≤ first.0)
    × (first.0 + 100 ≤ second.0)
    × (second.0 + 7 ≤ 0x10_0008 + 0x1_0000)
bootstrap_alloc-apart_example =
    bootstrap_alloc-apart 0x10_0008 100 32 (1 ∷ 200 ∷ []) 7 refl (omega arith) (omega arith)
      some_first some_second

too_large : (bootstrap_alloc 0x10_0008 0x1_0001 0).0 ≡ null
unfolding bootstrap_alloc align_up
too_large = refl
