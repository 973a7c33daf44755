-- ===== src/Init/Tests.antt =====
-- Two threads that call malloc_init: one sets up, the other has to spin.
use malloc.Common.{ℕ, ◌≡◌, refl, arith, []}
use malloc.Init.{
  Global, Place, calling, setting_up, spinning, returned, go, Run, start, then_step, won, lost,
  finish, leave, set_up,
}
use malloc.Init.Once.{malloc_init_once}

abbrev zeroed : Global
zeroed = record {
  initialized = 0;
  segment_registry = [];
  classes = record { bin_size = []; size_to_bin_small = [] };
  arena_count = 0;
  arena_next = 0;
  large_list = 0;
  bootstrap_used = 0;
}

abbrev all_calling : ℕ → Place
all_calling j = calling

abbrev at_end : ℕ → Place
at_end = go (go (go (go all_calling 0 setting_up) 1 spinning) 0 returned) 1 returned

both : Run zeroed all_calling (set_up zeroed) at_end
unfolding set_up
both =
    then_step
      (then_step (then_step (then_step start (won 0 refl refl)) (lost 1 refl (omega arith)))
        (finish 0 refl))
      (leave 1 refl refl)

malloc_init_once_example :
    ((i j : ℕ) → at_end i ≡ setting_up → at_end j ≡ setting_up → i ≡ j)
    × ((i : ℕ) → at_end i ≡ returned → set_up zeroed ≡ set_up zeroed)
malloc_init_once_example =
    malloc_init_once zeroed (set_up zeroed) all_calling at_end refl (λ j. refl) both
