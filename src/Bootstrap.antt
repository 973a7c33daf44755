-- ===== src/Bootstrap.antt =====
-- bootstrap_alloc of src/init.c: memory from a static buffer before the allocator is initialised.
pub mod Apart
mod Tests
use malloc.Common.{ℕ, ◌+◌, Bool, true, false, List, [], ◌∷◌, ltb, if◌then◌else◌, u64}
use malloc.Common.Mask.{align_up}
use malloc.Config.{min_align, bootstrap_buf_size}
use malloc.Memory.{null}

-- The buffer lies at `buf`; returns the pointer and the new `bootstrap_used`.
unfoldable pub bootstrap_alloc : (buf size used : ℕ) → ℕ × ℕ
bootstrap_alloc buf size used =
    let size = align_up size min_align in
    (
      if ltb bootstrap_buf_size (u64 (used + size)) then null else u64 (buf + used),
      u64 (used + size),
    )

-- `bootstrap_used` after allocations of these sizes
abbrev pub used_after : (buf : ℕ) → List ℕ → ℕ → ℕ
used_after buf [] used = used
used_after buf (size ∷ sizes) used = used_after buf sizes (bootstrap_alloc buf size used).1
