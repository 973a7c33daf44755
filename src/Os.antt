-- ===== src/Os.antt =====
-- src/os.c: mappings from the kernel, trimmed to an alignment.
pub mod Aligned
mod Tests
use malloc.Common.{
  ℕ, ◌+◌, ◌-◌, ◌^◌, Bool, true, false, ◌&&◌, Option, none, some, List, [], ◌∷◌, ◌++◌, ltb, leb, not,
  if◌then◌else◌, u64, sub64,
}
use malloc.Common.Mask.{align_up}
use malloc.Memory.{null, not_null}

-- The calls of the kernel that change the address space, with the address that mmap returned.
pub data Call : Type 0 where
  mmap : (size address : ℕ) → Call
  mmap_failed : (size : ℕ) → Call
  munmap : (address size : ℕ) → Call
  madvise : (address size : ℕ) → Call

-- `g_state.mmap_bytes`, and the calls so far, the latest first.
pub record Os : Type 0 where
  pub mmap_bytes : ℕ
  pub calls : List Call

abbrev pub call : Os → Call → Os
call os c = record os { calls = c ∷ os.calls }

-- an atomic fetch_add and fetch_sub of a size_t
abbrev pub add_bytes : Os → ℕ → Os
add_bytes os n = record os { mmap_bytes = u64 (os.mmap_bytes + n) }

abbrev pub sub_bytes : Os → ℕ → Os
sub_bytes os n = record os { mmap_bytes = sub64 os.mmap_bytes n }

-- `if (aligned > addr) munmap(base, aligned - addr)`
unfoldable pub trim_head : ℕ → ℕ → Os → Os
trim_head addr aligned os = if ltb addr aligned then call os (munmap addr (aligned - addr)) else os

-- `if (base_end > end) munmap(end, base_end - end)`
unfoldable pub trim_tail : ℕ → ℕ → Os → Os
trim_tail end base_end os = if ltb end base_end then call os (munmap end (base_end - end)) else os

-- What the kernel is: its page size, and the address, or MAP_FAILED, that mmap returns for a
-- length. Both are parameters of the model.
pub record Kernel : Type 0 where
  pub page_size : ℕ
  pub answer : ℕ → Option ℕ

-- Returns the address, NULL on failure.
unfoldable pub os_mmap_aligned : Kernel → (size alignment : ℕ) → Os → ℕ × Os
os_mmap_aligned k size alignment os =
    if leb alignment k.page_size
    then (elim (k.answer size) [
      | none ↦ (null, call os (mmap_failed size))
      | some p ↦ (p, add_bytes (call os (mmap size p)) size)
    ])
    else (let extra = sub64 (size + alignment) 1 in
        elim (k.answer extra) [
          | none ↦ (null, call os (mmap_failed extra))
          | some addr ↦
              let aligned = align_up addr alignment in
              let mapped = call os (mmap extra addr) in
              let headed = trim_head addr aligned mapped in
              let tailed = trim_tail (u64 (aligned + size)) (u64 (addr + extra)) headed in
              (aligned, add_bytes tailed size)
        ])

unfoldable pub os_munmap : (addr size : ℕ) → Os → Os
os_munmap addr size os =
    if not_null addr && ltb 0 size then sub_bytes (call os (munmap addr size)) size else os

-- the advice is MADV_FREE or MADV_DONTNEED
unfoldable pub os_madvise_free : (addr size : ℕ) → Os → Os
os_madvise_free addr size os =
    if not_null addr && ltb 0 size then call os (madvise addr size) else os

unfoldable pub os_page_size : Kernel → ℕ
os_page_size k = k.page_size
