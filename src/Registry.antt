-- ===== src/Registry.antt =====
-- The segment registry of src/segment.c: an open-addressing hash set of the base addresses of the
-- active segments, 0 for an empty slot. Each slot access is atomic; here one operation runs at a
-- time. A loop's first argument counts the rounds left, from SEGMENT_REGISTRY_SIZE down to 0.
pub mod Probe
pub mod Lookup
pub mod Register
pub mod Unregister
mod Tests
use malloc.Common.{
  ℕ, zero, suc, ◌+◌, ◌/◌, ◌%◌, ◌^◌, Bool, true, false, List, get_or, set, ◌==◌, if◌then◌else◌,
}
use malloc.Config.{segment_shift, segment_registry_size}

-- `(addr >> SEGMENT_SHIFT) & (SEGMENT_REGISTRY_SIZE - 1)`
abbrev pub seg_hash : ℕ → ℕ
seg_hash addr = addr / 2 ^ segment_shift % segment_registry_size

-- the slot of round `i`
abbrev pub slot : ℕ → ℕ → ℕ
slot base i = (seg_hash base + i) % segment_registry_size

-- the value that round `i` looks at
abbrev pub probe : List ℕ → ℕ → ℕ → ℕ
probe table base i = get_or table (slot base i) 0

-- The compare-and-swap writes `base` if the slot holds 0.
unfoldable pub register_loop : ℕ → ℕ → List ℕ → ℕ → List ℕ
register_loop zero i table base = table
register_loop (suc left) i table base = elim (probe table base i == 0) [
  | true ↦ set table (slot base i) base
  | false ↦ elim (probe table base i == base) [
    | true ↦ table
    | false ↦ register_loop left (i + 1) table base
  ]
]

unfoldable pub segment_register : List ℕ → ℕ → List ℕ
segment_register table base = register_loop segment_registry_size 0 table base

unfoldable pub unregister_loop : ℕ → ℕ → List ℕ → ℕ → List ℕ
unregister_loop zero i table base = table
unregister_loop (suc left) i table base = elim (probe table base i == base) [
  | true ↦ set table (slot base i) 0
  | false ↦ elim (probe table base i == 0) [
    | true ↦ table
    | false ↦ unregister_loop left (i + 1) table base
  ]
]

unfoldable pub segment_unregister : List ℕ → ℕ → List ℕ
segment_unregister table base = unregister_loop segment_registry_size 0 table base

unfoldable pub registered_loop : ℕ → ℕ → List ℕ → ℕ → Bool
registered_loop zero i table base = false
registered_loop (suc left) i table base = elim (probe table base i == base) [
  | true ↦ true
  | false ↦ elim (probe table base i == 0) [
    | true ↦ false
    | false ↦ registered_loop left (i + 1) table base
  ]
]

unfoldable pub segment_is_registered : List ℕ → ℕ → Bool
segment_is_registered table base = registered_loop segment_registry_size 0 table base
