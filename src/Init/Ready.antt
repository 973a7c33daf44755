-- ===== src/Init/Ready.antt =====
-- What the set-up of src/init.c leaves behind.
use malloc.Common.{
  ℕ, zero, suc, ◌+◌, ◌<◌, ◌≤◌, ◌≡◌, refl, sym, ◌∙◌, List, get_or, set, length, length-set,
  get_or-set_self, get_or-set_ne, arith, ℕ_discrete,
}
use malloc.SizeClass.Table.{tables, size_class_init-tables}
use malloc.Registry.{slot}
use malloc.Registry.Probe.{IsRegistry, Contains}
use malloc.Init.{Global, zero_registry, set_up}

length-zero_registry :
    (left i : ℕ) (table : List ℕ) → length (zero_registry left i table) ≡ length table
unfolding zero_registry
length-zero_registry zero i table = refl
length-zero_registry (suc left) i table =
    length-zero_registry left (i + 1) (set table i 0) ∙ length-set table i 0

-- Entries before `i` stay, entries from `i` on become 0.
zero_registry-kept :
    (left i j : ℕ) (table : List ℕ)
    → j < i
    → get_or (zero_registry left i table) j 0 ≡ get_or table j 0
unfolding zero_registry
zero_registry-kept zero i j table h = refl
zero_registry-kept (suc left) i j table h =
    zero_registry-kept left (i + 1) j (set table i 0) (omega arith)
    ∙ get_or-set_ne table i j 0 0 (omega arith)

zero_registry-zero :
    (left i j : ℕ) (table : List ℕ)
    → i + left ≡ length table
    → i ≤ j
    → j < i + left
    → get_or (zero_registry left i table) j 0 ≡ 0
unfolding zero_registry
zero_registry-zero zero i j table e lo hi = absurd (omega arith)
zero_registry-zero (suc left) i j table e lo hi = elim (ℕ_discrete i j) [
  | yes same ↦
      zero_registry-kept left (i + 1) j (set table i 0) (omega arith)
      ∙ ground (arith, same, get_or-set_self table j 0 0 (omega arith))
  | no other ↦
      zero_registry-zero left (i + 1) j (set table i 0) (omega (arith, length-set table i 0))
        (omega arith) (omega arith)
]

-- What the other parts of the allocator rely on after malloc_init.
pub record IsReady (g : Global) : Type 0 where
  pub initialized : g.initialized ≡ 2
  pub registry : IsRegistry g.segment_registry
  pub no_segment : (base : ℕ) → Contains g.segment_registry base → base ≡ 0
  pub classes : g.classes ≡ tables
  pub arenas : g.arena_count ≡ 4
  pub no_large : g.large_list ≡ 0

-- Whatever the global state held before, the set-up leaves a well-formed registry without any segment,
-- the size class tables, four arenas and no large allocation. The arrays must have their lengths.
pub set_up-IsReady :
    (g : Global)
    → length g.segment_registry ≡ 256
    → length g.classes.bin_size ≡ 75
    → length g.classes.size_to_bin_small ≡ 17
    → IsReady (set_up g)
unfolding set_up
set_up-IsReady g sized m n = record {
  initialized = refl;
  registry = record {
    size = length-zero_registry 256 0 g.segment_registry ∙ sized;
    reached = λ base d pos lt at. absurd (pos (sym at ∙ zeroes (slot base d) (omega arith)));
  };
  no_segment = λ base c. sym c.holds ∙ zeroes c.index c.index_lt;
  classes = size_class_init-tables g.classes m n;
  arenas = refl;
  no_large = refl;
}
  where
    zeroes : (j : ℕ) → j < 256 → get_or (zero_registry 256 0 g.segment_registry) j 0 ≡ 0
    zeroes j h = zero_registry-zero 256 0 j g.segment_registry (sym sized) (omega arith) h
