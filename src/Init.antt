-- ===== src/Init.antt =====
-- malloc_init of src/init.c: threads race for the word `initialized`; one of them sets the allocator up
-- and the others spin. Each atomic access of that word is one step of a thread.
pub mod Once
pub mod Ready
mod Tests
use malloc.Common.{
  ℕ, zero, suc, ◌+◌, Bool, true, false, ◌≡◌, ◌≢◌, List, set, ltb, if◌then◌else◌, ◌==◌,
}
use malloc.Config.{segment_registry_size, max_arenas}
use malloc.Memory.{null}
use malloc.SizeClass.{SizeClasses, size_class_init}

-- the fields of g_state that malloc_init sets, but for the locks and the arenas themselves
pub record Global : Type 0 where
  pub initialized : ℕ
  pub segment_registry : List ℕ
  pub classes : SizeClasses
  pub arena_count : ℕ
  pub arena_next : ℕ
  pub large_list : ℕ
  pub bootstrap_used : ℕ

-- the loop that zeroes the registry, from entry `i` on, `left` of them left
unfoldable pub zero_registry : (left i : ℕ) → List ℕ → List ℕ
zero_registry zero i table = table
zero_registry (suc left) i table = zero_registry left (i + 1) (set table i 0)

-- everything between the compare-and-swap that was won and the store of 2, that store included
unfoldable pub set_up : Global → Global
unfolding zero_registry
set_up g =
    let num_arenas = if ltb max_arenas 4 then max_arenas else 4 in
    record {
      initialized = 2;
      segment_registry = zero_registry segment_registry_size 0 g.segment_registry;
      classes = size_class_init g.classes;
      arena_count = num_arenas;
      arena_next = 0;
      large_list = null;
      bootstrap_used = 0;
    }

-- Where a thread is: before its compare-and-swap, in the set-up, in the spin loop, or past malloc_init.
pub data Place : Type 0 where
  calling : Place
  setting_up : Place
  spinning : Place
  returned : Place

abbrev pub go : (ℕ → Place) → ℕ → Place → ℕ → Place
go places i to j = if i == j then to else places j

-- One step of thread `i`.
pub data Step : Global → (ℕ → Place) → Global → (ℕ → Place) → Type 0 where
  won :
      {g : Global} {places : ℕ → Place} (i : ℕ)
      → places i ≡ calling
      → g.initialized ≡ 0
      → Step g places (record g { initialized = 1 }) (go places i setting_up)
  lost :
      {g : Global} {places : ℕ → Place} (i : ℕ)
      → places i ≡ calling
      → g.initialized ≢ 0
      → Step g places g (go places i spinning)
  spin :
      {g : Global} {places : ℕ → Place} (i : ℕ)
      → places i ≡ spinning
      → g.initialized ≢ 2
      → Step g places g places
  leave :
      {g : Global} {places : ℕ → Place} (i : ℕ)
      → places i ≡ spinning
      → g.initialized ≡ 2
      → Step g places g (go places i returned)
  finish :
      {g : Global} {places : ℕ → Place} (i : ℕ)
      → places i ≡ setting_up
      → Step g places (set_up g) (go places i returned)

-- What can be reached from a state.
pub data Run (g : Global) (places : ℕ → Place) : Global → (ℕ → Place) → Type 0 where
  start : Run g places g places
  then_step :
      {h k : Global} {at to : ℕ → Place} → Run g places h at → Step h at k to → Run g places k to
