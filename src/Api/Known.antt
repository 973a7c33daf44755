-- ===== src/Api/Known.antt =====
-- The branches of my_realloc of src/malloc.c, in an initialised allocator.
use malloc.Common.{
  ℕ, ◌≡◌, ◌≢◌, refl, ap, ◌∙◌, false, ◌&&◌, Option, none, some, leb, ◌==◌, if◌then◌else◌, ==_iff,
  ne→==,
}
use malloc.Memory.{null}
use malloc.Os.{Kernel}
use malloc.Large.{large_find}
use malloc.SizeClass.{size_to_bin}
use malloc.Heap.{page_of}
use malloc.Api.{
  Process, malloc_ensure_init, in_bootstrap, known_page, my_realloc, realloc_known, realloc_large,
  reallocate,
}

module _ (k : Kernel) (fuel ptr new_size : ℕ) (s : Process) where
  -- realloc_known after the search for the page
  with_page : Option ℕ → Option (ℕ × Process)
  with_page (some p) =
      if leb new_size (page_of s.state.heap p).slot_size
        && (size_to_bin s.state.heap.classes new_size == (page_of s.state.heap p).bin_idx)
      then some (ptr, s)
      else reallocate k fuel ptr (page_of s.state.heap p).slot_size new_size s
  with_page none = elim (large_find s.state.large ptr) [
    | none ↦ none
    | some la ↦ realloc_large k fuel ptr new_size la s
  ]

  pub realloc_known-page :
      {p : ℕ}
      → known_page s.state ptr ≡ some p
      → realloc_known k fuel ptr new_size s ≡ (
          if leb new_size (page_of s.state.heap p).slot_size
            && (size_to_bin s.state.heap.classes new_size == (page_of s.state.heap p).bin_idx)
          then some (ptr, s)
          else reallocate k fuel ptr (page_of s.state.heap p).slot_size new_size s)
  unfolding realloc_known with_page
  realloc_known-page e = ap with_page e

  pub realloc_known-large :
      {la : ℕ}
      → known_page s.state ptr ≡ none
      → large_find s.state.large ptr ≡ some la
      → realloc_known k fuel ptr new_size s ≡ realloc_large k fuel ptr new_size la s
  unfolding realloc_known with_page
  realloc_known-large no_page found =
      ap with_page no_page
      ∙ ap
          (λ (o : Option ℕ). elim o as (λ x. Option (ℕ × Process)) [
            | none ↦ none
            | some la ↦ realloc_large k fuel ptr new_size la s
          ])
          found

  pub my_realloc-known :
      s.state.initialized ≡ 2
      → ptr ≢ null
      → new_size ≢ 0
      → in_bootstrap s.state ptr ≡ false
      → my_realloc k fuel ptr new_size s ≡ realloc_known k fuel ptr new_size s
  unfolding my_realloc malloc_ensure_init
  my_realloc-known up some_ptr some_size outside =
      rw
        (
          (==_iff s.state.initialized 2).1 up,
          ne→== ptr null some_ptr,
          ne→== new_size 0 some_size,
          outside,
        )
        refl
