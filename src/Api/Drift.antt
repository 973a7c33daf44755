-- ===== src/Api/Drift.antt =====
-- my_realloc of src/malloc.c of a large allocation in place, and large_allocated afterwards.
use malloc.Common.{
  ℕ, zero, suc, ◌^◌, ◌<◌, ◌≤◌, ◌≡◌, ◌≢◌, refl, ap, ◌∙◌, false, none, some, arith, sub64, ==_iff,
  ne→==, le→leb, ℕ_discrete, Returns,
}
use malloc.Memory.{null}
use malloc.Os.{Kernel}
use malloc.Large.{
  LargeAlloc, Headers, Large, store, covers, find_loop, large_find, large_free, drop, unlink,
}
use malloc.Api.Known.{my_realloc-known, realloc_known-large}
use malloc.Api.{Process, with_state, in_bootstrap, known_page, my_realloc, realloc_large}

-- the header with another user_size
abbrev resized : Headers → (la n : ℕ) → Headers
resized h la n = store h la (record (h la) { user_size = n })

resized-keeps {ℓ} :
    {A : Type ℓ} (f : LargeAlloc → A) (h : Headers) (la n x : ℕ)
    → f (record (h la) { user_size = n }) ≡ f (h la)
    → f (resized h la n x) ≡ f (h x)
resized-keeps f h la n x e = elim (ℕ_discrete la x) [
  | yes same ↦ rw ((==_iff la x).1 same) (e ∙ ap (λ t. f (h t)) same)
  | no other ↦ rw (ne→== la x other) refl
]

-- The search does not look at user_size.
find_loop-resized :
    (fuel : ℕ) (h : Headers) (la n ptr x : ℕ)
    → find_loop fuel (resized h la n) ptr x ≡ find_loop fuel h ptr x
unfolding find_loop
find_loop-resized zero h la n ptr x = refl
find_loop-resized (suc fuel) h la n ptr x =
    rw
      (
        resized-keeps (λ a. covers a ptr) h la n x refl,
        resized-keeps (λ a. a.next) h la n x refl,
        find_loop-resized fuel h la n ptr (h x).next,
      )
      refl

module _ (s : Process) (ptr new_size la : ℕ) (some_ptr : ptr ≢ null) (some_la : la ≢ null)
    (found : large_find s.state.large ptr ≡ some la) where
  abbrev large : Large
  large = s.state.large

  abbrev header : LargeAlloc
  header = large.headers la

  abbrev grown : Large
  grown = record large { headers = resized large.headers la new_size }

  free_resized :
      header.user_size < 2 ^ 64
      → new_size < 2 ^ 64
      → new_size ≢ header.user_size
      → Returns (large_free grown ptr) (λ t.
        (t.large_allocated ≡ sub64 large.large_allocated new_size)
        × (t.large_allocated ≢ sub64 large.large_allocated header.user_size))
  unfolding large_free large_find drop unlink
  free_resized small new_small other = (
    drop la grown,
    rw
        (
          ne→== ptr null some_ptr,
          find_loop-resized large.large_alloc_count large.headers la new_size ptr large.large_list,
          found,
          ne→== la null some_la,
        )
        refl,
    rw ((==_iff la la).1 refl) (refl, λ e. absurd (omega (arith, e, small, new_small, other))),
  )

  -- In an initialised allocator, my_realloc of a pointer into a large allocation, outside of the bootstrap
  -- buffer and of the segments, to a size, not 0, that fits what its mapping has from the pointer on and that
  -- differs from its user_size, a 64-bit word: it returns the same pointer, and large_free of that pointer then
  -- takes the new size off large_allocated, which leaves another value than user_size taken off would.
  pub realloc_large_drifts :
      (k : Kernel) (fuel : ℕ)
      → s.state.initialized ≡ 2
      → in_bootstrap s.state ptr ≡ false
      → known_page s.state ptr ≡ none
      → new_size ≢ 0
      → new_size ≤ sub64 header.size (sub64 ptr header.base)
      → header.user_size < 2 ^ 64
      → new_size ≢ header.user_size
      → Returns (my_realloc k fuel ptr new_size s) (λ r.
        (r.0 ≡ ptr)
        × Returns (large_free r.1.state.large ptr) (λ t.
          (t.large_allocated ≡ sub64 large.large_allocated new_size)
          × (t.large_allocated ≢ sub64 large.large_allocated header.user_size)))
  unfolding realloc_large
  realloc_large_drifts k fuel up outside no_page some_size room small other = (
    (ptr, with_state s (record s.state { large = grown })),
    my_realloc-known k fuel ptr new_size s up some_ptr some_size outside
        ∙ realloc_known-large k fuel ptr new_size s no_page found
        ∙ rw (ne→== la null some_la, le→leb _ _ room) refl,
    (refl, free_resized small (omega (arith, room)) other),
  )
