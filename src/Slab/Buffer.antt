-- ===== src/Slab/Buffer.antt =====
-- The slab layer leaves the address of the bootstrap buffer alone.
use malloc.Common.{
  arith, ℕ, ◌≡◌, refl, ◌∙◌, inl, inr, Bool, true, false, Bool-cases, Option, none, some,
  if◌then◌else◌, ◌==◌, get_or, ltb, ◌/◌,
}
use mathlib.Core.Option
use malloc.Config.{medium_max, page_size_alloc}
use malloc.Memory.{Mem, null, not_null}
use malloc.Os.{Kernel}
use malloc.Page.{Page}
use malloc.SizeClass.{size_to_bin, bin_to_size}
use malloc.Segment.{ptr_to_page}
use malloc.Stats.{Tld}
use malloc.Heap.{Heap, page_ref}
use malloc.Thread.{State, tld_get, attach, attached, arena_get}
use malloc.Thread.Same.{tld_get-IsSameState}
use malloc.Slab.{
  Answer, count_in, after_fast, use_cached, claim_page, claim, after_arena, from_arena, slow_path,
  slab_large, or_slow, with_cache, with_tld, slab_bin, slab_alloc_inner,
}

-- Every result has the buffer at `b`.
abbrev pub Stays : ℕ → Option (Answer × State) → Type 0
Stays b none = Unit {0}
Stays b (some r) = r.1.bootstrap_buf ≡ b

map-Stays {ℓ} :
    {A : Type ℓ} (b : ℕ) (f : A → Answer × State) (o : Option A)
    → ((a : A) → (f a).1.bootstrap_buf ≡ b)
    → Stays b (Option.map f o)
map-Stays b f none h = tt
map-Stays b f (some a) h = h a

if-Stays :
    (b : ℕ) (c : Bool) (x y : Option (Answer × State))
    → Stays b x
    → Stays b y
    → Stays b (if c then x else y)
if-Stays b true x y h k = h
if-Stays b false x y h k = k

module _ (b : ℕ) where
  after_fast-buf :
      (bin p : ℕ) (t : Tld) (s : State) (r : ℕ × Bool × Page × Mem)
      → s.bootstrap_buf ≡ b
      → (after_fast bin p t s r).1.bootstrap_buf ≡ b
  unfolding after_fast count_in
  after_fast-buf bin p t s (slot, zeroed, page, m) h = elim (Bool-cases (not_null slot)) [
    | inl e ↦ rw e h
    | inr e ↦ rw e h
  ]

  use_cached-Stays :
      (bin p : ℕ) (t : Tld) (s : State) → s.bootstrap_buf ≡ b → Stays b (use_cached bin p t s)
  unfolding use_cached
  use_cached-Stays bin p t s h =
      map-Stays b (after_fast bin p t s) _ (λ r. after_fast-buf bin p t s r h)

  claim_page-buf :
      (bin p : ℕ) (t : Tld) (s : State)
      → s.bootstrap_buf ≡ b
      → (claim_page bin p t s).bootstrap_buf ≡ b
  unfolding claim_page
  claim_page-buf bin p t s h = ground (arith, h)

  claim-buf :
      (bin slot : ℕ) (t : Tld) (s : State)
      → s.bootstrap_buf ≡ b
      → (claim bin slot t s).bootstrap_buf ≡ b
  unfolding claim
  claim-buf bin slot t s h = by_page (ptr_to_page s.heap.segs.registry slot)
    where
      by_page :
          (o : Option (ℕ × ℕ))
          → (elim o as (λ x. State) [
            | none ↦ s
            | some (seg, i) ↦ claim_page bin (page_ref seg i) t s
          ]).bootstrap_buf
            ≡ b
      by_page none = h
      by_page (some (seg, i)) = claim_page-buf bin (page_ref seg i) t s h

  after_arena-buf :
      (bin : ℕ) (s : State) (r : ℕ × Heap)
      → s.bootstrap_buf ≡ b
      → (after_arena bin s r).1.bootstrap_buf ≡ b
  unfolding after_arena
  after_arena-buf bin s (slot, h) e = elim (Bool-cases (not_null slot)) [
    | inl given ↦ rw given (by_thread s.tld)
    | inr none_given ↦ rw none_given e
  ]
    where
      s' : State
      s' = record s { heap = h; large = record s.large { os = h.segs.os } }

      by_thread :
          (o : Option Tld)
          → (elim o as (λ x. State) [ none ↦ s' | some t ↦ claim bin slot t s' ]).bootstrap_buf ≡ b
      by_thread none = e
      by_thread (some t) = claim-buf bin slot t s' e

  attach-buf : (o : Option Tld) (s : State) → s.bootstrap_buf ≡ b → (attach o s).1.bootstrap_buf ≡ b
  unfolding attach
  attach-buf o s e = elim (Bool-cases (not_null (attached o))) [
    | inl has ↦ rw has e
    | inr has_not ↦ elim (Bool-cases (s.heap.arena_count == 0)) [
      | inl none_there ↦ rw (has_not, none_there) e
      | inr some_there ↦ rw (has_not, some_there) e
    ]
  ]

  slow_path-Stays :
      (k : Kernel) (fuel bin : ℕ) (s : State)
      → s.bootstrap_buf ≡ b
      → Stays b (slow_path k fuel bin s)
  unfolding slow_path from_arena arena_get
  slow_path-Stays k fuel bin s e =
      from (attach (tld_get k s).0 (tld_get k s).1)
        (attach-buf (tld_get k s).0 (tld_get k s).1 ((tld_get-IsSameState k s).bootstrap_buf ∙ e))
    where
      from : (r : ℕ × State) → r.1.bootstrap_buf ≡ b → Stays b (from_arena k fuel bin r)
      from (a, t) h =
          if-Stays b (a == null) _ _ h
            (map-Stays b (after_arena bin t) _ (λ r. after_arena-buf bin t r h))

  with_cache-Stays :
      (k : Kernel) (fuel bin : ℕ) (t : Tld) (s : State)
      → s.bootstrap_buf ≡ b
      → Stays b (with_cache k fuel bin t s)
  unfolding with_cache or_slow
  with_cache-Stays k fuel bin t s e =
      if-Stays b _ _ _ (cached (use_cached bin p t s) (use_cached-Stays bin p t s e))
        (slow_path-Stays k fuel bin s e)
    where
      p : ℕ
      p = get_or t.bin_page bin null

      cached :
          (o : Option (Answer × State))
          → Stays b o
          → Stays b (elim o as (λ x. Option (Answer × State)) [
            | none ↦ none
            | some r ↦ or_slow k fuel bin r
          ])
      cached none h = tt
      cached (some r) h = if-Stays b (not_null r.0.slot) _ _ h (slow_path-Stays k fuel bin r.1 h)

  slab_bin-Stays :
      (k : Kernel) (fuel bin : ℕ) (s : State)
      → s.bootstrap_buf ≡ b
      → Stays b (slab_bin k fuel bin s)
  unfolding slab_bin with_tld
  slab_bin-Stays k fuel bin s e = by_thread (tld_get k s).0
    where
      same : (tld_get k s).1.bootstrap_buf ≡ b
      same = (tld_get-IsSameState k s).bootstrap_buf ∙ e

      by_thread : (o : Option Tld) → Stays b (with_tld k fuel bin (o, (tld_get k s).1))
      by_thread none = slow_path-Stays k fuel bin (tld_get k s).1 same
      by_thread (some t) = with_cache-Stays k fuel bin t (tld_get k s).1 same

pub slab_alloc_inner-Stays :
    (k : Kernel) (fuel size : ℕ) (s : State)
    → Stays s.bootstrap_buf (slab_alloc_inner k fuel size s)
unfolding slab_alloc_inner slab_large
slab_alloc_inner-Stays k fuel size s =
    if-Stays s.bootstrap_buf (ltb medium_max n) (some (slab_large k n s)) _ refl (
      if-Stays s.bootstrap_buf (ltb (page_size_alloc / 2) (bin_to_size s.heap.classes bin))
        (some (slab_large k n s)) (slab_bin k fuel bin s) refl
        (slab_bin-Stays s.bootstrap_buf k fuel bin s refl))
  where
    n : ℕ
    n = if size == 0 then 1 else size

    bin : ℕ
    bin = size_to_bin s.heap.classes n
