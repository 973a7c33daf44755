-- ===== src/Slab/Fast.antt =====
-- The fast path of slab_alloc_inner.
use malloc.Common.{
  ℕ, ◌≡◌, ◌≢◌, refl, sym, ap, ◌∙◌, subst, inl, inr, ◌∷◌, Bool, Bool-cases, Option, none, some, ltb,
  set, ne→==, arith, Returns,
}
use mathlib.Core.Option
use mathlib.Core.Option.{some-injective}
use malloc.Memory.{Mem, null, not_null}
use malloc.Memory.Chain.{count}
use malloc.Page.{Page, page_alloc_slot, page_collect_remote, take_local, pop_local, bump}
use malloc.Page.Alloc.{Outcome, page_alloc_slot-Outcome}
use malloc.Stats.{Tld, Totals, tld_stat_alloc, count_op, tld_stat_flush}
use malloc.Heap.{page_of}
use malloc.Heap.Valid.{IsOpen, IsHeap, Live}
use malloc.Thread.{State}
use malloc.Slab.{Answer, pop_collected, fast_path, count_in, after_fast, use_cached}
use malloc.Thread.Same.{IsSameState-refl}
use malloc.Slab.Free.{IsChanged, kept-IsChanged, totals-IsChanged}

abbrev pub forget : ℕ × Bool × Page × Mem → ℕ × Page × Mem
forget (slot, zeroed, p, m) = (slot, p, m)

-- The fast path of slab_alloc_inner, written out in src/slab.c, gives the same slot as page_alloc_slot of
-- src/page.c and leaves the same page and memory, for every page and memory.
pub fast_path-page_alloc_slot :
    (p : Page) (m : Mem) → Option.map forget (fast_path p m) ≡ page_alloc_slot p m
unfolding fast_path pop_collected page_alloc_slot take_local pop_local bump
fast_path-page_alloc_slot p m = elim (Bool-cases (not_null p.local_free)) [
  | inl local ↦ rw local refl
  | inr no_local ↦ elim (Bool-cases (ltb p.bump_offset p.bump_end)) [
    | inl room ↦ rw (no_local, room) refl
    | inr spent ↦ rw (no_local, spent) (collected (page_collect_remote p m))
  ]
]
  where
    same : (r : Page × Mem) → forget (pop_collected r) ≡ take_local r.0 r.1
    same (q, n) = elim (Bool-cases (not_null q.local_free)) [
      | inl local ↦ rw local refl
      | inr no_local ↦ rw no_local refl
    ]

    collected :
        (o : Option (Page × Mem))
        → Option.map forget (Option.map pop_collected o) ≡ Option.map (λ (q, n). take_local q n) o
    collected none = refl
    collected (some r) = ap some (same r)

pub stat_bin_page : (n : ℕ) (t : Tld) (a : Totals) → (tld_stat_alloc n t a).0.bin_page ≡ t.bin_page
unfolding tld_stat_alloc count_op tld_stat_flush
stat_bin_page n t a = ground arith

pub stat_arena : (n : ℕ) (t : Tld) (a : Totals) → (tld_stat_alloc n t a).0.arena ≡ t.arena
unfolding tld_stat_alloc count_op tld_stat_flush
stat_arena n t a = ground arith

-- What the fast path leaves: a slot of the cached page counted, or the page full and out of the cache.
pub data FastResult (s : State) (live : Live) (bin p : ℕ) (t : Tld) : Answer × State → Type 0 where
  hit :
      (answer : Answer) (r : State) (u : Tld)
      → answer.slot ≢ null
      → count answer.slot (live p) ≡ 0
      → IsChanged s.heap live p (answer.slot ∷ live p) r.heap
      → r.tld ≡ some u
      → u.bin_page ≡ t.bin_page
      → FastResult s live bin p t (answer, r)
  missed :
      (answer : Answer) (r : State)
      → answer.slot ≡ null
      → IsChanged s.heap live p (live p) r.heap
      → r.tld ≡ some (record t { bin_page = set t.bin_page bin null })
      → r.heap.segs.registry ≡ s.heap.segs.registry
      → r.heap.segs.os ≡ s.heap.segs.os
      → r.heap.arena_next ≡ s.heap.arena_next
      → FastResult s live bin p t (answer, r)

module _ (s : State) (live : Live) (bin p : ℕ) (t : Tld) (v : IsHeap s.heap live)
    (o : IsOpen s.heap p) where
  after_fast-FastResult :
      (slot : ℕ) (zeroed : Bool) (page : Page) (m : Mem)
      → Outcome (page_of s.heap p) s.heap.mem (live p) (slot, page, m)
      → FastResult s live bin p t (after_fast bin p t s (slot, zeroed, page, m))
  unfolding after_fast count_in
  after_fast-FastResult slot zeroed page m (inl f) = rw (ne→== slot null f.given) (
      hit _ _ _ f.given f.new
        (totals-IsChanged s.heap live p _ _ t.arena _
          (kept-IsChanged s s live p page m _ (IsSameState-refl s) v o f.kept f.holds))
        refl (stat_bin_page page.slot_size t _))
  after_fast-FastResult slot zeroed page m (inr f) = rw f.refused (
      missed _ _ refl (kept-IsChanged s s live p page m _ (IsSameState-refl s) v o f.kept f.holds)
        refl refl refl refl)

  pub use_cached-FastResult : Returns (use_cached bin p t s) (FastResult s live bin p t)
  unfolding use_cached
  use_cached-FastResult =
      let (r, ran, outcome) = page_alloc_slot-Outcome (v.page p o) in
      mapped (fast_path (page_of s.heap p) s.heap.mem) r
        (fast_path-page_alloc_slot (page_of s.heap p) s.heap.mem ∙ ran) outcome
    where
      mapped :
          (f : Option (ℕ × Bool × Page × Mem)) (r : ℕ × Page × Mem)
          → Option.map forget f ≡ some r
          → Outcome (page_of s.heap p) s.heap.mem (live p) r
          → Returns (Option.map (after_fast bin p t s) f) (FastResult s live bin p t)
      mapped none r e outcome = absurd (cc)
      mapped (some (slot, zeroed, page, m)) r e outcome = (
        after_fast bin p t s (slot, zeroed, page, m),
        refl,
        after_fast-FastResult slot zeroed page m (
            subst (Outcome (page_of s.heap p) s.heap.mem (live p)) (sym (some-injective _ _ e))
              outcome),
      )
