-- ===== src/Heap/Apart.antt =====
-- Where the pages of a heap lie, and that the slots callers hold never overlap.
use malloc.Common.{ℕ, ◌+◌, ◌*◌, ◌≤◌, ◌≡◌, ◌≢◌, ◌⊎◌, inl, inr, subst, arith, ℕ_discrete, dec_lt}
use malloc.Memory.Chain.{count}
use malloc.Page.{page_start}
use malloc.Page.Safety.{held_slots-apart}
use malloc.Heap.{Heap, index_of, seg_of, page_of}
use malloc.Heap.Valid.{IsOpen, IsHeap, Live}

module _ {h : Heap} {live : Live} (v : IsHeap h live) where
  pub page_start-IsOpen :
      (p : ℕ) → IsOpen h p → page_start (page_of h p) ≡ seg_of p + index_of p * 0x1_0000
  page_start-IsOpen p o =
      let s = (v.segment (seg_of p) o.some_segment o.registered).placed (index_of p) o.hi in
      rw (s.0, s.1) (omega (arith, v.below (seg_of p) o.some_segment o.registered, o.hi))

  -- Different pages have no byte in common.
  pub pages-apart :
      (p q : ℕ)
      → IsOpen h p
      → IsOpen h q
      → p ≢ q
      → (page_start (page_of h p) + 0x1_0000 ≤ page_start (page_of h q))
        ⊎ (page_start (page_of h q) + 0x1_0000 ≤ page_start (page_of h p))
  pages-apart p q o o' ne =
      rw (page_start-IsOpen p o, page_start-IsOpen q o')
        (elim (dec_lt p q) [
          | yes lt ↦ inl (omega (arith, o.lo, o.hi, o'.lo, o'.hi, lt))
          | no ge ↦ inr (omega (arith, o.lo, o.hi, o'.lo, o'.hi, ge, ne))
        ])

-- In a valid heap two different slots that callers hold do not overlap, whatever pages they are of.
pub heap_slots-apart :
    {h : Heap} {live : Live} (p q a b : ℕ)
    → IsHeap h live
    → IsOpen h p
    → IsOpen h q
    → count a (live p) ≢ 0
    → count b (live q) ≢ 0
    → a ≢ b
    → (a + (page_of h p).slot_size ≤ b) ⊎ (b + (page_of h q).slot_size ≤ a)
heap_slots-apart {h} {live} p q a b v o o' ha hb ne = elim (ℕ_discrete p q) [
  | yes e ↦
      subst
        (λ t.
          count b (live t) ≢ 0
          → (a + (page_of h p).slot_size ≤ b) ⊎ (b + (page_of h t).slot_size ≤ a))
        e (λ hb'. (held_slots-apart a b (v.page p o) ha hb').2 ne) hb
  | no differ ↦
      let s = (held_slots-apart a a (v.page p o) ha ha).1 in
      let t = (held_slots-apart b b (v.page q o') hb hb).1 in
      ground (arith, pages-apart v p q o o' differ, s.above, s.below, t.above, t.below)
]
