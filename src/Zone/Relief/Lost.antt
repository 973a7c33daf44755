-- ===== src/Zone/Relief/Lost.antt =====
-- What becomes of the free slots of a page that zone_pressure_relief gives back: their links stand in the
-- page's own memory, which the kernel may replace by zeros from then on.
use malloc.Common.{
  ℕ, ◌+◌, ◌<◌, ◌≤◌, ◌≡◌, ◌≢◌, refl, sym, ap, ◌∙◌, true, ◌&&◌, List, [], ◌∷◌, length, ltb, leb,
  if◌then◌else◌, arith, Returns, ne→==, le→leb, lt→ltb,
}
use malloc.Memory.{Mem, null}
use malloc.Memory.Chain.{Chain, count}
use malloc.Os.{Os, madvise, os_madvise_free}
use malloc.Page.{Page, page_start, page_is_empty, page_alloc_slot, pop_local}
use malloc.Page.Invariant.{Holds, capacity_small}
use malloc.Page.Kept.{slots_inside}
use malloc.Page.Free.{page_is_empty_iff}
use malloc.Slab.{is_active}
use malloc.Zone.Relief.{relieve_page}

-- the memory after the kernel has replaced some of it by zeros
abbrev pub discarded : (start size : ℕ) → Mem → Mem
discarded start size m a = if leb start a && ltb a (start + size) then 0 else m a

module _ (p : Page) {m : Mem} (v : Holds p m []) (two : 2 ≤ p.local_free_count) where
  abbrev pub after : Mem
  after = discarded (page_start p) 0x1_0000 m

  first_inside : (page_start p ≤ p.local_free) × (p.local_free < page_start p + 0x1_0000)
  first_inside =
      first v.local v.page.local_chain (λ a h. slots_inside v.page a (omega (arith, h)))
        (omega (arith, v.page.local_count, two))
    where
      first :
          (xs : List ℕ)
          → Chain m p.local_free xs
          → ((a : ℕ) → count a xs ≢ 0 → (page_start p ≤ a) × (a < page_start p + 0x1_0000))
          → 2 ≤ length xs
          → (page_start p ≤ p.local_free) × (p.local_free < page_start p + 0x1_0000)
      first [] c inside h = absurd (omega (arith, h))
      first (x ∷ xs) c inside h = rw c.0 (inside x (ground arith))

  link_gone : after p.local_free ≡ null
  link_gone = rw (le→leb _ _ first_inside.0, lt→ltb _ _ first_inside.1) refl

  some_first : p.local_free ≢ null
  some_first e = omega (arith, e, first_inside.0, v.page.shaped.start_pos)

  short : (xs : List ℕ) → Chain after p.local_free xs → length xs ≤ 1
  short [] c = omega arith
  short (x ∷ []) c = omega arith
  short (x ∷ y ∷ xs) c = absurd (c.2.1 (sym c.2.0 ∙ ap after (sym c.0) ∙ link_gone))

  none_valid : (live : List ℕ) → ¬ (Holds p after live)
  none_valid live w = omega (arith, short w.local w.page.local_chain, w.page.local_count, two)

  count_small : p.local_free_count ≤ 4096
  count_small =
      omega (arith, v.page.local_count, v.page.accounted, v.page.room, capacity_small v.page.shaped)

  is_empty : page_is_empty p ≡ true
  is_empty =
      (page_is_empty_iff v.page).1 (refl, omega (arith, v.page.local_count, v.page.accounted, two))

-- zone_pressure_relief gives back an active page of which no slot is held but at least two are on the local
-- free list. Once the kernel has replaced its memory by zeros it is no valid page, whatever slots callers
-- are said to hold: page_alloc_slot still hands out the first slot of the list, but the list is empty
-- then, though local_free_count says that slots are left on it.
pub relieve_page-loses :
    (p : Page) {m : Mem} (os : Os) (released : ℕ)
    → Holds p m []
    → 2 ≤ p.local_free_count
    → is_active p.state ≡ true
    → ((relieve_page p (os, released)).0.calls ≡ madvise (page_start p) 0x1_0000 ∷ os.calls)
      × ((live : List ℕ) → ¬ (Holds p (discarded (page_start p) 0x1_0000 m) live))
      × Returns (page_alloc_slot p (discarded (page_start p) 0x1_0000 m)) (λ r.
        (r.0 ≡ p.local_free)
        × (r.1.local_free ≡ null)
        × (r.1.local_free_count + 1 ≡ p.local_free_count))
unfolding relieve_page os_madvise_free page_alloc_slot pop_local
relieve_page-loses p {m} os released v two is_on = (
  rw
      (
        is_on,
        is_empty p v two,
        ne→== (page_start p) 0 (λ e. absurd (omega (arith, e, v.page.shaped.start_pos))),
      )
      refl,
  none_valid p v two,
  (
    ((pop_local p gone).0, (pop_local p gone).1, gone),
    rw (ne→== p.local_free null (some_first p v two)) refl,
    (refl, link_gone p v two, omega (arith, two, count_small p v two)),
  ),
)
  where
    gone : Mem
    gone = discarded (page_start p) 0x1_0000 m
