-- ===== src/Page/Alloc.antt =====
-- page_alloc_slot: the local list, then virgin slots, then the remote list.
use native.Mathlib.Nat.{le_refl, le_trans, mul-le-mul_right, mul-lt-mul_of_pos_right}
use malloc.Common.{
  ℕ, suc, ◌+◌, ◌*◌, ◌≤◌, ◌<◌, ◌≡◌, ◌≢◌, ◌⊎◌, inl, inr, refl, sym, ◌∙◌, subst, ap, u64, List, [],
  ◌∷◌, ◌++◌, arith, lt→ltb, ge→ltb, length, Returns, true, false, dec_lt,
}
use malloc.Memory.{Mem, null, not_null}
use malloc.Memory.Chain.{Chain, count, hit}
use malloc.Page.{Page, page_start, pop_local, bump, take_local, page_alloc_slot}
use malloc.Page.Collect.{Collected, page_collect_remote-Collected}
use malloc.Page.Kept.{IsKept, IsKept-trans}
use malloc.Page.Invariant.{IsPage, Holds, slots_at-above, capacity_small, once}

-- A slot that nobody held is now held, and nothing outside the page has changed.
pub record Fresh (p : Page) (m : Mem) (live : List ℕ) (r : ℕ × Page × Mem) : Type 0 where
  pub given : r.0 ≢ null
  pub new : count r.0 live ≡ 0
  pub holds : Holds r.1 r.2 (r.0 ∷ live)
  pub kept : IsKept p m r.1 r.2

-- NULL, from a page all of whose slots are held; nothing outside the page has changed.
pub record NoRoom (p : Page) (m : Mem) (live : List ℕ) (r : ℕ × Page × Mem) : Type 0 where
  pub refused : r.0 ≡ null
  pub full : length live ≡ p.capacity
  pub holds : Holds r.1 r.2 live
  pub kept : IsKept p m r.1 r.2

module _ {p : Page} {m : Mem} {carved : ℕ} {live remote : List ℕ} where
  pop_local-Fresh :
      (x : ℕ) (local : List ℕ)
      → IsPage p m carved live (x ∷ local) remote
      → Fresh p m live ((pop_local p m).0, (pop_local p m).1, m)
  unfolding pop_local
  pop_local-Fresh x local v = record {
    given = λ e. v.local_chain.1 (sym v.local_chain.0 ∙ e);
    new = ground (arith, v.local_chain.0, once v x);
    holds = record {
      carved = carved;
      local = local;
      remote = remote;
      page = record {
        shaped = v.shaped;
        bumped = v.bumped;
        room = v.room;
        local_chain = subst (λ q. Chain m (m q) local) (sym v.local_chain.0) v.local_chain.2;
        remote_chain = v.remote_chain;
        used = omega (arith, few, v.used, v.accounted, v.room);
        local_count = omega (arith, few, v.local_count, v.accounted, v.room);
        remote_count = v.remote_count;
        accounted = omega (arith, v.accounted);
        owned = λ a. omega (arith, v.owned a, same a);
      };
    };
    kept = record { same = ground arith; outside = λ a o. refl };
  }
    where
      few : p.capacity ≤ 4096
      few = capacity_small v.shaped

      same : (a : ℕ) → hit a p.local_free ≡ hit a x
      same a = ap (hit a) v.local_chain.0

  pub bump-Fresh :
      (local : List ℕ)
      → IsPage p m carved live local remote
      → carved < p.capacity
      → Fresh p m live ((bump p).0, (bump p).1, m)
  unfolding bump
  bump-Fresh local v room = record {
    given = λ e. absurd (omega (arith, slot, e, v.shaped.start_pos));
    new = omega (
      arith,
      ap (λ t. count t live) slot,
      v.owned (page_start p + carved * p.slot_size),
      slots_at-above (page_start p) p.slot_size carved (page_start p + carved * p.slot_size)
          (le_refl _) (le_trans (omega arith) v.shaped.slot_small),
    );
    holds = record {
      carved = suc carved;
      local = local;
      remote = remote;
      page = record {
        shaped = v.shaped;
        bumped = omega (arith, v.bumped, fits);
        room = room;
        local_chain = v.local_chain;
        remote_chain = v.remote_chain;
        used = omega (arith, few, v.used, v.accounted, room);
        local_count = v.local_count;
        remote_count = v.remote_count;
        accounted = omega (arith, v.accounted);
        owned = λ a. omega (arith, v.owned a, same a);
      };
    };
    kept = record { same = ground arith; outside = λ a o. refl };
  }
    where
      few : p.capacity ≤ 4096
      few = capacity_small v.shaped

      fits : carved * p.slot_size + p.slot_size ≤ 0x1_0000
      fits = omega (arith, mul-le-mul_right p.slot_size room, v.shaped.inside)

      slot : u64 (page_start p + p.bump_offset) ≡ page_start p + carved * p.slot_size
      slot = omega (arith, v.bumped, fits, v.shaped.start_low)

      same :
          (a : ℕ)
          → hit a (u64 (page_start p + p.bump_offset)) ≡ hit a (page_start p + carved * p.slot_size)
      same a = ap (hit a) slot

le_of_not-lt : {a b : ℕ} → ¬ (a < b) → b ≤ a
le_of_not-lt h = omega arith

abbrev pub Outcome : Page → Mem → List ℕ → ℕ × Page × Mem → Type 0
Outcome p m live r = Fresh p m live r ⊎ NoRoom p m live r

module _ {p : Page} {m : Mem} {carved : ℕ} {live : List ℕ} where
  alloc-local :
      (x : ℕ) (local remote : List ℕ)
      → IsPage p m carved live (x ∷ local) remote
      → Returns (page_alloc_slot p m) (Outcome p m live)
  unfolding page_alloc_slot
  alloc-local x local remote v =
      (((pop_local p m).0, (pop_local p m).1, m), rw taken, inl (pop_local-Fresh x local v))
    where
      taken : not_null p.local_free ≡ true
      taken = ground (arith, v.local_chain.0, v.local_chain.1)

  alloc-bump :
      (remote : List ℕ)
      → IsPage p m carved live [] remote
      → carved < p.capacity
      → Returns (page_alloc_slot p m) (Outcome p m live)
  unfolding page_alloc_slot
  alloc-bump remote v room = (
    ((bump p).0, (bump p).1, m),
    rw (none_local, lt→ltb p.bump_offset p.bump_end below),
    inl (bump-Fresh [] v room),
  )
    where
      none_local : not_null p.local_free ≡ false
      none_local = ground (arith, v.local_chain)

      below : p.bump_offset < p.bump_end
      below = omega (
        arith,
        v.bumped,
        v.shaped.bump_stop,
        mul-lt-mul_of_pos_right room (le_trans (omega arith) v.shaped.slot_small),
      )

  drained :
      (remote : List ℕ) (r : Page × Mem)
      → ¬ (carved < p.capacity)
      → IsPage p m carved live [] remote
      → Collected p m carved live [] remote r
      → Outcome p m live (take_local r.0 r.1)
  unfolding take_local
  drained [] (q, n) none_left v c = rw empty (
      inr (record {
        refused = refl;
        full = omega (arith, v.accounted, v.room);
        holds = record { carved = carved; local = []; remote = []; page = c.page };
        kept = c.kept;
      }))
    where
      empty : not_null q.local_free ≡ false
      empty = ground (arith, c.page.local_chain)
  drained (x ∷ xs) (q, n) none_left v c = rw some_left (
      inl (record {
        given = f.given;
        new = f.new;
        holds = f.holds;
        kept = IsKept-trans c.kept f.kept;
      }))
    where
      f : Fresh q n live ((pop_local q n).0, (pop_local q n).1, n)
      f = pop_local-Fresh x (xs ++ []) c.page

      some_left : not_null q.local_free ≡ true
      some_left = ground (arith, c.page.local_chain.0, c.page.local_chain.1)

  alloc-collect :
      (remote : List ℕ)
      → IsPage p m carved live [] remote
      → ¬ (carved < p.capacity)
      → Returns (page_alloc_slot p m) (Outcome p m live)
  unfolding page_alloc_slot
  alloc-collect remote v none_left =
      let (r, ran, c) = page_collect_remote-Collected remote v in
      (
        take_local r.0 r.1,
        rw (none_local, ge→ltb p.bump_offset p.bump_end spent, ran),
        drained remote r none_left v c,
      )
    where
      none_local : not_null p.local_free ≡ false
      none_local = ground (arith, v.local_chain)

      spent : p.bump_end ≤ p.bump_offset
      spent = omega (
        arith,
        v.bumped,
        v.shaped.bump_stop,
        mul-le-mul_right p.slot_size (le_of_not-lt none_left),
      )

  alloc-cases :
      (local remote : List ℕ)
      → IsPage p m carved live local remote
      → Returns (page_alloc_slot p m) (Outcome p m live)
  alloc-cases (x ∷ local) remote v = alloc-local x local remote v
  alloc-cases [] remote v = elim (dec_lt carved p.capacity) [
    | yes room ↦ alloc-bump remote v room
    | no none_left ↦ alloc-collect remote v none_left
  ]

-- page_alloc_slot ends, and either hands out a slot of the page that nobody held, or returns NULL
-- from a page all of whose slots are held; the page is valid again with the slots then held, and the
-- memory outside of it is as it was.
pub page_alloc_slot-Outcome :
    {p : Page} {m : Mem} {live : List ℕ}
    → Holds p m live
    → Returns (page_alloc_slot p m) (Outcome p m live)
page_alloc_slot-Outcome h = alloc-cases h.local h.remote h.page
