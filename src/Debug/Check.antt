-- ===== src/Debug/Check.antt =====
-- debug_heap_check of a page that is in order.
use malloc.Common.{
  ℕ, zero, suc, ◌+◌, ◌-◌, ◌*◌, ◌/◌, ◌<◌, ◌≤◌, ◌≡◌, ◌≢◌, refl, sym, ap, ◌∙◌, subst, true, false,
  ◌&&◌, ltb, ◌==◌, some, List, [], ◌∷◌, length, u16, arith, lt→ltb, ge→ltb, ne→==, dec_lt, ==_iff,
}
use mathlib.Core.Option
use native.Mathlib.Nat.{le_trans, mul-div_left, mul-lt-mul_of_pos_right, mul-le-mul_right, add-mul}
use malloc.Memory.{Mem, null, not_null}
use malloc.Memory.Chain.{Chain, count}
use malloc.Page.{Page, page_start}
use malloc.Page.Invariant.{Holds, IsSlot, slots_at-IsSlot, capacity_small, once}
use malloc.Debug.{
  no_index, debug_slot_index, free_walk, bump_remaining, counts_agree, check_page, test_bit,
}
use malloc.Debug.Track.{slot_index}
use malloc.Debug.Caught.{IsTracked, slot_at, real_index, few_slots}
use malloc.Debug.Count.{bitmap_count-length}

module _ (p : Page) {m : Mem} {live bits : List ℕ} (v : Holds p m live)
    (t : IsTracked p bits live) where
  -- a slot that is free: it has an index, and its bit is clear
  record FreeSlot (a : ℕ) : Type 0 where
    indexed : (debug_slot_index p a == no_index) ≡ false
    clear : test_bit bits (debug_slot_index p a) ≡ false

  free_slot : (a : ℕ) → count a v.local ≢ 0 → FreeSlot a
  free_slot a free = subst FreeSlot (sym s.address) at
    where
      s : IsSlot (page_start p) p.slot_size v.carved a
      s =
          slots_at-IsSlot (page_start p) p.slot_size v.carved a
            (λ e. free (omega (arith, v.page.owned a, e)))

      small : s.index < p.capacity
      small = omega (arith, s.index_lt, v.page.room)

      index : debug_slot_index p (slot_at p s.index) ≡ s.index
      index = slot_index p s.index v.page.shaped small

      not_held : not_null (count (slot_at p s.index) live) ≡ false
      not_held =
          subst (λ a. not_null (count a live) ≡ false) s.address
            (ground (arith, once v.page a, free))

      at : FreeSlot (slot_at p s.index)
      at = record {
        indexed = ap (λ i. i == no_index) index ∙ real_index v.page.shaped small;
        clear =
            ap (test_bit bits) index
            ∙ t.marks s.index (few_slots v.page.shaped small)
            ∙ ap (λ b. ltb s.index p.capacity && b) not_held
            ∙ rw (lt→ltb s.index p.capacity small) refl;
      }

  walk_free :
      (fuel walked : ℕ) (entry : ℕ) (xs : List ℕ)
      → ((a : ℕ) → count a xs ≢ 0 → count a v.local ≢ 0)
      → Chain m entry xs
      → length xs < fuel
      → walked + length xs ≤ p.capacity
      → free_walk fuel p m bits entry walked true ≡ some (walked + length xs, true)
  unfolding free_walk
  walk_free zero walked entry xs sub c h room = absurd (omega (arith, h))
  walk_free (suc fuel) walked entry [] sub c h room =
      rw ((==_iff entry null).1 c) (ap (λ n. some (n, true)) (omega arith))
  walk_free (suc fuel) walked entry (x ∷ xs) sub c h room =
      let f = free_slot entry (sub entry (ground (arith, c.0))) in
      rw
        (
          ne→== entry null (λ e. c.1 (sym c.0 ∙ e)),
          next,
          ge→ltb p.capacity (walked + 1) (omega (arith, room)),
          f.indexed,
          f.clear,
        )
        (walk_free fuel (walked + 1) (m entry) xs (λ a held. sub a (λ e. held (omega (arith, e))))
            (subst (λ q. Chain m (m q) xs) (sym c.0) c.2) (omega (arith, h)) (omega (arith, room))
          ∙ ap (λ n. some (n, true)) (omega arith))
    where
      next : u16 (walked + 1) ≡ walked + 1
      next = omega (arith, room, capacity_small v.page.shaped)

  bump_rest : bump_remaining p + v.carved ≡ p.capacity
  bump_rest =
      rw (v.page.bumped, v.page.shaped.bump_stop)
        (elim (dec_lt v.carved p.capacity) [
          | yes more ↦
              rw
                (
                  lt→ltb (v.carved * p.slot_size) (p.capacity * p.slot_size)
                      (mul-lt-mul_of_pos_right more pos),
                  quotient more pos,
                )
                (omega (arith, more, capacity_small v.page.shaped))
          | no all ↦
              rw
                (ge→ltb (v.carved * p.slot_size) (p.capacity * p.slot_size)
                  (mul-le-mul_right p.slot_size (omega (arith, all))))
                (omega (arith, all, v.page.room))
        ])
    where
      pos : 0 < p.slot_size
      pos = le_trans (omega arith) v.page.shaped.slot_small

      quotient : {a b n : ℕ} → b < a → 0 < n → (a * n - b * n) / n ≡ a - b
      quotient {a} {b} {n} h pos =
          ap (λ t. t / n) (omega (arith, add-mul (a - b) b n, ap (λ t. t * n) (back h)))
          ∙ mul-div_left (a - b) pos
        where
          back : {a b : ℕ} → b < a → a - b + b ≡ a
          back h = omega (arith, h)

-- The heap check finds a page in order whose bitmap says which slots are held.
pub check_page-passes :
    (p : Page) {m : Mem} {live : List ℕ} (bits : List ℕ)
    → Holds p m live
    → IsTracked p bits live
    → check_page p m bits ≡ some true
unfolding check_page counts_agree
check_page-passes p {m} {live} bits v t =
    ap (Option.map (counts_agree p bits)) (
      walk_free p v t (p.capacity + 2) 0 p.local_free v.local (λ a h. h) v.page.local_chain
        (omega (arith, v.page.accounted, v.page.room))
        (omega (arith, v.page.accounted, v.page.room)))
    ∙ ap some (
        rw
          (
            bitmap_count-length p v t,
            (==_iff (length live) p.used).1 (sym v.page.used),
            (==_iff (0 + length v.local) p.local_free_count).1 (omega (arith, v.page.local_count)),
            (==_iff (u16 (p.used + (0 + length v.local) + p.remote_free_count + bump_remaining p))
                  p.capacity).1
                (omega (
                  arith,
                  v.page.used,
                  v.page.remote_count,
                  v.page.accounted,
                  bump_rest p v t,
                  capacity_small v.page.shaped,
                )),
          )
          refl)
