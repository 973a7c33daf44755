-- ===== src/Debug/Count.antt =====
-- The number of the bits set is the number of the slots that callers hold.
use malloc.Common.{
  ℕ, zero, suc, ◌+◌, ◌*◌, ◌/◌, ◌%◌, ◌^◌, ◌<◌, ◌≤◌, ◌≡◌, ◌≢◌, refl, sym, ap, ◌∙◌, subst, Bool, true,
  false, ◌&&◌, List, [], ◌∷◌, length, get_or, bit_and, u8, u16, arith, lt→ltb, ge→ltb, ℕ_discrete,
}
use native.Mathlib.Nat.{le_trans, le_refl}
use malloc.Memory.{Mem, not_null}
use malloc.Memory.Chain.{count}
use malloc.Page.{Page, page_start}
use malloc.Page.Invariant.{Holds, slots_at, slots_at-le, capacity_small, once}
use malloc.Debug.{bitmap_count, popcount, test_bit}
use malloc.Debug.Bits.{bit, one_if, ones, popcount-ones}
use malloc.Debug.Track.{IsBitmap}
use malloc.Debug.Caught.{IsTracked, slot_at}

-- how many of the first `n` bits are set
abbrev marks_below : ℕ → List ℕ → ℕ
marks_below zero bits = 0
marks_below (suc n) bits = marks_below n bits + one_if (test_bit bits n)

-- how often the first `n` slots of a page occur in a list
abbrev held_below : Page → ℕ → List ℕ → ℕ
held_below p zero live = 0
held_below p (suc n) live = held_below p n live + count (slot_at p n) live

one_if-le : (b : Bool) → one_if b ≤ 1
one_if-le true = omega arith
one_if-le false = omega arith

marks_below-le : (n : ℕ) (bits : List ℕ) → marks_below n bits ≤ n
marks_below-le zero bits = omega arith
marks_below-le (suc n) bits = omega (arith, marks_below-le n bits, one_if-le (test_bit bits n))

mark_of :
    (bits : List ℕ) (n b k : ℕ)
    → n ≡ 8 * b + k
    → k < 8
    → one_if (test_bit bits n) ≡ one_if (bit (get_or bits b 0) k)
mark_of bits n b k e h =
    ap (λ t. one_if (not_null (bit_and (get_or bits t 0) (u8 (2 ^ (n % 8)))))) quotient
    ∙ ap (λ t. one_if (not_null (bit_and (get_or bits b 0) (u8 (2 ^ t))))) remainder
  where
    quotient : n / 8 ≡ b
    quotient = omega (arith, e, h)

    remainder : n % 8 ≡ k % 8
    remainder = omega (arith, e)

marks_byte :
    (b : ℕ) (bits : List ℕ)
    → marks_below (8 * suc b) bits ≡ marks_below (8 * b) bits + ones (get_or bits b 0)
marks_byte b bits =
    ap (λ n. marks_below n bits) next
    ∙ omega (
      arith,
      mark_of bits (8 * b) b 0 (omega arith) (omega arith),
      mark_of bits (suc (8 * b)) b 1 (omega arith) (omega arith),
      mark_of bits (suc (suc (8 * b))) b 2 (omega arith) (omega arith),
      mark_of bits (suc (suc (suc (8 * b)))) b 3 (omega arith) (omega arith),
      mark_of bits (suc (suc (suc (suc (8 * b))))) b 4 (omega arith) (omega arith),
      mark_of bits (suc (suc (suc (suc (suc (8 * b)))))) b 5 (omega arith) (omega arith),
      mark_of bits (suc (suc (suc (suc (suc (suc (8 * b))))))) b 6 (omega arith) (omega arith),
      mark_of bits (suc (suc (suc (suc (suc (suc (suc (8 * b)))))))) b 7 (omega arith)
          (omega arith),
    )
  where
    next : 8 * suc b ≡ suc (suc (suc (suc (suc (suc (suc (suc (8 * b))))))))
    next = omega arith

bitmap_count-marks :
    (left b : ℕ) (bits : List ℕ)
    → IsBitmap bits
    → left + b ≤ 512
    → bitmap_count left b (marks_below (8 * b) bits) bits ≡ marks_below (8 * (b + left)) bits
unfolding bitmap_count
bitmap_count-marks zero b bits w h = ap (λ n. marks_below (8 * n) bits) (omega arith)
bitmap_count-marks (suc left) b bits w h =
    ap (λ c. bitmap_count left (b + 1) c bits)
      (step b w (omega (arith, h)) ∙ ap (λ n. marks_below (8 * n) bits) (omega arith))
    ∙ bitmap_count-marks left (b + 1) bits w (omega (arith, h))
    ∙ ap (λ n. marks_below (8 * n) bits) (omega arith)
  where
    step :
        (b : ℕ)
        → IsBitmap bits
        → b < 512
        → u16 (marks_below (8 * b) bits + popcount (get_or bits b 0)) ≡ marks_below (8 * suc b) bits
    step b w h = omega (
      arith,
      marks_byte b bits,
      popcount-ones (get_or bits b 0) (w.bytes b),
      marks_below-le (8 * suc b) bits,
    )

held_below-more :
    (p : Page) (n x : ℕ) (live : List ℕ)
    → held_below p n (x ∷ live) ≡ slots_at (page_start p) p.slot_size n x + held_below p n live
held_below-more p zero x live = refl
held_below-more p (suc n) x live = ground (arith, held_below-more p n x live)

held_below-none : (p : Page) (n : ℕ) → held_below p n [] ≡ 0
held_below-none p zero = refl
held_below-none p (suc n) = omega (arith, held_below-none p n)

-- If each one of a list is at one slot, all of them are counted.
held_below-length :
    (p : Page) (n : ℕ) (live : List ℕ)
    → ((a : ℕ) → count a live ≢ 0 → slots_at (page_start p) p.slot_size n a ≡ 1)
    → held_below p n live ≡ length live
held_below-length p n [] h = held_below-none p n
held_below-length p n (x ∷ live) h =
    held_below-more p n x live
    ∙ omega (
      arith,
      h x (ground arith),
      held_below-length p n live (λ a held. h a (omega (arith, held))),
    )

slots_at-le_more :
    (start size n N a : ℕ) → n ≤ N → slots_at start size n a ≤ slots_at start size N a
slots_at-le_more start size n zero a h =
    subst (λ n. slots_at start size n a ≤ 0) (none n h) (omega arith)
  where
    none : (n : ℕ) → n ≤ 0 → 0 ≡ n
    none n h = omega (arith, h)
slots_at-le_more start size n (suc N) a h = elim (ℕ_discrete n (suc N)) [
  | yes e ↦ subst (λ n. slots_at start size n a ≤ slots_at start size (suc N) a) (sym e) (le_refl _)
  | no ne ↦ omega (arith, slots_at-le_more start size n N a (omega (arith, h, ne)))
]

module _ (p : Page) {m : Mem} {live : List ℕ} (v : Holds p m live) where
  at_slot : (a : ℕ) → count a live ≢ 0 → slots_at (page_start p) p.slot_size p.capacity a ≡ 1
  at_slot a held = omega (
    arith,
    held,
    v.page.owned a,
    slots_at-le_more (page_start p) p.slot_size v.carved p.capacity a v.page.room,
    slots_at-le (page_start p) p.slot_size p.capacity a
        (le_trans (omega arith) v.page.shaped.slot_small),
  )

  module _ {bits : List ℕ} (t : IsTracked p bits live) where
    mark_count : (n : ℕ) → n < p.capacity → one_if (test_bit bits n) ≡ count (slot_at p n) live
    mark_count n h =
        ap one_if (t.marks n (omega (arith, h, capacity_small v.page.shaped)))
        ∙ ap (λ b. one_if (b && not_null (count (slot_at p n) live))) (lt→ltb n p.capacity h)
        ∙ same (omega (arith, once v.page (slot_at p n)))
      where
        same : {c : ℕ} → c ≤ 1 → one_if (not_null c) ≡ c
        same h = ground (arith, h)

    marks_held : (n : ℕ) → n ≤ p.capacity → marks_below n bits ≡ held_below p n live
    marks_held zero h = refl
    marks_held (suc n) h = omega (arith, marks_held n (omega (arith, h)), mark_count n h)

    marks_past :
        (n : ℕ) → p.capacity ≤ n → n ≤ 4096 → marks_below n bits ≡ marks_below p.capacity bits
    marks_past zero low high = ap (λ n. marks_below n bits) (same p.capacity low)
      where
        same : (c : ℕ) → c ≤ 0 → 0 ≡ c
        same c h = omega (arith, h)
    marks_past (suc n) low high = elim (ℕ_discrete p.capacity (suc n)) [
      | yes e ↦ ap (λ n. marks_below n bits) (sym e)
      | no ne ↦ omega (
        arith,
        marks_past n (omega (arith, low, ne)) (omega (arith, high)),
        ap one_if (
            t.marks n (omega (arith, high))
            ∙ ap (λ b. b && not_null (count (slot_at p n) live))
                (ge→ltb n p.capacity (omega (arith, low, ne)))),
      )
    ]

    pub bitmap_count-length : bitmap_count (u16 ((p.capacity + 7) / 8)) 0 0 bits ≡ length live
    bitmap_count-length =
        ap (λ n. bitmap_count n 0 0 bits) (few (capacity_small v.page.shaped))
        ∙ bitmap_count-marks ((p.capacity + 7) / 8) 0 bits t.bitmap
            (omega (arith, capacity_small v.page.shaped))
        ∙ marks_past (8 * (0 + (p.capacity + 7) / 8)) (omega arith)
            (omega (arith, capacity_small v.page.shaped))
        ∙ marks_held p.capacity (le_refl _)
        ∙ held_below-length p p.capacity live at_slot
      where
        few : {c : ℕ} → c ≤ 4096 → u16 ((c + 7) / 8) ≡ (c + 7) / 8
        few h = omega (arith, h)
