-- ===== src/Debug/Caught.antt =====
-- debug_mark_allocated and debug_check_and_mark_freed against the slots that callers hold.
use malloc.Common.{
  [], ℕ, ◌+◌, ◌-◌, ◌*◌, ◌/◌, ◌^◌, ◌%◌, ◌<◌, ◌≡◌, ◌≢◌, ◌⊎◌, inl, inr, refl, sym, ap, ◌∙◌, subst,
  Bool, true, false, ◌&&◌, ◌==◌, ltb, if◌then◌else◌, none, List, ◌∷◌, get_or, set, bit_and, bit_or,
  u8, arith, Returns, ne→==, ==_iff, lt→ltb, ℕ_discrete,
}
use malloc.Memory.{Mem, not_null}
use malloc.Memory.Chain.{count, erase, count-erase}
use malloc.Page.{Page, page_start}
use malloc.Page.Invariant.{
  Holds, IsShaped, IsSlot, slots_at-IsSlot, slots_apart, capacity_small, once,
}
use malloc.Debug.{
  blank_bitmap, no_index, debug_slot_index, debug_mark_allocated, debug_check_and_mark_freed,
  bit_mask, test_bit,
}
use malloc.Debug.Bits.{bit}
use malloc.Debug.Track.{
  blank-IsBitmap, test_bit-blank, IsBitmap, set-IsBitmap, test_bit-set, set_bits, clear_bits,
  slot_index, slot_index-none,
}

-- The bit of each slot says whether the slot is among `live`; the bits past the last slot are clear.
pub record IsTracked (p : Page) (bits live : List ℕ) : Type 0 where
  pub bitmap : IsBitmap bits
  pub marks :
      (j : ℕ)
      → j < 4096
      → test_bit bits j
        ≡ (ltb j p.capacity && not_null (count (page_start p + j * p.slot_size) live))

-- The bitmap of a new page.
pub blank-IsTracked : (p : Page) → IsTracked p blank_bitmap []
blank-IsTracked p = record {
  bitmap = blank-IsBitmap;
  marks = λ j hj. test_bit-blank j ∙ never (ltb j p.capacity);
}
  where
    never : (b : Bool) → false ≡ (b && false)
    never true = refl
    never false = refl

module _ (p : Page) {m : Mem} {live : List ℕ} (h : Holds p m live) where
  pub held_slot : (a : ℕ) → count a live ≢ 0 → IsSlot (page_start p) p.slot_size p.capacity a
  held_slot a held =
      let s =
        slots_at-IsSlot (page_start p) p.slot_size h.carved a
          (λ e. held (omega (arith, h.page.owned a, e))) in
      record {
        index = s.index;
        index_lt = omega (arith, s.index_lt, h.page.room);
        address = s.address;
      }

-- Slots of different numbers have different addresses.
pub slot_ne :
    (p : Page)
    → IsShaped (page_start p) p.slot_size p.capacity p.bump_end
    → (i j : ℕ) → i ≢ j
    → (page_start p + i * p.slot_size) ≢ (page_start p + j * p.slot_size)
slot_ne p s i j ne e = omega (arith, slots_apart (page_start p) p.slot_size i j ne, s.slot_small)

pub few_slots :
    {i start size capacity stop : ℕ} → IsShaped start size capacity stop → i < capacity → i < 4096
few_slots s small = omega (arith, small, capacity_small s)

module _ (p : Page) {bits live live' : List ℕ}
    (s : IsShaped (page_start p) p.slot_size p.capacity p.bump_end) (t : IsTracked p bits live)
    (i v : ℕ) (d : Bool) (small : i < p.capacity) (byte : v < 256)
    (changed : (j : ℕ) → bit v j ≡ (if i % 8 == j % 8 then d else bit (get_or bits (i / 8) 0) j))
    (here : not_null (count (page_start p + i * p.slot_size) live') ≡ d)
    (there : (a : ℕ) → a ≢ (page_start p + i * p.slot_size) → count a live' ≡ count a live) where
  -- the bit of a slot changes with the slot
  change-IsTracked : IsTracked p (set bits (i / 8) v) live'
  change-IsTracked = record {
    bitmap = set-IsBitmap bits i v t.bitmap (few_slots s small) byte;
    marks = λ j hj.
        test_bit-set bits i v t.bitmap (few_slots s small) byte j d (changed j)
        ∙ elim (ℕ_discrete i j) [
          | yes e ↦
              subst
                (λ j.
                  (if i == j then d else test_bit bits j)
                  ≡ (ltb j p.capacity && not_null (count (page_start p + j * p.slot_size) live')))
                e (rw ((==_iff i i).1 refl, lt→ltb i p.capacity small, here))
          | no ne ↦ rw (
            ne→== i j ne,
            t.marks j hj,
            there (page_start p + j * p.slot_size) (slot_ne p s j i (λ e. ne (sym e))),
          )
        ];
  }

pub real_index :
    {i start size capacity stop : ℕ}
    → IsShaped start size capacity stop
    → i < capacity
    → (i == no_index) ≡ false
real_index {i} s small = ne→== i no_index (omega (arith, few_slots s small))

-- the address of slot `i`
abbrev pub slot_at : Page → (i : ℕ) → ℕ
slot_at p i = page_start p + i * p.slot_size

module _ (p : Page) {live bits : List ℕ} (i : ℕ) (small : i < p.capacity)
    (t : IsTracked p bits live) where
  marked :
      IsShaped (page_start p) p.slot_size p.capacity p.bump_end
      → test_bit bits i ≡ not_null (count (slot_at p i) live)
  marked s =
      t.marks i (few_slots s small)
      ∙ ap (λ b. b && not_null (count (slot_at p i) live)) (lt→ltb i p.capacity small)

  mark_at :
      {m : Mem}
      → Holds p m ((slot_at p i) ∷ live)
      → Returns
          (debug_mark_allocated p (slot_at p i) bits)
          (λ b. IsTracked p b ((slot_at p i) ∷ live))
  unfolding debug_mark_allocated
  mark_at h = (
    set bits (i / 8) (bit_or (get_or bits (i / 8) 0) (bit_mask i)),
    rw (
      slot_index p i h.page.shaped small,
      real_index h.page.shaped small,
      marked h.page.shaped,
      out h,
    ),
    change-IsTracked p h.page.shaped t i (bit_or (get_or bits (i / 8) 0) (bit_mask i)) true small
        (set_bits (get_or bits (i / 8) 0) i i (t.bitmap.bytes (i / 8))).0
        (λ j. (set_bits (get_or bits (i / 8) 0) i j (t.bitmap.bytes (i / 8))).1) (ground (arith))
        (λ a ne. ground (arith, ne)),
  )
    where
      out :
          {m : Mem} → Holds p m ((slot_at p i) ∷ live) → not_null (count (slot_at p i) live) ≡ false
      out h = ground (arith, once h.page (slot_at p i))

  clear_at :
      {m : Mem}
      → Holds p m live
      → count (slot_at p i) live ≢ 0
      → Returns
          (debug_check_and_mark_freed p (slot_at p i) bits)
          (λ b. IsTracked p b (erase (slot_at p i) live))
  unfolding debug_check_and_mark_freed
  clear_at h held = (
    set bits (i / 8) (bit_and (get_or bits (i / 8) 0) (u8 (2 ^ 32 - 1 - bit_mask i))),
    rw (
      slot_index p i h.page.shaped small,
      real_index h.page.shaped small,
      marked h.page.shaped,
      is_held,
    ),
    change-IsTracked p h.page.shaped t i
        (bit_and (get_or bits (i / 8) 0) (u8 (2 ^ 32 - 1 - bit_mask i))) false small
        (clear_bits (get_or bits (i / 8) 0) i i (t.bitmap.bytes (i / 8))).0
        (λ j. (clear_bits (get_or bits (i / 8) 0) i j (t.bitmap.bytes (i / 8))).1)
        (ground
          (arith, once h.page (slot_at p i), count-erase (slot_at p i) (slot_at p i) live held))
        (λ a ne. ground (arith, ne, count-erase (slot_at p i) a live held)),
  )
    where
      is_held : not_null (count (slot_at p i) live) ≡ true
      is_held = ground (arith, held)

  refuse_at :
      {m : Mem}
      → Holds p m live
      → count (slot_at p i) live ≡ 0
      → debug_check_and_mark_freed p (slot_at p i) bits ≡ none
  unfolding debug_check_and_mark_freed
  refuse_at h free =
      rw
        (
          slot_index p i h.page.shaped small,
          real_index h.page.shaped small,
          marked h.page.shaped,
          free,
        )
        refl

-- In a page whose bitmap says which slots are held, marking a slot that has just been handed out
-- succeeds, and the bitmap says that it is held too.
pub debug_mark_allocated-IsTracked :
    (p : Page) {m : Mem} {live : List ℕ} (ptr : ℕ) (bits : List ℕ)
    → Holds p m (ptr ∷ live)
    → IsTracked p bits live
    → Returns (debug_mark_allocated p ptr bits) (λ b. IsTracked p b (ptr ∷ live))
debug_mark_allocated-IsTracked p {m} {live} ptr bits h t =
    let s = held_slot p h ptr (ground arith) in
    subst
      (λ a.
        Holds p m (a ∷ live)
        → Returns (debug_mark_allocated p a bits) (λ b. IsTracked p b (a ∷ live)))
      (sym s.address) (mark_at p s.index s.index_lt t) h

caught_index :
    (p : Page) (ptr : ℕ) (bits : List ℕ)
    → debug_slot_index p ptr ≡ no_index
    → debug_check_and_mark_freed p ptr bits ≡ none
unfolding debug_check_and_mark_freed
caught_index p ptr bits e = rw e refl

-- Freed through a page whose bitmap says which slots are held, a pointer into the page that is held
-- is accepted and then not marked; any other one, not at a slot or not held, is caught.
pub debug_check_and_mark_freed-catches :
    (p : Page) {m : Mem} {live : List ℕ} (ptr : ℕ) (bits : List ℕ)
    → Holds p m live
    → IsTracked p bits live
    → ptr < page_start p + 0x1_0000
    → (count ptr live ≢ 0
        × Returns (debug_check_and_mark_freed p ptr bits) (λ b. IsTracked p b (erase ptr live)))
      ⊎ ((count ptr live ≡ 0) × (debug_check_and_mark_freed p ptr bits ≡ none))
debug_check_and_mark_freed-catches p {live} ptr bits h t near =
    elim (ℕ_discrete (count ptr live) 0) [
      | no held ↦
          let s = held_slot p h ptr held in
          inl (
            held,
            subst
                (λ a.
                  count a live ≢ 0
                  → Returns (debug_check_and_mark_freed p a bits)
                      (λ b. IsTracked p b (erase a live)))
                (sym s.address) (clear_at p s.index s.index_lt t h) held,
          )
      | yes free ↦ inr (
        free,
        elim (slot_index-none p ptr h.page.shaped near) [
          | inl e ↦ caught_index p ptr bits e
          | inr s ↦
              subst (λ a. count a live ≡ 0 → debug_check_and_mark_freed p a bits ≡ none)
                (sym s.address) (refuse_at p s.index s.index_lt t h) free
        ],
      )
    ]
