-- ===== src/Page/Init.antt =====
-- page_init and page_retire.
use malloc.Common.{
  ℕ, ◌+◌, ◌-◌, ◌*◌, ◌/◌, ◌%◌, ◌^◌, ◌≤◌, ◌<◌, ◌≡◌, refl, [], arith, dec_lt, lt→ltb, ge→ltb, ltb,
  if◌then◌else◌, u16, u32,
}
use native.Mathlib.Nat.{
  div-mul-le_self, le-div_iff_mul-le, mul-pos, mul-le-mul_left, mod-eq_of_lt, lt_of_le_of_lt,
}
use malloc.Common.Mask.{bit_and-high, bit_and-low}
use malloc.Memory.{Mem}
use malloc.Atomic.{tagged_ptr_get}
use malloc.Page.{Page, round_slot, page_init}
use malloc.Page.Invariant.{IsPage}

-- The slot size is rounded up to the next multiple of 16.
pub round_slot_lem : (s : ℕ) → s ≤ 0x1_0000 → round_slot s ≡ s + 15 - (s + 15) % 16
unfolding round_slot
round_slot_lem s h = rw fits (bit_and-high 4 28 (s + 15) (omega arith))
  where
    fits : u32 (s + 15) ≡ s + 15
    fits = omega arith

-- What page_init makes of the slot size.
record IsSize (slot_size size : ℕ) : Type 0 where
  least : 16 ≤ size
  most : size ≤ 0x1_0000
  aligned : size % 16 ≡ 0
  above : slot_size ≤ size
  near : size < slot_size + 16

abbrev init_size : ℕ → ℕ
init_size s = round_slot (if ltb s 16 then 16 else s)

init_size-IsSize : (s : ℕ) → 0 < s → s ≤ 0x1_0000 → IsSize s (init_size s)
init_size-IsSize s pos h = elim (dec_lt s 16) [
  | yes small ↦ rw (lt→ltb s 16 small, round_slot_lem 16 (omega arith)) (omega arith)
  | no large ↦ rw (ge→ltb s 16 (omega arith), round_slot_lem s h) (omega arith)
]

record IsCapacity (size : ℕ) : Type 0 where
  few : 65536 / size ≡ u16 (65536 / size)
  inside : u16 (65536 / size) * size ≤ 0x1_0000

quotient-IsCapacity : (size : ℕ) → 16 ≤ size → IsCapacity size
quotient-IsCapacity size h = record { few = few; inside = rw (← few) (div-mul-le_self 65536 size) }
  where
    few : 65536 / size ≡ u16 (65536 / size)
    few = omega (arith, div-mul-le_self 65536 size, mul-le-mul_left (65536 / size) h)

-- There is room for a slot.
pub page_init_room :
    (p : Page) (seg arena page_index bin_idx slot_size : ℕ)
    → 0 < slot_size
    → slot_size ≤ 0x1_0000
    → let q = page_init p seg arena page_index bin_idx slot_size in q.bump_offset < q.bump_end
unfolding page_init
page_init_room p seg arena page_index bin_idx slot_size some_bytes small =
    let z = init_size-IsSize slot_size some_bytes small in
    let c = quotient-IsCapacity (init_size slot_size) z.least in
    let one : 1 ≤ 65536 / init_size slot_size =
      (le-div_iff_mul-le (omega (arith, z.least))).1 (omega (arith, z.most)) in
    omega (
      arith,
      c.inside,
      mul-pos {m = u16 (65536 / init_size slot_size)} {n = init_size slot_size}
          (omega (arith, c.few, one)) (omega (arith, z.least)),
    )

-- page_init makes a page with no slot carved, whatever the page held before. Its slots hold
-- `slot_size` bytes, less than 16 bytes more, and lie within the 64 KB of the page.
pub page_init-IsPage :
    (p : Page) (m : Mem) (seg arena page_index bin_idx slot_size : ℕ)
    → 0 < slot_size
    → slot_size ≤ 0x1_0000
    → page_index < 64
    → 0 < seg
    → seg + 0x40_0000 ≤ 2 ^ 48
    → let q = page_init p seg arena page_index bin_idx slot_size in
      IsPage q m 0 [] [] [] × (slot_size ≤ q.slot_size) × (q.slot_size < slot_size + 16)
unfolding page_init tagged_ptr_get
page_init-IsPage p m seg arena page_index bin_idx slot_size some_bytes small index pos low =
    let z = init_size-IsSize slot_size some_bytes small in
    let c = quotient-IsCapacity (init_size slot_size) z.least in
    (
      record {
        shaped = record {
          slot_small = z.least;
          slot_aligned = z.aligned;
          inside = c.inside;
          bump_stop = mod-eq_of_lt (lt_of_le_of_lt c.inside (omega arith));
          start_pos = omega arith;
          start_low = omega arith;
        };
        bumped = omega arith;
        room = omega arith;
        local_chain = refl;
        remote_chain = bit_and-low 48 0;
        used = refl;
        local_count = refl;
        remote_count = refl;
        accounted = refl;
        owned = λ a. refl;
      },
      z.above,
      z.near,
    )
